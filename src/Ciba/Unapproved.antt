-- ===== src/Ciba/Unapproved.antt =====
-- Asking and decisions of others leave a user with no approved request (ciba.go).
use qeet_id.Base.{
  ℕ, ◌==◌, Bool, true, false, not, ◌&&◌, ◌||◌, Option, none, some, List, [], ◌∷◌, String, str_eq,
  any, ltb, ◌≡◌, refl, arith, Bool-cases, inl, inr, trim_space, ◌∙◌,
}
use qeet_id.Errs.{Result, ok, err}
use qeet_id.Device.Rows.{pending, Clock, find}
use qeet_id.Device.Flow.{contains, not_permitted, or_default}
use qeet_id.Oidc.Rows
use qeet_id.Oidc.Codes.{authenticate_client}
use qeet_id.Mfa.Counting.{any-append}
use qeet_id.Oidc.Exchange.{fields}
use qeet_id.Ciba.Requests.{
  Request, Env, Asked, User, is_user, has_id, has_hash, insert_request, inserted, for_user,
  within_scopes, of_client, ask_as, new_request, ciba_grant, backchannel_authorize,
}
use qeet_id.Ciba.Token.{update, deny, approve, touch, is_pending, decide_row}
use qeet_id.Ciba.Quiet.{IsApart, append-IsApart, update-IsApart, is_approved, quiet, approve_other}

module _ (u : ℕ) where
  abbrev pub IsQuiet : List Request → Type 0
  IsQuiet rs = IsApart rs × (any (is_approved u) rs ≡ false)

  pub update-IsQuiet :
      (id : ℕ) (f : Request → Request) (rs : List Request)
      → ((r : Request) → (f r).id ≡ r.id)
      → ((r : Request) → is_approved u (f r) ≡ true → is_approved u r ≡ true)
      → IsQuiet rs
      → IsQuiet (update id f rs)
  update-IsQuiet id f rs keeps_id less (a, q) =
      (update-IsApart id f keeps_id rs a, quiet u id f less rs q)

  pub touch-IsQuiet :
      (now id : ℕ) (rs : List Request) → IsQuiet rs → IsQuiet (update id (touch now) rs)
  touch-IsQuiet now id rs q = update-IsQuiet id (touch now) rs (λ r. refl) (λ r p. p) q

  inserted-IsQuiet :
      (raw : String) (r : Request) (rs : List Request)
      → r.status ≡ pending
      → IsQuiet rs
      → IsQuiet (inserted raw rs (insert_request r rs)).1
  unfolding insert_request
  inserted-IsQuiet raw r rs waits (a, q) =
      elim (Bool-cases (any (has_id r.id) rs || any (has_hash r.auth_req_id_hash) rs)) [
        | inl clash ↦ rw clash (a, q)
        | inr free ↦
            let unasked : is_approved u r ≡ false = rw waits (ground arith) in
            rw free (
              append-IsApart r rs (ground (arith, free)) a,
              any-append (is_approved u) rs (r ∷ []) ∙ ground (arith, q, unasked),
            )
      ]

  pub ask-IsQuiet :
      (env : Env) (clock : Clock) (id : ℕ) (raw : String) (a : Asked) (rs : List Request)
      → IsQuiet rs
      → IsQuiet (backchannel_authorize env clock id raw a rs).1
  unfolding backchannel_authorize
  ask-IsQuiet env clock id raw a rs q =
      with_grants (authenticate_client env.oidc a.client_id a.client_secret)
    where
      with_scope :
          (c : Rows.Client) (o : Option User) → IsQuiet (for_user env clock id raw a c rs o).1
      with_scope c none = q
      with_scope c (some x) = inserted-IsQuiet raw (new_request env clock id raw a c x.id) rs refl q

      with_client :
          (c : Rows.Client) (o : Option String)
          → IsQuiet (within_scopes env clock id raw a c rs o).1
      with_client c (some scope) = q
      with_client c none = with_scope c (find (is_user env c.tenant a.login_hint) env.users)

      of : (o : Option Rows.Client) → IsQuiet (of_client env clock id raw a rs o).1
      of none = q
      of (some c) = with_client c (not_permitted c.scopes (or_default (fields a.scope) c.scopes))

      with_grants : (g : Result (List String)) → IsQuiet (ask_as env clock id raw a rs g).1
      with_grants (err e) = q
      with_grants (ok grant_types) = elim (Bool-cases (not (contains grant_types ciba_grant))) [
        | inl no_grant ↦ rw no_grant q
        | inr may ↦ elim (Bool-cases (str_eq (trim_space a.login_hint) "")) [
          | inl no_hint ↦ rw (may, no_hint) q
          | inr hint ↦ rw (may, hint) (of (Rows.find_client a.client_id env.oidc))
        ]
      ]

  pub decide-IsQuiet :
      (clock : Clock) (user id : ℕ) (allow : Bool) (rs : List Request) (o : Option Request)
      → find (has_id id) rs ≡ o
      → (user == u && allow) ≡ false
      → IsQuiet rs
      → IsQuiet (decide_row clock user id allow rs o).1
  decide-IsQuiet clock user id allow rs none found unasked q = q
  decide-IsQuiet clock user id allow rs (some r) found unasked q =
      elim (Bool-cases (not (r.user == user))) [
        | inl wrong ↦ rw wrong q
        | inr own ↦ elim (Bool-cases (ltb r.expires_at clock.app)) [
          | inl over ↦ rw (own, over) q
          | inr in_time ↦ elim (Bool-cases (not (is_pending r.status))) [
            | inl decided ↦ rw (own, in_time, decided) q
            | inr waits ↦ elim (Bool-cases allow) [
              | inr denies ↦
                  rw (own, in_time, waits, denies)
                    (update-IsQuiet id deny rs (λ x. refl) (λ x p. absurd (ground (arith, p))) q)
              | inl allows ↦
                  rw (own, in_time, waits, allows)
                    (
                      update-IsApart id (approve clock.db) (λ x. refl) rs q.0,
                      approve_other u clock.db id rs r found (ground (arith, own, unasked, allows))
                          q.0 q.1,
                    )
            ]
          ]
        ]
      ]
