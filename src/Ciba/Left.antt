-- ===== src/Ciba/Left.antt =====
-- What a backchannel request (ciba.go) can still bring, and that asking, deciding and polling add nothing
-- to it.
use qeet_id.Base.{
  ℕ, ◌+◌, ◌≤◌, Bool, true, false, not, ◌&&◌, ◌||◌, Option, none, some, List, [], ◌∷◌, ◌++◌, String,
  str_eq, str_eq_iff, if◌then◌else◌, any, count, count-append, is_some, ◌≡◌, refl, subst, arith,
  Bool-cases, inl, inr, trim_space,
}
use qeet_id.Errs.{Result, ok, err}
use qeet_id.Device.Rows.{Clock, find}
use qeet_id.Device.Flow.{contains, not_permitted, or_default}
use qeet_id.Oidc.Rows
use qeet_id.Oidc.Codes.{authenticate_client}
use qeet_id.Mfa.Counting.{count-update_le, any-update, any-append}
use qeet_id.Oidc.Exchange.{fields}
use qeet_id.Ciba.Requests.{
  Request, Env, Asked, User, is_user, has_id, has_hash, insert_request, inserted, for_user,
  within_scopes, of_client, ask_as, new_request, ciba_grant, backchannel_authorize,
}
use qeet_id.Ciba.Token.{update, deny, approve, touch, decide_row}

module _ (h : String) where
  abbrev pub is_open : Request → Bool
  is_open r = has_hash h r && not (is_some r.consumed_at)

  -- What the hash can still bring: its rows that are not used, or one where it has no row yet.
  abbrev pub left : List Request → ℕ
  left rs = count is_open rs + (if any (has_hash h) rs then 0 else 1)

  pub left-update :
      (id : ℕ) (f : Request → Request) (rs : List Request)
      → ((r : Request) → is_open (f r) ≡ true → is_open r ≡ true)
      → ((r : Request) → has_hash h (f r) ≡ has_hash h r)
      → left (update id f rs) ≤ left rs
  left-update id f rs less same =
      rw (any-update (has_hash h) (has_id id) f same rs)
        (omega (arith, count-update_le is_open (has_id id) f less rs))

  left-append :
      (r : Request) (rs : List Request)
      → any (has_hash r.auth_req_id_hash) rs ≡ false
      → left (rs ++ r ∷ []) ≤ left rs
  unfolding count
  left-append r rs new = elim (Bool-cases (has_hash h r)) [
    | inr other ↦
        grind (arith, other, count-append is_open rs (r ∷ []), any-append (has_hash h) rs (r ∷ []))
    | inl own ↦
        let none_yet : any (has_hash h) rs ≡ false =
          subst (λ g. any (has_hash g) rs ≡ false) ((str_eq_iff r.auth_req_id_hash h).0 own) new in
        grind (
          arith,
          own,
          none_yet,
          count-append is_open rs (r ∷ []),
          any-append (has_hash h) rs (r ∷ []),
        )
  ]

  left-inserted :
      (raw : String) (r : Request) (rs : List Request)
      → left (inserted raw rs (insert_request r rs)).1 ≤ left rs
  unfolding insert_request
  left-inserted raw r rs =
      elim (Bool-cases (any (has_id r.id) rs || any (has_hash r.auth_req_id_hash) rs)) [
        | inl clash ↦ rw clash (omega arith)
        | inr free ↦ rw free (left-append r rs (ground (arith, free)))
      ]

  pub left-ask :
      (env : Env) (clock : Clock) (id : ℕ) (raw : String) (a : Asked) (rs : List Request)
      → left (backchannel_authorize env clock id raw a rs).1 ≤ left rs
  unfolding backchannel_authorize
  left-ask env clock id raw a rs =
      with_grants (authenticate_client env.oidc a.client_id a.client_secret)
    where
      with_scope :
          (c : Rows.Client) (o : Option User)
          → left (for_user env clock id raw a c rs o).1 ≤ left rs
      with_scope c none = omega arith
      with_scope c (some u) = left-inserted raw (new_request env clock id raw a c u.id) rs

      with_client :
          (c : Rows.Client) (o : Option String)
          → left (within_scopes env clock id raw a c rs o).1 ≤ left rs
      with_client c (some scope) = omega arith
      with_client c none = with_scope c (find (is_user env c.tenant a.login_hint) env.users)

      of : (o : Option Rows.Client) → left (of_client env clock id raw a rs o).1 ≤ left rs
      of none = omega arith
      of (some c) = with_client c (not_permitted c.scopes (or_default (fields a.scope) c.scopes))

      with_grants : (g : Result (List String)) → left (ask_as env clock id raw a rs g).1 ≤ left rs
      with_grants (err e) = omega arith
      with_grants (ok grant_types) = elim (Bool-cases (not (contains grant_types ciba_grant))) [
        | inl no_grant ↦ rw no_grant (omega arith)
        | inr may ↦ elim (Bool-cases (str_eq (trim_space a.login_hint) "")) [
          | inl no_hint ↦ rw (may, no_hint) (omega arith)
          | inr hint ↦ rw (may, hint) (of (Rows.find_client a.client_id env.oidc))
        ]
      ]

  pub left-decide :
      (clock : Clock) (user id : ℕ) (allow : Bool) (rs : List Request) (o : Option Request)
      → left (decide_row clock user id allow rs o).1 ≤ left rs
  left-decide clock user id allow rs none = omega arith
  left-decide clock user id allow rs (some r) = ground (
    arith,
    left-update id deny rs (λ x p. p) (λ x. refl),
    left-update id (approve clock.db) rs (λ x p. p) (λ x. refl),
  )

  pub left-touch : (now id : ℕ) (rs : List Request) → left (update id (touch now) rs) ≤ left rs
  left-touch now id rs = left-update id (touch now) rs (λ x p. p) (λ x. refl)
