-- ===== src/Ciba/Approved.antt =====
-- Backchannel tokens (ciba.go) are only for users who approved.
use qeet_id.Base.{
  ℕ, ◌==◌, false, not, ◌&&◌, Option, none, some, List, String, str_eq, any, ltb, is_some, ◌≡◌, ◌≢◌,
  refl, arith, Bool-cases, inl, inr, Keeps, run-All, All,
}
use qeet_id.Device.Rows.{Status, pending, authorized, denied, Clock, find}
use qeet_id.Device.Token.{Grant, too_soon}
use qeet_id.Oidc.Rows
use qeet_id.Mfa.Counting.{find-any}
use qeet_id.Ciba.Requests.{Request, Env, Reply, failed, replied, has_id, has_hash}
use qeet_id.Ciba.Token.{
  update, touch, consume, decide_backchannel, redeem_for, by_status, poll_row, backchannel_token,
}
use qeet_id.Ciba.Run.{Op, asks, decides, polls, Issue, issue, step, run_ops}
use qeet_id.Ciba.Quiet.{IsApart, is_approved}
use qeet_id.Ciba.Unapproved.{IsQuiet, update-IsQuiet, touch-IsQuiet, ask-IsQuiet, decide-IsQuiet}

module _ (u : ℕ) where
  abbrev Ungranted : Reply Grant → Type 0
  Ungranted (failed e) = Unit
  Ungranted (replied g) = g.user ≢ u

  redeem-IsQuiet :
      (clock : Clock) (r : Request) (rs : List Request) (o : Option Rows.Client)
      → r.user ≢ u
      → IsQuiet u rs
      → Ungranted (redeem_for clock r rs o).0 × IsQuiet u (redeem_for clock r rs o).1
  redeem-IsQuiet clock r rs none other q = (_, q)
  redeem-IsQuiet clock r rs (some c) other q = (
    other,
    update-IsQuiet u r.id (consume clock.db) (update r.id (touch clock.db) rs) (λ x. refl)
        (λ x p. p) (touch-IsQuiet u clock.db r.id rs q),
  )

  status-IsQuiet :
      (env : Env) (clock : Clock) (r : Request) (rs : List Request) (s : Status)
      → r.status ≡ s
      → is_approved u r ≡ false
      → IsQuiet u rs
      → Ungranted (by_status env clock r rs s).0 × IsQuiet u (by_status env clock r rs s).1
  status-IsQuiet env clock r rs pending e unasked q = (_, touch-IsQuiet u clock.db r.id rs q)
  status-IsQuiet env clock r rs denied e unasked q = (_, touch-IsQuiet u clock.db r.id rs q)
  status-IsQuiet env clock r rs authorized e unasked q =
      redeem-IsQuiet clock r rs (Rows.find_client r.client_id env.oidc)
        (ground (arith, rw e at unasked)) q

  unapproved_row :
      (h : String) (rs : List Request) (r : Request)
      → find (has_hash h) rs ≡ some r
      → IsQuiet u rs
      → is_approved u r ≡ false
  unapproved_row h rs r found q = elim (Bool-cases (is_approved u r)) [
    | inr right ↦ right
    | inl wrong ↦
        absurd (ground (arith, q.1, find-any (has_hash h) (is_approved u) rs r found (λ p. wrong)))
  ]

  row-IsQuiet :
      (env : Env) (h client : String) (clock : Clock) (rs : List Request) (o : Option Request)
      → find (has_hash h) rs ≡ o
      → IsQuiet u rs
      → Ungranted (poll_row env clock client rs o).0 × IsQuiet u (poll_row env clock client rs o).1
  row-IsQuiet env h client clock rs none found q = (_, q)
  row-IsQuiet env h client clock rs (some r) found q =
      let late_touch = touch-IsQuiet u clock.db r.id rs q in
      elim (Bool-cases (not (str_eq r.client_id client))) [
        | inl wrong ↦ rw wrong (_, q)
        | inr own ↦ elim (Bool-cases (is_some r.consumed_at)) [
          | inl used ↦ rw (own, used) (_, q)
          | inr unused ↦ elim (Bool-cases (too_soon clock r.interval_seconds r.last_polled_at)) [
            | inl soon ↦ rw (own, unused, soon) (_, late_touch)
            | inr late ↦ elim (Bool-cases (ltb r.expires_at clock.app)) [
              | inl over ↦ rw (own, unused, late, over) (_, late_touch)
              | inr in_time ↦
                  rw (own, unused, late, in_time)
                    (status-IsQuiet env clock r rs r.status refl (unapproved_row h rs r found q) q)
            ]
          ]
        ]
      ]

  poll-IsQuiet :
      (env : Env) (raw client : String) (clock : Clock) (rs : List Request)
      → IsQuiet u rs
      → Ungranted (backchannel_token env clock client raw rs).0
        × IsQuiet u (backchannel_token env clock client raw rs).1
  unfolding backchannel_token
  poll-IsQuiet env raw client clock rs q = elim (Bool-cases (str_eq raw "")) [
    | inl empty ↦ rw empty (_, q)
    | inr given ↦ rw given (
        row-IsQuiet env (env.oidc.hash raw) client clock rs (find (has_hash (env.oidc.hash raw)) rs)
          refl q)
  ]

  -- Operations in which the user approves nothing.
  abbrev pub IsSilent : Op → Type 0
  IsSilent (asks clock id raw a) = Unit
  IsSilent (decides clock user id allow) = (user == u && allow) ≡ false
  IsSilent (polls clock client raw) = Unit

  issue-other :
      (h : String) (g : Reply Grant)
      → Ungranted g
      → All (λ (i : Issue). i.grant.user ≢ u) (issue h g)
  issue-other h (failed e) other = _
  issue-other h (replied g) other = (other, _)

  step-Keeps : (env : Env) → Keeps (step env) IsSilent (IsQuiet u) (λ (i : Issue). i.grant.user ≢ u)
  unfolding step
  step-Keeps env = record { keeps = kept; gives = given }
    where
      kept :
          (op : Op) (rs : List Request) → IsSilent op → IsQuiet u rs → IsQuiet u (step env op rs).1
      kept (asks clock id raw a) rs s q = ask-IsQuiet u env clock id raw a rs q
      kept (decides clock user id allow) rs s q =
          unfold decide_backchannel in
          decide-IsQuiet u clock user id allow rs (find (has_id id) rs) refl s q
      kept (polls clock client raw) rs s q = (poll-IsQuiet env raw client clock rs q).1

      given :
          (op : Op) (rs : List Request)
          → IsSilent op
          → IsQuiet u rs
          → All (λ (i : Issue). i.grant.user ≢ u) (step env op rs).0
      given (asks clock id raw a) rs s q = _
      given (decides clock user id allow) rs s q = _
      given (polls clock client raw) rs s q =
          issue-other (env.oidc.hash raw) (backchannel_token env clock client raw rs).0
            (poll-IsQuiet env raw client clock rs q).0

  -- In a run in which a user approves no request, no tokens are answered for that user, whoever asks,
  -- polls or decides: from any table whose ids are apart and that has no approved request of the user.
  pub unapproved_ungranted :
      (env : Env) (ops : List Op) (rs : List Request)
      → IsApart rs
      → any (is_approved u) rs ≡ false
      → All IsSilent ops
      → All (λ (i : Issue). i.grant.user ≢ u) (run_ops env ops rs).0
  unapproved_ungranted env ops rs a q silent =
      run-All (step env) IsSilent (IsQuiet u) (λ (i : Issue). i.grant.user ≢ u) (step-Keeps env) ops
        rs silent (a, q)
