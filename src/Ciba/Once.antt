-- ===== src/Ciba/Once.antt =====
-- A backchannel request (ciba.go) brings tokens at most once.
use qeet_id.Base.{
  ℕ, ◌+◌, ◌≤◌, true, false, not, ◌&&◌, Option, none, some, List, [], ◌∷◌, String, str_eq,
  str_eq_iff, any, count, total, run_paid, is_some, ltb, ◌≡◌, refl, subst, arith, Bool-cases, inl,
  inr, IsPaid, ◌∙◌,
}
use qeet_id.Device.Rows.{Status, pending, authorized, denied, Clock, find}
use qeet_id.Device.Token.{too_soon}
use qeet_id.Oidc.Rows
use qeet_id.Mfa.Counting.{count-spent, any-update, count-none, count-weaken, find-any}
use qeet_id.Ciba.Requests.{Request, Env, has_id, has_hash}
use qeet_id.Ciba.Token.{
  update, touch, consume, decide_backchannel, redeem_for, by_status, poll_row, backchannel_token,
}
use qeet_id.Ciba.Run.{Op, asks, decides, polls, issue, step, run_ops, is_for}
use qeet_id.Ciba.Left.{is_open, left, left-ask, left-decide, left-touch, left-update}

module _ (h : String) where
  still_open :
      (g : String) (rs : List Request) (r : Request) (now : ℕ)
      → find (has_hash g) rs ≡ some r
      → is_some r.consumed_at ≡ false
      → g ≡ h
      → any (λ x. has_id r.id x && is_open h x) (update r.id (touch now) rs) ≡ true
  still_open g rs r now found unused e =
      any-update (λ x. has_id r.id x && is_open h x) (has_id r.id) (touch now) (λ x. refl) rs
      ∙ find-any (has_hash g) (λ x. has_id r.id x && is_open h x) rs r found
          (λ own. ground (arith, own, unused, subst (λ k. has_hash k r ≡ true) e own))

  paid_redeem :
      (raw : String) (clock : Clock) (r : Request) (rs : List Request) (o : Option Rows.Client)
      → find (has_hash raw) rs ≡ some r
      → is_some r.consumed_at ≡ false
      → count (is_for h) (issue raw (redeem_for clock r rs o).0)
          + left h (redeem_for clock r rs o).1
        ≤ left h rs
  unfolding count
  paid_redeem raw clock r rs none found unused = omega arith
  paid_redeem raw clock r rs (some c) found unused =
      let touched = update r.id (touch clock.db) rs in
      let used =
        left-update h r.id (consume clock.db) touched (λ x p. absurd (ground (arith, p)))
          (λ x. refl) in
      elim (Bool-cases (str_eq raw h)) [
        | inr other ↦ rw other (omega (arith, used, left-touch h clock.db r.id rs))
        | inl same ↦
            let e = (str_eq_iff raw h).0 same in
            rw (same, any-update (has_hash h) (has_id r.id) (consume clock.db) (λ x. refl) touched)
              (omega (
                arith,
                left-touch h clock.db r.id rs,
                count-spent (is_open h) (has_id r.id) (consume clock.db) (λ x. ground arith) touched
                    (still_open raw rs r clock.db found unused e),
              ))
      ]

  paid_status :
      (env : Env) (raw : String) (clock : Clock) (r : Request) (rs : List Request) (s : Status)
      → find (has_hash raw) rs ≡ some r
      → is_some r.consumed_at ≡ false
      → count (is_for h) (issue raw (by_status env clock r rs s).0)
          + left h (by_status env clock r rs s).1
        ≤ left h rs
  unfolding count
  paid_status env raw clock r rs pending found unused = omega (arith, left-touch h clock.db r.id rs)
  paid_status env raw clock r rs denied found unused = omega (arith, left-touch h clock.db r.id rs)
  paid_status env raw clock r rs authorized found unused =
      paid_redeem raw clock r rs (Rows.find_client r.client_id env.oidc) found unused

  paid_row :
      (env : Env) (raw client : String) (clock : Clock) (rs : List Request) (o : Option Request)
      → find (has_hash raw) rs ≡ o
      → count (is_for h) (issue raw (poll_row env clock client rs o).0)
          + left h (poll_row env clock client rs o).1
        ≤ left h rs
  unfolding count
  paid_row env raw client clock rs none found = omega arith
  paid_row env raw client clock rs (some r) found =
      elim (Bool-cases (not (str_eq r.client_id client))) [
        | inl wrong ↦ rw wrong (omega arith)
        | inr own ↦ elim (Bool-cases (is_some r.consumed_at)) [
          | inl used ↦ rw (own, used) (omega arith)
          | inr unused ↦ elim (Bool-cases (too_soon clock r.interval_seconds r.last_polled_at)) [
            | inl soon ↦ rw (own, unused, soon) (omega (arith, left-touch h clock.db r.id rs))
            | inr late ↦ elim (Bool-cases (ltb r.expires_at clock.app)) [
              | inl over ↦
                  rw (own, unused, late, over) (omega (arith, left-touch h clock.db r.id rs))
              | inr in_time ↦
                  rw (own, unused, late, in_time)
                    (paid_status env raw clock r rs r.status found unused)
            ]
          ]
        ]
      ]

  paid_poll :
      (env : Env) (raw client : String) (clock : Clock) (rs : List Request)
      → count (is_for h) (issue (env.oidc.hash raw) (backchannel_token env clock client raw rs).0)
          + left h (backchannel_token env clock client raw rs).1
        ≤ left h rs
  unfolding backchannel_token count
  paid_poll env raw client clock rs = elim (Bool-cases (str_eq raw "")) [
    | inl no_raw ↦ rw no_raw (omega arith)
    | inr given ↦ rw given (
        paid_row env (env.oidc.hash raw) client clock rs (find (has_hash (env.oidc.hash raw)) rs)
          refl)
  ]

  pays : (env : Env) → IsPaid (step env) (is_for h) (left h) (λ op. 0)
  unfolding step count
  pays env (asks clock id raw a) rs = omega (arith, left-ask h env clock id raw a rs)
  pays env (decides clock user id allow) rs =
      unfold decide_backchannel in
      omega (arith, left-decide h clock user id allow rs (find (has_id id) rs))
  pays env (polls clock client raw) rs = omega (arith, paid_poll env raw client clock rs)

  no_gain : (ops : List Op) → total (λ (op : Op). 0) ops ≡ 0
  unfolding total
  no_gain [] = refl
  no_gain (op ∷ ops) = omega (arith, no_gain ops)

  -- Over any sequence of operations, with any clocks, an auth_req_id brings tokens at most once, if the
  -- table starts with at most one row for its hash.
  pub request_at_most_once :
      (env : Env) (ops : List Op) (rs : List Request)
      → count (has_hash h) rs ≤ 1
      → count (is_for h) (run_ops env ops rs).0 ≤ 1
  request_at_most_once env ops rs one =
      let paid = run_paid (step env) (is_for h) (left h) (λ op. 0) (pays env) ops rs in
      let few : left h rs ≤ 1 = elim (Bool-cases (any (has_hash h) rs)) [
        | inl some_row ↦ rw some_row (
            omega (arith, one, count-weaken (is_open h) (has_hash h) (λ x p. ground (arith, p)) rs))
        | inr no_row ↦ rw no_row (
            omega (
              arith,
              count-none (has_hash h) rs no_row,
              count-weaken (is_open h) (has_hash h) (λ x p. ground (arith, p)) rs,
            ))
      ] in
      omega (arith, paid, few, no_gain ops)
