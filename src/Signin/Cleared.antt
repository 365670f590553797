-- ===== src/Signin/Cleared.antt =====
-- When the rows of lockout.go hold no lock for an email, and which rows are left when its counter is
-- cleared.
use qeet_id.Base.{
  ℕ, ◌≤◌, ◌≡◌, refl, ◌⊎◌, inl, inr, String, true, false, none, some, List, [], ◌∷◌, str_eq, arith,
  Bool-cases, ◌≢◌, ◌↔◌, str_eq_iff, Option-cases,
}
use qeet_id.Signin.Attempts.{
  find_attempt, still_locked, Attempt, Moment, login_locked_until, delete_attempt,
  clear_login_attempts,
}

-- The row of an email says that it may be tried: no lock, or one that is over.
abbrev pub IsOver : Moment → Attempt → Type 0
IsOver m a = (a.locked_until ≡ none) ⊎ ((t : ℕ) × (a.locked_until ≡ some t) × (t ≤ m.app))

-- The first row of the email, if it has one, does not lock it.
abbrev pub NoLock : Moment → String → List Attempt → Type 0
NoLock m email [] = Unit {0}
NoLock m email (a ∷ rows) =
    ((a.email ≡ email) × IsOver m a) ⊎ ((a.email ≢ email) × NoLock m email rows)

-- The rows that are left without those of the email.
pub data Without (email : String) : List Attempt → List Attempt → Type 0 where
  no_row : Without email [] []
  dropped :
      {a : Attempt} {rows left : List Attempt}
      → a.email ≡ email
      → Without email rows left
      → Without email (a ∷ rows) left
  kept :
      {a : Attempt} {rows left : List Attempt}
      → a.email ≢ email
      → Without email rows left
      → Without email (a ∷ rows) (a ∷ left)

-- The counter of the email is cleared, if the table can be written.
abbrev pub IsCleared : Moment → String → List Attempt → List Attempt → Type 0
IsCleared m email rows left =
    ((m.writes ≡ true) × Without email rows left) ⊎ ((m.writes ≡ false) × (left ≡ rows))

module _ (m : Moment) (email : String) where
  IsOver-iff : (a : Attempt) → (still_locked m (some a) ≡ none) ↔ IsOver m a
  IsOver-iff a = elim (Option-cases a.locked_until) [
    | inl n ↦ (λ h. inl n, λ h. ground (arith, n))
    | inr (t, e) ↦ (
      λ h. inr (t, e, ground (arith, h, e)),
      λ o. elim o [ inl n ↦ ground (arith, n) | inr (s, f, past) ↦ ground (arith, f, past) ],
    )
  ]

  NoLock-iff :
      (rows : List Attempt)
      → (still_locked m (find_attempt email rows) ≡ none) ↔ NoLock m email rows
  unfolding find_attempt
  NoLock-iff [] = (λ h. _, λ h. refl)
  NoLock-iff (a ∷ rows) = elim (Bool-cases (str_eq a.email email)) [
    | inl own ↦ rw own (
      λ h. inl ((str_eq_iff a.email email).0 own, (IsOver-iff a).0 h),
      λ o. elim o [
        | inl (e, over) ↦ (IsOver-iff a).1 over
        | inr (other, h) ↦ absurd (other ((str_eq_iff a.email email).0 own))
      ],
    )
    | inr not_own ↦
        let other : a.email ≢ email =
          λ e. absurd (ground (arith, not_own, (str_eq_iff a.email email).1 e)) in
        rw not_own (
          λ h. inr (other, (NoLock-iff rows).0 h),
          λ o. elim o [ inl (e, over) ↦ absurd (other e) | inr (_, h) ↦ (NoLock-iff rows).1 h ],
        )
  ]

  pub unlocked_iff :
      (rows : List Attempt)
      → (login_locked_until m email rows ≡ none) ↔ ((m.reads ≡ false) ⊎ NoLock m email rows)
  unfolding login_locked_until
  unlocked_iff rows = elim (Bool-cases m.reads) [
    | inr blind ↦ rw blind (λ h. inl refl, λ h. refl)
    | inl sees ↦ rw sees (
      λ h. inr ((NoLock-iff rows).0 h),
      λ o. elim o [ inl f ↦ absurd (ground (arith, f)) | inr h ↦ (NoLock-iff rows).1 h ],
    )
  ]

  delete_attempt-Without : (rows : List Attempt) → Without email rows (delete_attempt email rows)
  unfolding delete_attempt
  delete_attempt-Without [] = no_row
  delete_attempt-Without (a ∷ rows) = elim (Bool-cases (str_eq a.email email)) [
    | inl own ↦ rw own (dropped ((str_eq_iff a.email email).0 own) (delete_attempt-Without rows))
    | inr other ↦ rw other (
        kept (λ e. absurd (ground (arith, other, (str_eq_iff a.email email).1 e)))
          (delete_attempt-Without rows))
  ]

  -- No other rows are left.
  Without-delete_attempt :
      {rows left : List Attempt} → Without email rows left → left ≡ delete_attempt email rows
  unfolding delete_attempt
  Without-delete_attempt no_row = refl
  Without-delete_attempt (dropped {a} own w) =
      ground (arith, (str_eq_iff a.email email).1 own, Without-delete_attempt w)
  Without-delete_attempt (kept {a} other w) = elim (Bool-cases (str_eq a.email email)) [
    | inl own ↦ absurd (other ((str_eq_iff a.email email).0 own))
    | inr not_own ↦ ground (arith, not_own, Without-delete_attempt w)
  ]

  pub clear-IsCleared :
      (rows : List Attempt) → IsCleared m email rows (clear_login_attempts m email rows)
  unfolding clear_login_attempts
  clear-IsCleared rows = elim (Bool-cases m.writes) [
    | inl w ↦ rw w (inl (refl, delete_attempt-Without rows))
    | inr w ↦ rw w (inr (refl, refl))
  ]

  pub IsCleared-clear :
      (rows left : List Attempt)
      → IsCleared m email rows left
      → left ≡ clear_login_attempts m email rows
  unfolding clear_login_attempts
  IsCleared-clear rows left (inl (w, gone)) = rw w (Without-delete_attempt gone)
  IsCleared-clear rows left (inr (w, same)) = rw w same
