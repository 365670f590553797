-- ===== src/Mfa/Found.antt =====
-- What a search of a table finds after its rows are updated, or a row is added.
use qeet_id.Base.{
  Bool, true, false, some, List, [], ◌∷◌, ◌++◌, any, ◌≡◌, refl, arith, Bool-cases, inl, inr,
  Option-cases,
}
use qeet_id.Device.Rows.{find}
use qeet_id.Mfa.Rows.{update_where, upsert, find_last}

module _ {A : Type 0} (test : A → Bool) where
  find-append :
      (xs : List A) (x : A)
      → any test xs ≡ false
      → test x ≡ true
      → find test (xs ++ x ∷ []) ≡ some x
  unfolding find
  find-append [] x h t = ground (arith, t)
  find-append (y ∷ xs) x h t = ground (arith, h, find-append xs x, t)

  find-update :
      (f : A → A) (xs : List A)
      → ((x : A) → test x ≡ true → test (f x) ≡ true)
      → any test xs ≡ true
      → (y : A) × (find test (update_where test f xs) ≡ some (f y)) × (test y ≡ true)
  unfolding find update_where
  find-update f [] keeps h = absurd (ground (arith, h))
  find-update f (x ∷ xs) keeps h = elim (Bool-cases (test x)) [
    | inl t ↦ (x, ground (arith, t, keeps x t), t)
    | inr t ↦
        let (y, e, u) = find-update f xs keeps (ground (arith, h, t)) in
        (y, ground (arith, t, e), u)
  ]

  found-any : (xs : List A) (x : A) → find test xs ≡ some x → any test xs ≡ true
  unfolding find
  found-any [] x e = absurd (ground (arith, e))
  found-any (y ∷ xs) x e = elim (Bool-cases (test y)) [
    | inl t ↦ ground (arith, t)
    | inr t ↦ ground (arith, t, e, found-any xs x)
  ]

  -- The row that is found after an upsert has what the new row and every updated row have.
  pub find-upsert :
      (P : A → Type 0) (f : A → A) (x : A) (xs : List A)
      → ((y : A) → test y ≡ true → (test (f y) ≡ true) × P (f y))
      → test x ≡ true
      → P x
      → (y : A) × (find test (upsert test f x xs) ≡ some y) × P y
  find-upsert P f x xs keeps t p = elim (Bool-cases (any test xs)) [
    | inl old ↦
        let (y, e, u) = find-update f xs (λ z h. (keeps z h).0) old in
        (f y, rw old e, (keeps y u).1)
    | inr new ↦ (x, rw new (find-append xs x new t), p)
  ]

  pub find-updated :
      (P : A → Type 0) (f : A → A) (xs : List A) (x : A)
      → ((y : A) → test y ≡ true → (test (f y) ≡ true) × P (f y))
      → find test xs ≡ some x
      → (y : A) × (find test (update_where test f xs) ≡ some y) × P y
  find-updated P f xs x keeps e =
      let (y, g, u) = find-update f xs (λ z h. (keeps z h).0) (found-any xs x e) in
      (f y, g, (keeps y u).1)

  -- Rows that pass neither before nor after are not found either way.
  find-update_other :
      (marks : A → Bool) (f : A → A)
      → ((x : A) → marks x ≡ true → (test x ≡ false) × (test (f x) ≡ false))
      → (xs : List A) → find test (update_where marks f xs) ≡ find test xs
  unfolding find update_where
  find-update_other marks f apart [] = refl
  find-update_other marks f apart (x ∷ xs) = elim (Bool-cases (marks x)) [
    | inl m ↦ ground (arith, m, apart x m, find-update_other marks f apart xs)
    | inr m ↦ ground (arith, m, find-update_other marks f apart xs)
  ]

  find-append_other :
      (xs : List A) (x : A) → test x ≡ false → find test (xs ++ x ∷ []) ≡ find test xs
  unfolding find
  find-append_other [] x h = ground (arith, h)
  find-append_other (y ∷ xs) x h = ground (arith, h, find-append_other xs x h)

  pub find-upsert_other :
      (marks : A → Bool) (f : A → A) (x : A)
      → ((y : A) → marks y ≡ true → (test y ≡ false) × (test (f y) ≡ false))
      → test x ≡ false
      → (xs : List A) → find test (upsert marks f x xs) ≡ find test xs
  find-upsert_other marks f x apart h xs = elim (Bool-cases (any marks xs)) [
    | inl old ↦ rw old (find-update_other marks f apart xs)
    | inr new ↦ rw new (find-append_other xs x h)
  ]

  pub find_last-some : (xs : List A) → any test xs ≡ true → (y : A) × (find_last test xs ≡ some y)
  unfolding find_last
  find_last-some [] h = absurd (ground (arith, h))
  find_last-some (x ∷ xs) h = elim (Option-cases (find_last test xs)) [
    | inr (y, e) ↦ (y, rw e refl)
    | inl n ↦ elim (Bool-cases (any test xs)) [
      | inl a ↦ let (y, e) = find_last-some xs a in (y, rw e refl)
      | inr a ↦ (x, rw n (ground (arith, h, a)))
    ]
  ]
