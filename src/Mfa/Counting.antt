-- ===== src/Mfa/Counting.antt =====
-- Counting the rows that pass a test, where rows are deleted, marked or searched.
use qeet_id.Base.{
  ◌+◌, ◌≤◌, Bool, true, false, ◌&&◌, ◌||◌, none, some, List, [], ◌∷◌, ◌++◌, if◌then◌else◌, any,
  count, ◌≡◌, refl, arith, Bool-cases, inl, inr, Option-cases,
}
use qeet_id.Rbac.Roles.{delete_where}
use qeet_id.Device.Rows.{find}
use qeet_id.Mfa.Rows.{update_where, find_last}

module _ {A : Type 0} (test : A → Bool) where
  pub count-delete_where :
      (gone : A → Bool) (xs : List A) → count test (delete_where gone xs) ≤ count test xs
  unfolding count delete_where
  count-delete_where gone [] = omega arith
  count-delete_where gone (x ∷ xs) = ground (arith, count-delete_where gone xs)

  module _ (marks : A → Bool) (f : A → A) where
    -- Marking rows that pass no more leaves no more rows that pass.
    pub count-update_where :
        ((x : A) → test (f x) ≡ false)
        → (xs : List A) → count test (update_where marks f xs) ≤ count test xs
    unfolding count update_where
    count-update_where spent [] = omega arith
    count-update_where spent (x ∷ xs) = ground (arith, count-update_where spent xs, spent x)

    -- One row at least passes no more, if one that passed is marked.
    pub count-spent :
        ((x : A) → test (f x) ≡ false)
        → (xs : List A) → any (λ x. marks x && test x) xs ≡ true
        → 1 + count test (update_where marks f xs) ≤ count test xs
    unfolding count update_where
    count-spent spent [] h = absurd (ground (arith, h))
    count-spent spent (x ∷ xs) h = elim (Bool-cases (marks x && test x)) [
      | inl here ↦ ground (arith, here, count-update_where spent xs, spent x)
      | inr there ↦ ground (arith, there, h, count-spent spent xs, spent x)
    ]

  the_last :
      (p : A → Bool) (x : A) (xs : List A) (y : A)
      → (if test x then some x else none) ≡ some y
      → (test y ≡ true → p y ≡ true)
      → any p (x ∷ xs) ≡ true
  the_last p x xs y h good = elim (Bool-cases (test x)) [
    | inl t ↦ ground (arith, h, t, good)
    | inr t ↦ absurd (ground (arith, h, t))
  ]

  pub find_last-any :
      (p : A → Bool) (xs : List A) (y : A)
      → find_last test xs ≡ some y
      → (test y ≡ true → p y ≡ true)
      → any p xs ≡ true
  unfolding find_last
  find_last-any p [] y h good = absurd (ground (arith, h))
  find_last-any p (x ∷ xs) y h good = elim (Option-cases (find_last test xs)) [
    | inl n ↦ the_last p x xs y (rw n at h) good
    | inr (z, e) ↦ ground (arith, h, e, find_last-any p xs y, good)
  ]

module _ {A : Type 0} (test : A → Bool) where
  pub any-append : (xs ys : List A) → any test (xs ++ ys) ≡ (any test xs || any test ys)
  any-append [] ys = refl
  any-append (x ∷ xs) ys = ground (arith, any-append xs ys)

  -- Where an update makes no row pass that did not.
  pub count-update_le :
      (marks : A → Bool) (f : A → A)
      → ((x : A) → test (f x) ≡ true → test x ≡ true)
      → (xs : List A) → count test (update_where marks f xs) ≤ count test xs
  unfolding count update_where
  count-update_le marks f less [] = omega arith
  count-update_le marks f less (x ∷ xs) = ground (arith, count-update_le marks f less xs, less x)

  pub any-update :
      (marks : A → Bool) (f : A → A)
      → ((x : A) → test (f x) ≡ test x)
      → (xs : List A) → any test (update_where marks f xs) ≡ any test xs
  unfolding update_where
  any-update marks f same [] = refl
  any-update marks f same (x ∷ xs) = ground (arith, any-update marks f same xs, same x)

  pub count-none : (xs : List A) → any test xs ≡ false → count test xs ≡ 0
  unfolding count
  count-none [] h = refl
  count-none (x ∷ xs) h = ground (arith, h, count-none xs)

  pub count-weaken :
      (p : A → Bool)
      → ((x : A) → test x ≡ true → p x ≡ true)
      → (xs : List A) → count test xs ≤ count p xs
  unfolding count
  count-weaken p more [] = omega arith
  count-weaken p more (x ∷ xs) = ground (arith, count-weaken p more xs, more x)

  pub find-any :
      (p : A → Bool) (xs : List A) (y : A)
      → find test xs ≡ some y
      → (test y ≡ true → p y ≡ true)
      → any p xs ≡ true
  unfolding find
  find-any p [] y h good = absurd (ground (arith, h))
  find-any p (x ∷ xs) y h good = elim (Bool-cases (test x)) [
    | inl t ↦ ground (arith, h, t, good)
    | inr t ↦ ground (arith, h, t, find-any p xs y, good)
  ]
