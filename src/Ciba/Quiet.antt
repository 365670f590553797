-- ===== src/Ciba/Quiet.antt =====
-- What updates of the table of backchannel requests (ciba.go) keep: ids that are apart, and a user with no
-- approved request.
use qeet_id.Base.{
  ℕ, ◌==◌, Bool, true, false, ◌&&◌, some, List, [], ◌∷◌, ◌++◌, any, ◌≡◌, refl, ap, arith,
  Bool-cases, inl, inr, ◌∙◌,
}
use qeet_id.Device.Rows.{Status, pending, authorized, denied, find}
use qeet_id.Mfa.Rows.{update_where}
use qeet_id.Mfa.Counting.{any-update, any-append}
use qeet_id.Ciba.Requests.{Request, has_id}
use qeet_id.Ciba.Token.{update, approve}

-- The primary key: no two rows have one id.
abbrev pub IsApart : List Request → Type 0
IsApart [] = Unit
IsApart (r ∷ rs) = (any (has_id r.id) rs ≡ false) × IsApart rs

pub append-IsApart :
    (r : Request) (rs : List Request)
    → any (has_id r.id) rs ≡ false
    → IsApart rs
    → IsApart (rs ++ r ∷ [])
append-IsApart r [] new a = (refl, _)
append-IsApart r (x ∷ rs) new (alone, a) = (
  any-append (has_id x.id) rs (r ∷ []) ∙ ground (arith, alone, new),
  append-IsApart r rs (ground (arith, new)) a,
)

module _ (id : ℕ) (f : Request → Request) (keeps_id : (r : Request) → (f r).id ≡ r.id) where
  any-id : (k : ℕ) (rs : List Request) → any (has_id k) (update id f rs) ≡ any (has_id k) rs
  any-id k rs = any-update (has_id k) (has_id id) f (λ r. ap (λ n. n == k) (keeps_id r)) rs

  pub update-IsApart : (rs : List Request) → IsApart rs → IsApart (update id f rs)
  unfolding update_where
  update-IsApart [] a = _
  update-IsApart (r ∷ rs) (alone, a) = elim (Bool-cases (has_id id r)) [
    | inl here ↦ rw here (rw (keeps_id r) (any-id r.id rs ∙ alone), update-IsApart rs a)
    | inr there ↦ rw there (any-id r.id rs ∙ alone, update-IsApart rs a)
  ]

  update-none : (rs : List Request) → any (has_id id) rs ≡ false → update id f rs ≡ rs
  unfolding update_where
  update-none [] h = refl
  update-none (r ∷ rs) h = ground (arith, h, update-none rs)

abbrev pub is_authorized : Status → Bool
is_authorized pending = false
is_authorized authorized = true
is_authorized denied = false

module _ (u : ℕ) where
  -- A row of the user that is approved.
  abbrev pub is_approved : Request → Bool
  is_approved r = r.user == u && is_authorized r.status

  -- An update that approves no row.
  pub quiet :
      (id : ℕ) (f : Request → Request)
      → ((r : Request) → is_approved (f r) ≡ true → is_approved r ≡ true)
      → (rs : List Request) → any is_approved rs ≡ false
      → any is_approved (update id f rs) ≡ false
  unfolding update_where
  quiet id f less [] h = refl
  quiet id f less (r ∷ rs) h = ground (arith, h, quiet id f less rs, less r)

  -- An approval of another user's row.
  pub approve_other :
      (now id : ℕ) (rs : List Request) (r : Request)
      → find (has_id id) rs ≡ some r
      → (r.user == u) ≡ false
      → IsApart rs
      → any is_approved rs ≡ false
      → any is_approved (update id (approve now) rs) ≡ false
  unfolding update_where find
  approve_other now id [] r found other a h = refl
  approve_other now id (x ∷ rs) r found other (alone, a) h = elim (Bool-cases (has_id id x)) [
    | inr there ↦
        ground (
          arith,
          there,
          h,
          approve_other now id rs r (rw there at found) other a (ground (arith, h)),
        )
    | inl here ↦
        let rest : update id (approve now) rs ≡ rs =
          update-none id (approve now) (λ y. refl) rs (ground (arith, here, alone)) in
        let same : (x.user == u) ≡ false = ground (arith, found, here, other) in
        ground (arith, here, same, h, ap (any is_approved) rest)
  ]
