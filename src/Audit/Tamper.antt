-- ===== src/Audit/Tamper.antt =====
-- What an intact chain proves about its rows (verifier.go).
use mathlib.Core.List.{Memᴰ}
use qeet_id.Base.{
  ℕ, suc, ◌≡◌, refl, sym, subst, ◌∙◌, ap, ◌⊎◌, inl, inr, ◌≢◌, String, true, Option, none, some,
  List, [], ◌∷◌, str_eq, arith, Bool-cases, Option-cases, str_eq_iff,
}
use qeet_id.Audit.Chain.{
  Row, Host, CanonicalRow, chain_seed, chain, trimmed, tip_of, intact, normalise_metadata, reread,
  verify_rows, verify,
}

-- The canonical rows of a chain, the last one first, that end in a hash.
abbrev pub Linked : Host → List CanonicalRow → String → Type 0
Linked host [] tip = tip ≡ chain_seed
Linked host (c ∷ cs) tip = (tip ≡ host.hash_hex (host.marshal c)) × Linked host cs c.prev_hash

-- Two texts with one hash, or a text whose hash is the seed.
pub data Break (host : Host) : Type 0 where
  collision : (a b : String) → a ≢ b → host.hash_hex a ≡ host.hash_hex b → Break host
  seed_preimage : (a : String) → host.hash_hex a ≡ chain_seed → Break host

abbrev pub or_empty : Option String → String
or_empty none = ""
or_empty (some m) = m

-- What a row says: its fields as they are read back.
abbrev pub contents : Host → Row → CanonicalRow
contents host r = reread host r (or_empty (normalise_metadata host r.event.metadata))

-- The contents of a list of rows, the last one first, before those of earlier rows.
unfoldable pub history : Host → List Row → List CanonicalRow → List CanonicalRow
history host [] cs = cs
history host (r ∷ rs) cs = history host rs (contents host r ∷ cs)

verify_rows-Linked :
    (host : Host) (prev : String) (n : ℕ) (last : Option ℕ) (xs : List Row) (m : ℕ) (l : Option ℕ)
    (cs : List CanonicalRow)
    → verify_rows host prev n last xs ≡ intact m l
    → Linked host cs prev
    → Linked host (history host xs cs) (tip_of prev xs)
unfolding verify_rows history tip_of
verify_rows-Linked host prev n last [] m l cs h linked = linked
verify_rows-Linked host prev n last (r ∷ xs) m l cs h linked =
    elim (Bool-cases (str_eq (trimmed r.prev_hash) prev)) [
      | inr e ↦ absurd (ground (arith, h, e))
      | inl e ↦ elim (Option-cases (normalise_metadata host r.event.metadata)) [
        | inl q ↦ absurd (ground (arith, h, e, q))
        | inr (meta, q) ↦
            elim (Bool-cases
              (str_eq (host.hash_hex (host.marshal (reread host r meta))) (trimmed r.row_hash))) [
                | inr s ↦ absurd (ground (arith, h, e, q, s))
                | inl s ↦
                    verify_rows-Linked host (trimmed r.row_hash) (suc n) (some r.id) xs m l
                      (contents host r ∷ cs) (ground (arith, h, e, q, s))
                      (
                        hashed meta q s,
                        subst (Linked host cs) (sym ((str_eq_iff (trimmed r.prev_hash) prev).0 e))
                            linked,
                      )
              ]
      ]
    ]
  where
    hashed :
        (meta : String)
        → normalise_metadata host r.event.metadata ≡ some meta
        → str_eq (host.hash_hex (host.marshal (reread host r meta))) (trimmed r.row_hash) ≡ true
        → trimmed r.row_hash ≡ host.hash_hex (host.marshal (contents host r))
    hashed meta q s =
        sym (
          (str_eq_iff (host.hash_hex (host.marshal (reread host r meta))) (trimmed r.row_hash)).0 s)
        ∙ ap (λ x. host.hash_hex (host.marshal (reread host r x))) (sym (ap or_empty q))

-- The JSON texts tell the rows of two lists apart.
abbrev pub ToldApart : Host → List CanonicalRow → List CanonicalRow → Type 0
ToldApart host cs ds =
    (c d : CanonicalRow) → Memᴰ c cs → Memᴰ d ds → host.marshal c ≡ host.marshal d → c ≡ d

module _ (host : Host) where
  -- One hash fixes the whole list of rows before it.
  same_history :
      (cs ds : List CanonicalRow) (tip : String)
      → ToldApart host cs ds
      → Linked host cs tip
      → Linked host ds tip
      → (cs ≡ ds) ⊎ Break host
  same_history [] [] tip one p q = inl refl
  same_history [] (d ∷ ds) tip one p (q, qs) = inr (seed_preimage (host.marshal d) (sym q ∙ p))
  same_history (c ∷ cs) [] tip one (p, ps) q = inr (seed_preimage (host.marshal c) (sym p ∙ q))
  same_history (c ∷ cs) (d ∷ ds) tip one (p, ps) (q, qs) =
      elim (Bool-cases (str_eq (host.marshal c) (host.marshal d))) [
        | inr n ↦ inr (
            collision (host.marshal c) (host.marshal d)
              (ground (arith, n, str_eq_iff (host.marshal c) (host.marshal d))) (sym p ∙ q))
        | inl s ↦
            let same =
              one c d (Memᴰ.head refl) (Memᴰ.head refl)
                ((str_eq_iff (host.marshal c) (host.marshal d)).0 s) in
            later c d cs ds same (
              same_history cs ds c.prev_hash (λ a b m n. one a b (Memᴰ.tail m) (Memᴰ.tail n)) ps
                (subst (λ (x : CanonicalRow). Linked host ds x.prev_hash) (sym same) qs))
      ]
    where
      later :
          (c d : CanonicalRow) (cs ds : List CanonicalRow)
          → c ≡ d
          → (cs ≡ ds) ⊎ Break host
          → ((c ∷ cs) ≡ (d ∷ ds)) ⊎ Break host
      later c d cs ds e (inl es) = inl (cc)
      later c d cs ds e (inr b) = inr b

  -- Two states of the table in which Verify finds a tenant's chain intact, and whose last hashes are
  -- the same, have the same rows in that chain, in the same order and with the same fields, unless a
  -- hash collision or a text that hashes to the seed is at hand, and if their JSON texts tell the
  -- rows of the two apart.
  pub verify-tamper :
      (t : Option ℕ) (rows rows' : List Row) (n n' : ℕ) (last last' : Option ℕ)
      → verify host t rows ≡ intact n last
      → verify host t rows' ≡ intact n' last'
      → tip_of chain_seed (chain t rows) ≡ tip_of chain_seed (chain t rows')
      → ToldApart host (history host (chain t rows) []) (history host (chain t rows') [])
      → (history host (chain t rows) [] ≡ history host (chain t rows') []) ⊎ Break host
  unfolding verify
  verify-tamper t rows rows' n n' last last' h h' same one =
      same_history _ _ (tip_of chain_seed (chain t rows)) one
        (verify_rows-Linked host chain_seed 0 none (chain t rows) n last [] h refl)
        (subst (Linked host (history host (chain t rows') [])) (sym same)
          (verify_rows-Linked host chain_seed 0 none (chain t rows') n' last' [] h' refl))
