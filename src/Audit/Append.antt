-- ===== src/Audit/Append.antt =====
-- Record keeps an intact chain intact (audit.go).
use qeet_id.Base.{
  ℕ, suc, ◌≡◌, refl, sym, ◌∙◌, ap, inl, inr, ◌≢◌, ◌<◌, String, true, false, Option, none, some,
  List, [], ◌∷◌, ◌++◌, str_eq, trim_space, arith, Bool-cases, Option-cases, All, str_eq_iff,
  str_eq_refl, ==_iff,
}
use qeet_id.Audit.Chain.{
  Event, Row, Host, chain_seed, same_tenant, precedes, place, chain, trimmed, tip_of, completed,
  linked_row, record_event, intact, broken, normalise_metadata, reread, verify_rows, verify,
  or_braces, canonicalize, prev_hash_mismatch,
}

-- Every row of a list comes before a row that is later than all of them.
place-last :
    (r : Row) (xs : List Row)
    → All (λ (x : Row). precedes r x ≡ false) xs
    → place r xs ≡ xs ++ r ∷ []
unfolding place
place-last r [] a = refl
place-last r (x ∷ xs) (h, a) = ground (arith, h, place-last r xs a)

pub same_tenant_refl : (t : Option ℕ) → same_tenant t t ≡ true
same_tenant_refl none = refl
same_tenant_refl (some a) = ground (arith, (==_iff a a).1 refl)

verify_rows-append :
    (host : Host) (prev : String) (n : ℕ) (last : Option ℕ) (xs ys : List Row) (m : ℕ)
    (l : Option ℕ)
    → verify_rows host prev n last xs ≡ intact m l
    → verify_rows host prev n last (xs ++ ys) ≡ verify_rows host (tip_of prev xs) m l ys
unfolding verify_rows tip_of
verify_rows-append host prev n last [] ys m l h = ground arith
verify_rows-append host prev n last (r ∷ xs) ys m l h =
    elim (Bool-cases (str_eq (trimmed r.prev_hash) prev)) [
      | inr e ↦ absurd (ground (arith, h, e))
      | inl e ↦ elim (Option-cases (normalise_metadata host r.event.metadata)) [
        | inl q ↦ absurd (ground (arith, h, e, q))
        | inr (meta, q) ↦
            elim (Bool-cases
              (str_eq (host.hash_hex (host.marshal (reread host r meta))) (trimmed r.row_hash))) [
                | inr s ↦ absurd (ground (arith, h, e, q, s))
                | inl s ↦ ground (
                  arith,
                  e,
                  q,
                  s,
                  verify_rows-append host (trimmed r.row_hash) (suc n) (some r.id) xs ys m l
                      (ground (arith, h, e, q, s)),
                )
              ]
      ]
    ]

-- What the library does with the texts of an event: hex digits have no spaces around them, the
-- address comes back as it was written, and so does the metadata.
pub record IsStable (host : Host) (e : Event) : Type 0 where
  pub hex : (s : String) → trim_space (host.hash_hex s) ≡ host.hash_hex s
  pub ip : host.stored_ip e.ip ≡ e.ip
  pub metadata : normalise_metadata host (or_braces e.metadata) ≡ some (or_braces e.metadata)

tip_trimmed :
    (host : Host) (prev : String) (n : ℕ) (last : Option ℕ) (xs : List Row) (m : ℕ) (l : Option ℕ)
    → ((s : String) → trim_space (host.hash_hex s) ≡ host.hash_hex s)
    → verify_rows host prev n last xs ≡ intact m l
    → trim_space prev ≡ prev
    → trim_space (tip_of prev xs) ≡ tip_of prev xs
unfolding verify_rows tip_of
tip_trimmed host prev n last [] m l hex h t = t
tip_trimmed host prev n last (r ∷ xs) m l hex h t =
    elim (Bool-cases (str_eq (trimmed r.prev_hash) prev)) [
      | inr e ↦ absurd (ground (arith, h, e))
      | inl e ↦ elim (Option-cases (normalise_metadata host r.event.metadata)) [
        | inl q ↦ absurd (ground (arith, h, e, q))
        | inr (meta, q) ↦
            elim (Bool-cases
              (str_eq (host.hash_hex (host.marshal (reread host r meta))) (trimmed r.row_hash))) [
                | inr s ↦ absurd (ground (arith, h, e, q, s))
                | inl s ↦
                    let same =
                      (str_eq_iff (host.hash_hex (host.marshal (reread host r meta)))
                          (trimmed r.row_hash)).0
                        s in
                    tip_trimmed host (trimmed r.row_hash) (suc n) (some r.id) xs m l hex
                      (ground (arith, h, e, q, s))
                      (ap trim_space (sym same) ∙ (hex (host.marshal (reread host r meta)) ∙ same))
              ]
      ]
    ]

-- A row that `Record` builds passes the check against the hash that it was linked to.
linked_row_verifies :
    (host : Host) (e : Event) (id now : ℕ) (prev : String) (n : ℕ) (last : Option ℕ)
    → IsStable host e
    → trim_space prev ≡ prev
    → verify_rows host prev n last (linked_row host (completed e) id now prev ∷ [])
      ≡ intact (suc n) (some id)
unfolding verify_rows
linked_row_verifies host e id now prev n last st t =
    let text = host.marshal (canonicalize host (completed e) id now (or_braces e.metadata) prev) in
    rw (t, st.metadata, st.ip, str_eq_refl prev)
      (rw (t, st.hex text) (rw (str_eq_refl (host.hash_hex text)) refl))

seed_trimmed : trim_space chain_seed ≡ chain_seed
unfolding trim_space
seed_trimmed = refl

chain-record_event :
    (host : Host) (e : Event) (id now : ℕ) (rows : List Row)
    → let new = linked_row host (completed e) id now (tip_of chain_seed (chain e.tenant_id rows)) in
      All (λ (x : Row). precedes new x ≡ false) (chain e.tenant_id rows)
      → chain e.tenant_id (record_event host e id now rows) ≡ chain e.tenant_id rows ++ new ∷ []
unfolding chain record_event
chain-record_event host e id now rows later =
    let new = linked_row host (completed e) id now (tip_of chain_seed (chain e.tenant_id rows)) in
    ground (arith, same_tenant_refl e.tenant_id, place-last new (chain e.tenant_id rows) later)

-- Recording an event on an intact chain gives an intact chain that is one row longer and ends with
-- the new row, if no row of the chain comes after the new one by time and id, and if the database
-- and the JSON encoder give back the event's address and metadata as they were written.
pub record_event-verify :
    (host : Host) (e : Event) (id now n : ℕ) (last : Option ℕ) (rows : List Row)
    → verify host e.tenant_id rows ≡ intact n last
    → IsStable host e
    → let new = linked_row host (completed e) id now (tip_of chain_seed (chain e.tenant_id rows)) in
      All (λ (x : Row). precedes new x ≡ false) (chain e.tenant_id rows)
      → verify host e.tenant_id (record_event host e id now rows) ≡ intact (suc n) (some id)
unfolding verify
record_event-verify host e id now n last rows h st later =
    let c = chain e.tenant_id rows in
    let tip = tip_of chain_seed c in
    ap (verify_rows host chain_seed 0 none) (chain-record_event host e id now rows later)
    ∙ (verify_rows-append host chain_seed 0 none c (linked_row host (completed e) id now tip ∷ []) n
          last h
        ∙ linked_row_verifies host e id now tip n last st
            (tip_trimmed host chain_seed 0 none c n last st.hex h seed_trimmed))

-- Recording an event of one tenant changes nothing for the verification of another, or of the
-- platform's own chain.
pub record_event-isolated :
    (host : Host) (e : Event) (id now : ℕ) (rows : List Row) (t : Option ℕ)
    → same_tenant e.tenant_id t ≡ false
    → verify host t (record_event host e id now rows) ≡ verify host t rows
unfolding verify record_event chain
record_event-isolated host e id now rows t other = ground (arith, other)

-- A row that is recorded with a time before all those of a chain that is not empty, as by a server
-- whose clock is behind, breaks the chain: Verify reports the new row, unless the hash of the last
-- row is the seed.
pub record_event-early :
    (host : Host) (e : Event) (id now : ℕ) (rows xs : List Row) (x : Row)
    → chain e.tenant_id rows ≡ x ∷ xs
    → now < x.created_at
    → trim_space (tip_of chain_seed (chain e.tenant_id rows)) ≢ chain_seed
    → verify host e.tenant_id (record_event host e id now rows)
      ≡ broken 0 none id prev_hash_mismatch
unfolding verify record_event chain place verify_rows
record_event-early host e id now rows xs x c early tip =
    rw (same_tenant_refl e.tenant_id, c)
      (ground (
        arith,
        early,
        tip,
        c,
        str_eq_iff (trim_space (tip_of chain_seed (chain e.tenant_id rows))) chain_seed,
      ))
