-- ===== src/Audit/Chain.antt =====
-- The hash-chained audit log (audit.go, `Record`; verifier.go, `Verify`; the statements of
-- queries.sql). Ids are numbers and times are microseconds. The texts of ids and times are part of
-- `marshal`. The advisory lock makes the calls of `Record` for one tenant a sequence.
use qeet_id.Base.{
  ℕ, suc, String, Bool, true, false, ◌&&◌, ◌||◌, Option, none, some, List, [], ◌∷◌, str_eq, ◌==◌,
  ltb, if◌then◌else◌, trim_space, is_some,
}

pub record Event : Type 0 where
  pub tenant_id : Option ℕ
  pub actor_user_id : Option ℕ
  pub actor_type : String
  pub action : String
  pub resource_type : String
  pub resource_id : Option ℕ
  pub ip : String
  pub user_agent : String
  pub request_id : String
  -- what json.Marshal makes of the map
  pub metadata : String

pub record CanonicalRow : Type 0 where
  pub id : ℕ
  pub event : Event
  pub created_at : ℕ
  pub prev_hash : String

-- A row of audit.events; rows from before the migration have no hashes.
pub record Row : Type 0 where
  pub id : ℕ
  pub event : Event
  pub created_at : ℕ
  pub prev_hash : Option String
  pub row_hash : Option String

pub record Host : Type 0 where
  -- hex of SHA-256
  pub hash_hex : String → String
  -- json.Marshal of a canonicalRow
  pub marshal : CanonicalRow → String
  -- COALESCE(host(NULLIF(ip, '')::inet), '')
  pub stored_ip : String → String
  -- json.Unmarshal into a map of what JSONB gives back, then json.Marshal; `none` for a failure
  pub remarshal : String → Option String

-- Sixty-four zeros.
abbrev pub chain_seed : String
chain_seed = "0000000000000000000000000000000000000000000000000000000000000000"

abbrev pub canonicalize : Host → Event → ℕ → ℕ → String → String → CanonicalRow
canonicalize host e id created_at meta prev_hash = record {
  id = id;
  event = record e { metadata = meta };
  created_at = created_at;
  prev_hash = prev_hash;
}

abbrev pub same_tenant : Option ℕ → Option ℕ → Bool
same_tenant none none = true
same_tenant (some a) (some b) = a == b
same_tenant _ _ = false

-- WHERE tenant_id IS NOT DISTINCT FROM $1 AND row_hash IS NOT NULL
abbrev pub in_chain : Option ℕ → Row → Bool
in_chain t r = same_tenant r.event.tenant_id t && is_some r.row_hash

-- ORDER BY created_at, id
abbrev pub precedes : Row → Row → Bool
precedes a b = ltb a.created_at b.created_at || (a.created_at == b.created_at && ltb a.id b.id)

unfoldable pub place : Row → List Row → List Row
place r [] = r ∷ []
place r (x ∷ xs) = let rest = place r xs in if precedes r x then r ∷ x ∷ xs else x ∷ rest

-- ListAuditEventsForVerify
unfoldable pub chain : Option ℕ → List Row → List Row
unfolding place
chain t [] = []
chain t (r ∷ rs) = let rest = chain t rs in if in_chain t r then place r rest else rest

-- `if row.PrevHash != nil { … = strings.TrimSpace(*row.PrevHash) }`
abbrev pub trimmed : Option String → String
trimmed none = ""
trimmed (some h) = trim_space h

-- The hash of the last row: GetAuditChainTip, whose order is the reverse one.
unfoldable pub tip_of : String → List Row → String
tip_of h [] = h
tip_of h (r ∷ rs) = tip_of (trimmed r.row_hash) rs

abbrev pub or_user : String → String
or_user t = if str_eq t "" then "user" else t

abbrev pub or_braces : String → String
or_braces m = if str_eq m "" || str_eq m "null" then "{}" else m

abbrev pub completed : Event → Event
completed e = record e { actor_type = or_user e.actor_type; metadata = or_braces e.metadata }

abbrev pub linked_row : Host → Event → ℕ → ℕ → String → Row
linked_row host e id now prev = record {
  id = id;
  event = e;
  created_at = now;
  prev_hash = some prev;
  row_hash = some (host.hash_hex (host.marshal (canonicalize host e id now e.metadata prev)));
}

-- The table after the insertion of the row; `id` and `now` are what the call draws.
unfoldable pub record_event : Host → Event → ℕ → ℕ → List Row → List Row
unfolding chain tip_of
record_event host e id now rows =
    linked_row host (completed e) id now (tip_of chain_seed (chain e.tenant_id rows)) ∷ rows

pub data BrokenReason : Type 0 where
  prev_hash_mismatch row_hash_mismatch : BrokenReason

pub data VerifyResult : Type 0 where
  intact : ℕ → Option ℕ → VerifyResult
  broken : ℕ → Option ℕ → ℕ → BrokenReason → VerifyResult
  failed : VerifyResult

-- `normaliseMetadata`
abbrev pub normalise_metadata : Host → String → Option String
normalise_metadata host m = if str_eq m "" || str_eq m "null" then some "{}" else host.remarshal m

-- The canonical form of a row as it is read back.
abbrev pub reread : Host → Row → String → CanonicalRow
reread host r meta =
    canonicalize host (record r.event { ip = host.stored_ip r.event.ip }) r.id r.created_at meta
      (trimmed r.prev_hash)

unfoldable pub verify_rows : Host → String → ℕ → Option ℕ → List Row → VerifyResult
verify_rows host prev n last [] = intact n last
verify_rows host prev n last (r ∷ rs) =
    let rest = verify_rows host (trimmed r.row_hash) (suc n) (some r.id) rs in
    if str_eq (trimmed r.prev_hash) prev
    then elim (normalise_metadata host r.event.metadata) [
      | none ↦ failed
      | some meta ↦
          if str_eq (host.hash_hex (host.marshal (reread host r meta))) (trimmed r.row_hash)
          then rest
          else broken n last r.id row_hash_mismatch
    ]
    else broken n last r.id prev_hash_mismatch

unfoldable pub verify : Host → Option ℕ → List Row → VerifyResult
unfolding verify_rows chain
verify host t rows = verify_rows host chain_seed 0 none (chain t rows)
