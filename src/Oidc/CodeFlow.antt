-- ===== src/Oidc/CodeFlow.antt =====
-- A code that Authorize gives is exchanged for tokens (oidc.go, Authorize and ExchangeCode).
use qeet_id.Base.{
  ℕ, ◌+◌, ◌≤◌, ◌≡◌, ◌≢◌, refl, sym, ap, subst, ◌⊎◌, inl, inr, String, true, false, none, some, List,
  [], ◌∷◌, ◌++◌, str_eq, str_eq_iff, if◌then◌else◌, any, arith, Bool-cases,
}
use qeet_id.Errs.{Result, ok}
use qeet_id.Device.Rows.{Clock, find}
use qeet_id.Device.Flow.{contains}
use qeet_id.Oidc.Rows.{
  Code, Refresh, Env, Db, has_code_hash, is_code, find_code, insert_code, clashes, insert_refresh,
}
use qeet_id.Oidc.Codes.{
  Tokens, Draw, AuthRequest, CodeRequest, new_code, code_ttl, authorize, authenticate_client,
  code_fails, deref_str, redeem, code_tokens, exchange_code, new_refresh, non_empty,
}
use qeet_id.Oidc.Outcomes.{Authorized, authorize-Authorized}

-- The request that goes with the code of an authorization request.
abbrev pub answer_to : String → AuthRequest → String → String → String → CodeRequest
answer_to raw a secret verifier resource = record {
  client_id = a.client_id;
  client_secret = secret;
  code = raw;
  redirect_uri = a.redirect_uri;
  code_verifier = verifier;
  resource = resource;
}

-- The verifier that fits the challenge of an authorization request.
abbrev pub FitsChallenge : Env → String → AuthRequest → Type 0
FitsChallenge env verifier a =
    (a.challenge ≡ "")
    ⊎ ((a.challenge_method ≡ "S256") × (verifier ≢ "") × (env.hash verifier ≡ a.challenge))

find-last :
    (h client : String) (c : Code) (cs : List Code)
    → is_code h client c ≡ true
    → any (has_code_hash h) cs ≡ false
    → find_code h client (cs ++ c ∷ []) ≡ some c
unfolding find
find-last h client c [] is free = ground (arith, is)
find-last h client c (d ∷ cs) is free = ground (arith, free, find-last h client c cs is)

-- The code that is added is the one that is found.
find-insert_code :
    (client : String) (c : Code) (cs ds : List Code)
    → insert_code c cs ≡ some ds
    → c.client_id ≡ client
    → find_code c.code_hash client ds ≡ some c
unfolding insert_code
find-insert_code client c cs ds ins same_client =
    elim (Bool-cases (any (has_code_hash c.code_hash) cs)) [
      | inl clash ↦ absurd (ground (arith, clash))
      | inr free ↦
          let joined : cs ++ c ∷ [] ≡ ds = ground (arith, free) in
          subst (λ x. find_code c.code_hash client x ≡ some c) joined
            (find-last c.code_hash client c cs
              (ground (arith, str_eq_iff c.code_hash c.code_hash, str_eq_iff c.client_id client))
              free)
    ]

deref-non_empty : (s : String) → deref_str (non_empty s) ≡ s
deref-non_empty s = elim (Bool-cases (str_eq s "")) [
  | inl e ↦ rw e (sym ((str_eq_iff s "").0 e))
  | inr n ↦ rw n refl
]

module _ (env : Env) (clock later : Clock) (draw : Draw) (raw secret verifier resource : String)
    (user tenant : ℕ) (a : AuthRequest) where
  abbrev given : Code
  given = new_code env clock raw user tenant a

  abbrev asking : CodeRequest
  asking = answer_to raw a secret verifier resource

  given-passes :
      later.app ≤ clock.db + code_ttl
      → FitsChallenge env verifier a
      → code_fails env later asking given ≡ none
  given-passes in_time (inl no_challenge) =
      rw (deref-non_empty a.challenge, deref-non_empty a.challenge_method)
        (ground (arith, str_eq_iff a.redirect_uri a.redirect_uri, str_eq_iff a.challenge ""))
  given-passes in_time (inr (s256, given_verifier, fits)) =
      rw (deref-non_empty a.challenge, deref-non_empty a.challenge_method)
        (ground (
          arith,
          str_eq_iff a.redirect_uri a.redirect_uri,
          str_eq_iff a.challenge_method "S256",
          str_eq_iff verifier "",
          str_eq_iff (env.hash verifier) a.challenge,
        ))

  abbrev pub new_token : Refresh
  new_token = new_refresh env later draw a.client_id user tenant a.scopes resource

  abbrev expected : List String → Tokens
  expected grant_types =
      code_tokens asking given
        (if contains grant_types "refresh_token" then some draw.raw else none)

  redeem-expected :
      (grant_types : List String) (db : Db)
      → any (clashes new_token) db.refreshes ≡ false
      → (redeem env later draw asking grant_types db given).0 ≡ ok (expected grant_types)
  unfolding insert_refresh
  redeem-expected grant_types db free = elim (Bool-cases (contains grant_types "refresh_token")) [
    | inl is ↦ rw is (rw free)
    | inr other ↦ rw other
  ]

  exchange-given :
      (grant_types : List String) (db : Db)
      → authenticate_client env a.client_id secret ≡ ok grant_types
      → find_code (env.hash raw) a.client_id db.codes ≡ some given
      → code_fails env later asking given ≡ none
      → exchange_code env later draw asking db ≡ redeem env later draw asking grant_types db given
  unfolding exchange_code
  exchange-given grant_types db auth found passes = rw (auth, found, passes)

  authorize-given :
      (db db' : Db)
      → authorize env clock raw user a db ≡ (ok (raw, tenant), db')
      → find_code (env.hash raw) a.client_id db'.codes ≡ some given
  authorize-given db db' = go _ (authorize-Authorized env clock raw user a db)
    where
      go :
          (x : Result (String × ℕ) × Db)
          → Authorized env clock raw user a db x
          → x ≡ (ok (raw, tenant), db')
          → find_code (env.hash raw) a.client_id db'.codes ≡ some given
      go _ (Authorized.refused e) h = absurd (ground (arith, h))
      go _ (Authorized.authorizes info cs known uri scopes ins) h =
          let t : info.tenant ≡ tenant = ground (arith, h) in
          let rows : cs ≡ db'.codes = ap (λ (x : Result (String × ℕ) × Db). x.1.codes) h in
          subst (λ ds. find_code (env.hash raw) a.client_id ds ≡ some given) rows
            (find-insert_code a.client_id given db.codes cs
              (subst (λ n. insert_code (new_code env clock raw user n a) db.codes ≡ some cs) t ins)
              refl)

  -- A code that Authorize has given for a user is exchanged, if it is presented at once or within ten
  -- minutes by its client with the same redirect_uri, a fitting secret and a verifier that fits the
  -- challenge, and the new refresh token clashes with none: the tokens are for that user, for the
  -- tenant of the client and for all the scopes asked for, and an ID token has the nonce.
  pub authorize-exchange :
      (grant_types : List String) (db db' : Db)
      → authorize env clock raw user a db ≡ (ok (raw, tenant), db')
      → authenticate_client env a.client_id secret ≡ ok grant_types
      → later.app ≤ clock.db + code_ttl
      → FitsChallenge env verifier a
      → any (clashes new_token) db'.refreshes ≡ false
      → (t : Tokens) × ((exchange_code env later draw asking db').0 ≡ ok t)
        × (t.user ≡ user)
        × (t.tenant ≡ tenant)
        × (t.scopes ≡ a.scopes)
        × (t.id_token ≡ (if contains a.scopes "openid" then some a.nonce else none))
  authorize-exchange grant_types db db' authorized auth in_time fits free = (
    expected grant_types,
    rw
        (exchange-given grant_types db' auth (authorize-given db db' authorized)
          (given-passes in_time fits))
        (redeem-expected grant_types db' free),
    refl,
    refl,
    refl,
    ap (λ n. if contains a.scopes "openid" then some n else none) (deref-non_empty a.nonce),
  )
