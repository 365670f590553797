-- ===== src/Oidc/RefreshOnce.antt =====
-- A refresh token (oidc.go, RefreshToken) is redeemed at most once, and its replay ends the whole
-- chain.
use qeet_id.Base.{
  ℕ, ◌≤◌, ◌≡◌, refl, sym, ◌∙◌, subst, ◌⊎◌, inl, inr, String, Bool, true, false, ◌||◌, Option, none,
  some, List, [], ◌∷◌, ◌++◌, str_eq, str_eq_iff, ◌==◌, any, is_some, if◌then◌else◌, arith,
  Bool-cases, All, count, IsOnce, at_most_once, none_after,
}
use qeet_id.Errs.{Result, ok, err}
use qeet_id.Device.Rows.{Clock, find}
use qeet_id.Oidc.Rows.{
  Refresh, Env, Db, clashes, find_refresh, insert_refresh, update_where, revoke,
}
use qeet_id.Oidc.Codes.{Tokens, Draw, new_refresh, exchange_code}
use qeet_id.Oidc.Refreshing.{rotated, refreshed, bound_resource, refresh_token}
use qeet_id.Oidc.Outcomes.{Refreshed, refresh_token-Refreshed}
use qeet_id.Oidc.Changes.{
  Change, unchanged, inserts, spends, revokes, both, AllOf, OfGrant, step-Change,
}
use qeet_id.Oidc.Run.{
  Op, consents, authorizes, exchanges, refreshes, revokes_token, revokes_grant, grants, for_code,
  for_refresh, issue, step, is_for_refresh, run_ops,
}

-- A token that was used or revoked.
abbrev pub is_dead : Refresh → Bool
is_dead r = is_some r.used_at || is_some r.revoked_at

pub record IsDead (h : String) (rs : List Refresh) : Type 0 where
  pub row : Refresh
  pub found : find_refresh h rs ≡ some row
  pub dead : is_dead row ≡ true

-- A change of a row that keeps its token and does not bring it back to life.
pub record IsTame (f : Refresh → Refresh) : Type 0 where
  pub hash : (r : Refresh) → (f r).token_hash ≡ r.token_hash
  pub dies : (r : Refresh) → is_dead r ≡ true → is_dead (f r) ≡ true

pub find-update_where :
    (h : String) (test : Refresh → Bool) (f : Refresh → Refresh) (rs : List Refresh) (r : Refresh)
    → IsTame f
    → find_refresh h rs ≡ some r
    → find_refresh h (update_where test f rs) ≡ some (if test r then f r else r)
unfolding find update_where
find-update_where h test f [] r t e = absurd (ground arith)
find-update_where h test f (x ∷ xs) r t e =
    ground (arith, t.hash x, find-update_where h test f xs r t)

update_where-IsDead :
    (h : String) (test : Refresh → Bool) (f : Refresh → Refresh) (rs : List Refresh)
    → IsTame f
    → IsDead h rs
    → IsDead h (update_where test f rs)
update_where-IsDead h test f rs t d = record {
  row = if test d.row then f d.row else d.row;
  found = find-update_where h test f rs d.row t d.found;
  dead = ground (arith, t.dies d.row d.dead, d.dead);
}

find-append :
    (h : String) (rs ss : List Refresh) (r : Refresh)
    → find_refresh h rs ≡ some r
    → find_refresh h (rs ++ ss) ≡ some r
unfolding find
find-append h [] ss r e = absurd (ground arith)
find-append h (x ∷ xs) ss r e = ground (arith, find-append h xs ss r)

pub find-insert_refresh :
    (h : String) (n : Refresh) (rs ss : List Refresh) (r : Refresh)
    → insert_refresh n rs ≡ some ss
    → find_refresh h rs ≡ some r
    → find_refresh h ss ≡ some r
unfolding insert_refresh
find-insert_refresh h n rs ss r ins e = elim (Bool-cases (any (clashes n) rs)) [
  | inl clash ↦ absurd (ground (arith, clash))
  | inr free ↦
      let same : rs ++ n ∷ [] ≡ ss = ground (arith, free) in
      subst (λ x. find_refresh h x ≡ some r) same (find-append h rs (n ∷ []) r e)
]

spend-IsTame :
    (new now : ℕ)
    → IsTame (λ (r : Refresh). record r { used_at = some now; replaced_by = some new })
spend-IsTame new now = record { hash = λ r. refl; dies = λ r d. refl }

pub revoke-IsTame : (now : ℕ) → IsTame (revoke now)
revoke-IsTame now = record { hash = λ r. refl; dies = λ r d. ground arith }

pub Change-IsDead :
    (New : Refresh → Type 0) (h : String) (rs ss : List Refresh)
    → Change New rs ss
    → IsDead h rs
    → IsDead h ss
Change-IsDead New h rs _ (unchanged _) d = d
Change-IsDead New h rs ss (inserts n _ _ new ins) d = record {
  row = d.row;
  found = find-insert_refresh h n rs ss d.row ins d.found;
  dead = d.dead;
}
Change-IsDead New h rs _ (spends id new now _) d =
    update_where-IsDead h _ _ rs (spend-IsTame new now) d
Change-IsDead New h rs _ (revokes test now _) d =
    update_where-IsDead h test _ rs (revoke-IsTame now) d
Change-IsDead New h rs ss (both {ss = ts} a b) d =
    Change-IsDead New h ts ss b (Change-IsDead New h rs ts a d)

abbrev Anything : ℕ → ℕ → String → List String → Type 0
Anything user tenant client scopes = Unit {0}

all_unit {ℓ} : {X : Type ℓ} (xs : List X) → All (λ (x : X). Unit {0}) xs
all_unit [] = _
all_unit (x ∷ xs) = (tt, all_unit xs)

anything : (db : Db) → AllOf Anything db
anything db = record { codes = all_unit db.codes; refreshes = all_unit db.refreshes }

any_grant : (op : Op) → OfGrant Anything op
any_grant (consents user client scopes) = _
any_grant (authorizes clock raw user a) = _
any_grant (exchanges clock draw r) = _
any_grant (refreshes clock draw client secret raw resource) = _
any_grant (revokes_token clock client secret token hint) = _
any_grant (revokes_grant clock tenant id) = _
any_grant (grants clock draw user tenant client scopes) = _

module _ (env : Env) (h : String) where
  abbrev pub Closed : Db → Type 0
  Closed db = IsDead h db.refreshes

  abbrev issued : String → Result Tokens → ℕ
  issued raw t = count (is_for_refresh h) (issue (for_refresh (env.hash_refresh raw)) t)

  issued-other :
      (raw : String) (t : Result Tokens)
      → str_eq (env.hash_refresh raw) h ≡ false
      → issued raw t ≡ 0
  unfolding count
  issued-other raw (err e) other = refl
  issued-other raw (ok t) other = ground (arith, other)

  issued-le : (raw : String) (t : Result Tokens) → issued raw t ≤ 1
  unfolding count
  issued-le raw (err e) = omega arith
  issued-le raw (ok t) = ground arith

  found_alive :
      (raw : String) (db : Db) (r : Refresh)
      → Closed db
      → find_refresh (env.hash_refresh raw) db.refreshes ≡ some r
      → is_dead r ≡ false
      → str_eq (env.hash_refresh raw) h ≡ false
  found_alive raw db r d found alive = elim (Bool-cases (str_eq (env.hash_refresh raw) h)) [
    | inr other ↦ other
    | inl same ↦
        let e : env.hash_refresh raw ≡ h = (str_eq_iff (env.hash_refresh raw) h).0 same in
        let rows : some d.row ≡ some r =
          sym d.found ∙ subst (λ g. find_refresh g db.refreshes ≡ some r) e found in
        absurd (ground (arith, rows, d.dead, alive))
  ]

  module _ (clock : Clock) (draw : Draw) (client secret raw resource : String) (db : Db) where
    refresh-silent :
        Closed db → issued raw (refresh_token env clock draw client secret raw resource db).0 ≡ 0
    refresh-silent d = go _ (refresh_token-Refreshed env clock draw client secret raw resource db)
      where
        go :
            (x : Result Tokens × Db)
            → Refreshed env clock draw client secret raw resource db x
            → issued raw x.0 ≡ 0
        go _ (Refreshed.refused e) = unfold count in refl
        go _ (Refreshed.replayed r found own kept used) = unfold count in refl
        go _ (Refreshed.rotates r found own kept new early) =
            issued-other raw _ (found_alive raw db r d found (ground (arith, kept, new)))

    rotate-closes :
        (r : Refresh) (o : Option (List Refresh))
        → find_refresh h db.refreshes ≡ some r
        → insert_refresh
            (new_refresh env clock draw client r.user r.tenant r.scopes
              (bound_resource resource r.resource))
            db.refreshes
          ≡ o
        → let x = rotated clock draw client r (bound_resource resource r.resource) db o in
          (issued raw x.0 ≡ 0) ⊎ ((issued raw x.0 ≤ 1) × Closed x.1)
    rotate-closes r none found e = inl (unfold count in refl)
    rotate-closes r (some rs) found e = inr (
      issued-le raw (ok (refreshed draw client r (bound_resource resource r.resource))),
      record {
        row = record r { used_at = some clock.db; replaced_by = some draw.id };
        found =
            find-update_where h (λ (x : Refresh). x.id == r.id) _ rs r
              (spend-IsTame draw.id clock.db) (find-insert_refresh h _ db.refreshes rs r e found)
            ∙ ground arith;
        dead = refl;
      },
    )

    refresh-closes :
        let x = refresh_token env clock draw client secret raw resource db in
        (issued raw x.0 ≡ 0) ⊎ ((issued raw x.0 ≤ 1) × Closed x.1)
    refresh-closes = go _ (refresh_token-Refreshed env clock draw client secret raw resource db)
      where
        go :
            (x : Result Tokens × Db)
            → Refreshed env clock draw client secret raw resource db x
            → (issued raw x.0 ≡ 0) ⊎ ((issued raw x.0 ≤ 1) × Closed x.1)
        go _ (Refreshed.refused e) = inl (unfold count in refl)
        go _ (Refreshed.replayed r found own kept used) = inl (unfold count in refl)
        go _ (Refreshed.rotates r found own kept new early) =
            elim (Bool-cases (str_eq (env.hash_refresh raw) h)) [
              | inr other ↦ inl (issued-other raw _ other)
              | inl same ↦
                  rotate-closes r _
                    (subst (λ g. find_refresh g db.refreshes ≡ some r)
                      ((str_eq_iff (env.hash_refresh raw) h).0 same) found)
                    refl
            ]

  exchanged-silent :
      (g : String) (t : Result Tokens) → count (is_for_refresh h) (issue (for_code g) t) ≡ 0
  unfolding count
  exchanged-silent g (err e) = refl
  exchanged-silent g (ok t) = refl

  step-silent : (op : Op) (db : Db) → Closed db → count (is_for_refresh h) (step env op db).0 ≡ 0
  unfolding step count
  step-silent (consents user client scopes) db d = refl
  step-silent (authorizes clock raw user a) db d = refl
  step-silent (exchanges clock draw r) db d =
      exchanged-silent _ (exchange_code env clock draw r db).0
  step-silent (refreshes clock draw client secret raw resource) db d =
      refresh-silent clock draw client secret raw resource db d
  step-silent (revokes_token clock client secret token hint) db d = refl
  step-silent (revokes_grant clock tenant id) db d = refl
  step-silent (grants clock draw user tenant client scopes) db d = refl

  step-closes :
      (op : Op) (db : Db)
      → (count (is_for_refresh h) (step env op db).0 ≡ 0)
        ⊎ ((count (is_for_refresh h) (step env op db).0 ≤ 1) × Closed (step env op db).1)
  unfolding step count
  step-closes (consents user client scopes) db = inl refl
  step-closes (authorizes clock raw user a) db = inl refl
  step-closes (exchanges clock draw r) db =
      inl (exchanged-silent _ (exchange_code env clock draw r db).0)
  step-closes (refreshes clock draw client secret raw resource) db =
      refresh-closes clock draw client secret raw resource db
  step-closes (revokes_token clock client secret token hint) db = inl refl
  step-closes (revokes_grant clock tenant id) db = inl refl
  step-closes (grants clock draw user tenant client scopes) db = inl refl

  once : IsOnce (step env) (is_for_refresh h) Closed
  once = record {
    silent = step-silent;
    stays = λ op db d.
        Change-IsDead _ h _ _ (step-Change Anything env op db (any_grant op) (anything db)) d;
    closes = step-closes;
  }

  -- Over any sequence of consents, authorizations, exchanges, refreshes, revocations and refresh tokens
  -- of other grants, a refresh token is redeemed at most once.
  pub refresh_at_most_once :
      (ops : List Op) (db : Db) → count (is_for_refresh h) (run_ops env ops db).0 ≤ 1
  refresh_at_most_once = at_most_once (step env) (is_for_refresh h) Closed once

  pub dead_run :
      (ops : List Op) (db : Db) → Closed db → count (is_for_refresh h) (run_ops env ops db).0 ≡ 0
  dead_run = none_after (step env) (is_for_refresh h) Closed once
