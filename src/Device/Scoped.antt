-- ===== src/Device/Scoped.antt =====
-- Whom the tokens of the device grant (device.go) are for, and for what, in any sequence of operations.
use mathlib.Core.List.{Memᴰ}
use mathlib.Core.List.Memᴰ
use qeet_id.Base.{
  ℕ, ◌≡◌, refl, ◌∙◌, subst, inl, inr, String, true, none, some, List, [], ◌∷◌, all, Bool-cases,
  arith, All, All-append,
}
use qeet_id.Device.Rows.{authorized, Device, Client, Env, Db, by_hash, user_in_tenant, find_client}
use qeet_id.Device.Moves.{Move, stays, touched, denies, approves, redeems, IdsApart, mem-find}
use qeet_id.Device.Flow.{not_permitted, contains}
use qeet_id.Device.Token.{Grant}
use qeet_id.Device.Run.{Op, step, run, Refines, IsNew}
use qeet_id.Device.Refine.{step-Refines}
use qeet_id.Device.Poll.{IsGrantOf}
use qeet_id.Device.Once.{step_granted}

-- A row in which only a user of the tenant can be bound, and only to scopes that the client may ask for.
pub record IsSound (env : Env) (d : Device) : Type 0 where
  pub client : Client
  pub known : find_client d.client_id env ≡ some client
  pub tenant : d.tenant ≡ client.tenant
  pub permitted : not_permitted client.scopes d.scopes ≡ none
  pub bound : (user : ℕ) → d.user ≡ some user → user_in_tenant user d.tenant env ≡ true

move-IsSound : (env : Env) (r r' : Device) → Move env r r' → IsSound env r → IsSound env r'
move-IsSound env r _ (stays _) s = s
move-IsSound env r _ (touched _ t) s = record {
  client = s.client;
  known = s.known;
  tenant = s.tenant;
  permitted = s.permitted;
  bound = s.bound;
}
move-IsSound env r _ (denies _) s = record {
  client = s.client;
  known = s.known;
  tenant = s.tenant;
  permitted = s.permitted;
  bound = s.bound;
}
move-IsSound env r _ (approves _ u t p w) s = record {
  client = s.client;
  known = s.known;
  tenant = s.tenant;
  permitted = s.permitted;
  bound = λ v e.
      let same : u ≡ v = ground arith in subst (λ x. user_in_tenant x r.tenant env ≡ true) same w;
}
move-IsSound env r _ (redeems _ t a u) s = record {
  client = s.client;
  known = s.known;
  tenant = s.tenant;
  permitted = s.permitted;
  bound = s.bound;
}

new-IsSound : (env : Env) (d : Device) → IsNew env d → IsSound env d
new-IsSound env d n = record {
  client = n.client;
  known = n.known;
  tenant = n.tenant;
  permitted = n.permitted;
  bound = λ u e. absurd (ground (arith, e, n.unbound));
}

abbrev pub AllSound : Env → List Device → Type 0
AllSound env ds = (x : Device) → Memᴰ x ds → IsSound env x

step-AllSound :
    (env : Env) (ds es : List Device) → Refines env ds es → AllSound env ds → AllSound env es
step-AllSound env ds es ref sound x m = elim (ref.origins x m) [
  | inl (d, n, move) ↦ move-IsSound env d x move (sound d n)
  | inr new ↦ new-IsSound env x new
]

pub not_permitted_lem :
    (allowed ss : List String) → not_permitted allowed ss ≡ none → all (contains allowed) ss ≡ true
unfolding not_permitted
not_permitted_lem allowed [] h = refl
not_permitted_lem allowed (s ∷ ss) h = elim (Bool-cases (contains allowed s)) [
  | inl c ↦ rw c (not_permitted_lem allowed ss (ground (arith, h, c)))
  | inr c ↦ absurd (ground (arith, h, c))
]

-- A grant to a user of the client's tenant, and for scopes among the client's.
pub record IsLegitimate (env : Env) (g : Grant) : Type 0 where
  pub client : Client
  pub known : find_client g.client_id env ≡ some client
  pub tenant : g.tenant ≡ client.tenant
  pub user : user_in_tenant g.user g.tenant env ≡ true
  pub scopes : all (contains client.scopes) g.scopes ≡ true

grant-IsLegitimate :
    (env : Env) (d : Device) (g : Grant) → IsGrantOf d g → IsSound env d → IsLegitimate env g
grant-IsLegitimate env d g is s = record {
  client = s.client;
  known = rw is.client_id s.known;
  tenant = is.tenant ∙ s.tenant;
  user = rw is.tenant (s.bound g.user is.user);
  scopes = rw is.scopes (not_permitted_lem s.client.scopes d.scopes s.permitted);
}

step-IsLegitimate :
    (env : Env) (op : Op) (db : Db)
    → AllSound env db.devices
    → All (λ (o : String × Grant). IsLegitimate env o.1) (step env op db).0
step-IsLegitimate env op db sound = go _ (step_granted env op db)
  where
    go :
        (os : List (String × Grant))
        → All
            (λ (o : String × Grant).
              (dc : Device) × (by_hash o.0 db.devices ≡ some dc)
              × (dc.consumed_at ≡ none)
              × (dc.status ≡ authorized)
              × IsGrantOf dc o.1)
            os
        → All (λ (o : String × Grant). IsLegitimate env o.1) os
    go [] a = _
    go (o ∷ os) ((dc, f, u, s, is), a) =
        (grant-IsLegitimate env dc o.1 is (sound dc (mem-find _ db.devices dc f).0), go os a)

run_sound :
    (env : Env) (ops : List Op) (db : Db)
    → IdsApart db.devices
    → AllSound env db.devices
    → All (λ (o : String × Grant). IsLegitimate env o.1) (run env ops db).0
unfolding run
run_sound env [] db apart sound = _
run_sound env (op ∷ ops) db apart sound =
    let ref = step-Refines env op db apart in
    All-append _ (step env op db).0 (run env ops (step env op db).1).0
      (step-IsLegitimate env op db sound)
      (run_sound env ops (step env op db).1 ref.apart (step-AllSound env _ _ ref sound))

-- Every grant of a run from an empty table, during which clients and users stay the same, is to a user
-- who belongs to the tenant of the client, and for scopes that this client is registered with.
pub run-IsLegitimate :
    (env : Env) (ops : List Op)
    → All
        (λ (o : String × Grant). IsLegitimate env o.1)
        (run env ops (record { devices = []; consents = [] })).0
run-IsLegitimate env ops =
    run_sound env ops _ (λ d e m n s. absurd (Memᴰ.not-nil m)) (λ x m. absurd (Memᴰ.not-nil m))
