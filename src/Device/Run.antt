-- ===== src/Device/Run.antt =====
-- Any sequence of the operations, in the order in which their transactions lock the row.
use mathlib.Core.List.{Memᴰ}
use qeet_id.Base.{
  ℕ, ◌≡◌, sym, ◌∙◌, ap, subst, ◌⊎◌, inl, inr, String, Bool, none, some, List, [], ◌∷◌, ◌++◌, ◌==◌,
  Bool-cases, arith,
}
use qeet_id.Device.Rows.{
  pending, Device, Env, Db, Clock, Client, by_hash, at_id, update, insert_device, find_client,
}
use qeet_id.Device.Moves.{
  Move, stays, KeepsKey, map_some, by_hash-update, IdsApart, mem-find, update-IdsApart, mem-append,
  mem-update, insert_device_lem, insert_device-IdsApart, by_hash-insert_device,
}
use qeet_id.Device.Flow.{Draws, device_authorize, decide_device, not_permitted}
use qeet_id.Device.Token.{Grant, Poll, granted, refused, device_token, revoke_device}

pub data Op : Type 0 where
  authorizes : Clock → Draws → String → List String → Op
  decides : Clock → ℕ → String → Bool → Op
  polls : Clock → String → String → Op
  revokes : ℕ → ℕ → Op

-- The grants, each with the hash of the device code that was polled with.
abbrev pub issued : Env → String → Poll → List (String × Grant)
issued env raw (refused e) = []
issued env raw (granted g) = (env.hash raw, g) ∷ []

unfoldable pub step : Env → Op → Db → List (String × Grant) × Db
unfolding device_authorize decide_device device_token revoke_device
step env (authorizes clock draws client scopes) db =
    ([], (device_authorize env clock draws client scopes db).1)
step env (decides clock user code approved) db =
    ([], (decide_device env clock user code approved db).1)
step env (polls clock client raw) db =
    let (p, db') = device_token env clock client raw db in (issued env raw p, db')
step env (revokes tenant id) db = ([], (revoke_device tenant id db).1)

unfoldable pub run : Env → List Op → Db → List (String × Grant) × Db
run env [] db = ([], db)
run env (op ∷ ops) db =
    let (out, db') = step env op db in let (outs, end) = run env ops db' in (out ++ outs, end)

-- A row as DeviceAuthorize makes it: for a client that may ask for its scopes.
pub record IsNew (env : Env) (d : Device) : Type 0 where
  pub undecided : d.status ≡ pending
  pub unbound : d.user ≡ none
  pub client : Client
  pub known : find_client d.client_id env ≡ some client
  pub tenant : d.tenant ≡ client.tenant
  pub permitted : not_permitted client.scopes d.scopes ≡ none

-- Each row of the one table, found by its hash, is in the other after one step of the state machine,
-- and the other has only such rows and new ones.
pub record Refines (env : Env) (ds es : List Device) : Type 0 where
  pub apart : IdsApart es
  pub moves :
      (h : String) (r : Device)
      → by_hash h ds ≡ some r
      → (r' : Device) × (by_hash h es ≡ some r') × Move env r r'
  pub origins : (x : Device) → Memᴰ x es → ((d : Device) × Memᴰ d ds × Move env d x) ⊎ IsNew env x

module _ (env : Env) where
  pub Refines-same : (ds : List Device) → IdsApart ds → Refines env ds ds
  Refines-same ds apart = record {
    apart = apart;
    moves = λ h r e. (r, e, stays r);
    origins = λ x m. inl (x, m, stays x);
  }

  pub Refines-insert :
      (d : Device) (ds es : List Device)
      → insert_device d ds ≡ some es
      → IsNew env d
      → IdsApart ds
      → Refines env ds es
  Refines-insert d ds es ins new apart = record {
    apart = insert_device-IdsApart d ds es ins apart;
    moves = λ h r e. (r, by_hash-insert_device h d ds es r ins e, stays r);
    origins = λ x m.
        origin x (mem-append ds d x (subst (Memᴰ x) (sym (insert_device_lem d ds es ins)) m));
  }
    where
      origin :
          (x : Device)
          → Memᴰ x ds ⊎ (x ≡ d)
          → ((d : Device) × Memᴰ d ds × Move env d x) ⊎ IsNew env x
      origin x (inl m) = inl (x, m, stays x)
      origin x (inr e) = inr (subst (IsNew env) (sym e) new)

  moved :
      (d : Device) (f : Device → Device) (ds : List Device)
      → Memᴰ d ds
      → Move env d (f d)
      → IdsApart ds
      → (r : Device) → Memᴰ r ds
      → Move env r (at_id d.id f r)
  moved d f ds m move apart r n = elim (Bool-cases (r.id == d.id)) [
    | inl same ↦
        let e : d ≡ r = apart d r m n (ground (arith, same)) in
        rw same (subst (λ x. Move env x (f x)) e move)
    | inr other ↦ rw other (stays r)
  ]

  pub Refines-update :
      (d : Device) (f : Device → Device) (ds : List Device)
      → KeepsKey f
      → Memᴰ d ds
      → Move env d (f d)
      → IdsApart ds
      → Refines env ds (update d.id f ds)
  Refines-update d f ds k m move apart = record {
    apart = update-IdsApart d.id f ds k apart;
    moves = λ h r e. (
      at_id d.id f r,
      by_hash-update h d.id f ds k ∙ ap (map_some (at_id d.id f)) e,
      moved d f ds m move apart r (mem-find _ ds r e).0,
    );
    origins = λ x n.
        let (c, mc, e) = mem-update d.id f ds x n in
        inl (c, mc, subst (Move env c) (sym e) (moved d f ds m move apart c mc));
  }
