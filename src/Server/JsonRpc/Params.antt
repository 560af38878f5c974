-- ===== src/Server/JsonRpc/Params.antt =====
-- What the parameters of a JSON-RPC call are read as (`JsonRpcParams` of seata-server/src/main.rs).
use seata.Base.{
  ◌≡◌, sym, ◌∙◌, Option, none, some, [], Text, bytes, text_eq, Result-cases, inl, inr, Option-cases,
  ◌⊎◌,
}
use seata.Repo.{TxnRepo, RepoLaws}
use seata.Saga.World.{World, Env, SagaManager}
use seata.Saga.Manager.{submit, submit_found, abort, abort_found}
use seata.Saga.Steps.{view, load_lem, view-load}
use seata.Saga.Invariant.{AllWell}
use seata.Server.JsonRpc.{JsonRpcParams, start_params, JsonRpcReq, jsonrpc_dispatch}

-- serde's `untagged` reading of the type: the variants are tried in order, and a field of an
-- `Option` type may be missing. So an object that holds a gid only is read as the first variant.
pub record UntaggedDecoder : Type 1 where
  pub Json : Type 0
  pub decode : Json → Option JsonRpcParams
  pub gid_object : Text → Json
  pub first_variant : (g : Text) → decode (gid_object g) ≡ some (start_params (some g) none none)

-- The call of a method with the parameters `{"gid": g}`.
abbrev pub gid_call : UntaggedDecoder → Text → Text → Text → JsonRpcReq Text
gid_call d method g id = record {
  jsonrpc = bytes "2.0";
  method = method;
  params = d.decode (d.gid_object g);
  id = id;
}

module _ {S : Type 0} (repo : TxnRepo S) (laws : RepoLaws repo) (env : Env) (m : SagaManager) where
  nothing_at_empty : (w : World S) → AllWell repo laws w → view repo laws w [] ≡ none
  nothing_at_empty w h = elim (Option-cases (view repo laws w [])) [
    | inl e ↦ e
    | inr (tx, e) ↦ absurd ((h.at [] tx e).has_gid (h.at [] tx e).own_gid)
  ]

  submit_empty :
      (w : World S)
      → AllWell repo laws w
      → (j : Text) → view repo laws (submit repo env m [] w).1 j ≡ view repo laws w j
  unfolding submit submit_found
  submit_empty w h j = elim (Result-cases (repo.load [] w.store).0) [
    | inl (found, e) ↦
        let nothing : found ≡ none = sym (load_lem repo laws [] w found e) ∙ nothing_at_empty w h in
        let same = view-load repo laws [] w j in rw (e, nothing) same
    | inr (x, e) ↦ rw e (view-load repo laws [] w j)
  ]

  abort_empty :
      (w : World S)
      → AllWell repo laws w
      → (j : Text) → view repo laws (abort repo env [] w).1 j ≡ view repo laws w j
  unfolding abort abort_found
  abort_empty w h j = elim (Result-cases (repo.load [] w.store).0) [
    | inl (found, e) ↦
        let nothing : found ≡ none = sym (load_lem repo laws [] w found e) ∙ nothing_at_empty w h in
        let same = view-load repo laws [] w j in rw (e, nothing) same
    | inr (x, e) ↦ rw e (view-load repo laws [] w j)
  ]

  -- Over a lawful repository with well-formed transactions only, and where serde tries the
  -- variants of an untagged enum in order, a JSON-RPC call of `submit` or `abort` with the
  -- parameters `{"gid": g}` leaves every stored transaction as it is, also the one named `g`: the
  -- object is read as the parameters of `start`, and the gid is taken to be empty.
  pub gid_object_ignored :
      (d : UntaggedDecoder) (method g id : Text) (w : World S)
      → (method ≡ bytes "submit") ⊎ (method ≡ bytes "abort")
      → AllWell repo laws w
      → (j : Text)
      → view repo laws (jsonrpc_dispatch repo env m (gid_call d method g id) w).1 j
        ≡ view repo laws w j
  unfolding jsonrpc_dispatch text_eq
  gid_object_ignored d method g id w (inl e) h j = rw (e, d.first_variant g) (submit_empty w h j)
  gid_object_ignored d method g id w (inr e) h j = rw (e, d.first_variant g) (abort_empty w h j)
