-- ===== src/Saga/Concurrent/Safety.antt =====
-- The invariant of the stored transactions under every interleaving of the requests
-- (seata-server/src/saga.rs, seata-server/src/main.rs).
use seata.Saga.Concurrent.Awaited.{turn-await_tasks}
use seata.Base.{
  All-append, All-nth_or, All-put_nth, ◌≡◌, ◌≢◌, refl, sym, ◌∙◌, inl, inr, ℕ, Bool, false, Option,
  none, some, List, [], ◌∷◌, Text, Bytes, map, is_empty, text_eq→eq, ok, Result-cases, Bool-cases,
  Option-cases, All, if◌then◌else◌, bytes,
}
use seata.Domain.{ℤ, GlobalTxn, BranchStatus, is_prepared, succeed, failed}
use seata.Repo.{TxnRepo, RepoLaws}
use seata.Saga.World.{World, Env, SagaManager, Request, on_store}
use seata.Saga.Branch.{run_task}
use seata.Saga.Settle.Reference.{settled}
use seata.Saga.Manager.{has_branch, set_branch}
use seata.Saga.Evolution
use seata.Saga.Evolution.{◌⟶*◌, here, next}
use seata.Saga.Invariant.{
  IsWell, ⟶*-IsWell, new_txn-IsWell, AllWell, Op, op_start, op_submit, op_abort, op_add, op_succeed,
  op_fail,
}
use seata.Saga.Concurrent.{
  Program, finish, await_load, await_save, await_tasks, read_clock, make_uuid, stamped_then,
  started, concluding, submitting, aborting_found, adding, setting, program, turn, System, Event,
  arrives, takes_turn, dropped, nth, happen, play,
}

abbrev pub AllFound : Text → Option GlobalTxn → Type 0
AllFound gid none = Unit
AllFound gid (some tx) = IsWell gid tx

-- What a program saves is well-formed, if what it loads is.
unfoldable pub Safe : Env → Program → Type 0
Safe env finish = Unit
Safe env (await_load gid rest) =
    (found : Option GlobalTxn) → AllFound gid found → Safe env (rest found)
Safe env (await_save tx rest) = IsWell tx.gid tx × Safe env rest
Safe env (await_tasks tx rest) =
    (run : Request → Option Bool)
    → let branches = map (settled run tx (env.base64_encode tx.payload)) tx.branches in
      Safe env (rest (record tx { branches = branches }))
Safe env (read_clock rest) = (at : ℤ) → Safe env (rest at)
Safe env (make_uuid rest) = (gid : Text) → gid ≢ [] → Safe env (rest gid)

IsWell-own : {j : Text} {tx : GlobalTxn} → IsWell j tx → IsWell tx.gid tx
IsWell-own h = record {
  own_gid = refl;
  has_gid = h.has_gid;
  not_aborting = h.not_aborting;
  unique = h.unique;
}

module _ (env : Env) where
  stamped-Safe :
      (tx : GlobalTxn) (rest : GlobalTxn → Program) {j : Text}
      → ((at : ℤ) → IsWell j (record tx { updated_unix = at }))
      → ((at : ℤ) → Safe env (rest (record tx { updated_unix = at })))
      → Safe env (stamped_then tx rest)
  unfolding Safe stamped_then
  stamped-Safe tx rest well safe = λ at. (IsWell-own (well at), safe at)

  started-Safe :
      (mode : Text) (payload : Bytes) (gid : Text) → gid ≢ [] → Safe env (started mode payload gid)
  unfolding Safe started
  started-Safe mode payload gid has =
      λ at. (new_txn-IsWell gid (if is_empty mode then bytes "saga" else mode) payload at has, tt)

  concluding-Safe : {j : Text} (tx : GlobalTxn) → IsWell j tx → Safe env (concluding tx)
  unfolding Safe concluding
  concluding-Safe tx well =
      stamped-Safe _ _ (λ at. ⟶*-IsWell (next here (Evolution.conclude tx at)) well) (λ at. tt)

  submitting-Safe :
      (gid : Text) (found : Option GlobalTxn) → AllFound gid found → Safe env (submitting found)
  unfolding Safe submitting
  submitting-Safe gid none h = tt
  submitting-Safe gid (some tx) h =
      let begun = λ (at : ℤ). ⟶*-IsWell (next here (Evolution.begin tx at)) h in
      stamped-Safe _ _ begun (λ at run.
        let well = λ (at' : ℤ).
          ⟶*-IsWell (next here (Evolution.execute _ run (env.base64_encode tx.payload) at'))
            (begun at) in
        stamped-Safe _ concluding well (λ at'. concluding-Safe _ (well at')))

  aborting-Safe :
      (gid : Text) (found : Option GlobalTxn) → AllFound gid found → Safe env (aborting_found found)
  unfolding Safe aborting_found
  aborting-Safe gid none h = tt
  aborting-Safe gid (some tx) h =
      stamped-Safe _ _ (λ at. ⟶*-IsWell (next here (Evolution.abort tx at)) h) (λ at. tt)

  adding-Safe :
      (branch_id action gid : Text) (found : Option GlobalTxn)
      → AllFound gid found
      → Safe env (adding branch_id action found)
  unfolding Safe adding
  adding-Safe branch_id action gid none h = tt
  adding-Safe branch_id action gid (some tx) h = elim (Bool-cases (has_branch tx branch_id)) [
    | inl old ↦ rw old tt
    | inr new ↦ rw new (
        stamped-Safe _ _ (λ at. ⟶*-IsWell (next here (Evolution.add tx branch_id action at new)) h)
          (λ at. tt))
  ]

  setting-Safe :
      (branch_id : Text) (status : BranchStatus) (gid : Text) (found : Option GlobalTxn)
      → is_prepared status ≡ false
      → AllFound gid found
      → Safe env (setting branch_id status found)
  unfolding Safe setting
  setting-Safe branch_id status gid none p h = tt
  setting-Safe branch_id status gid (some tx) p h =
      elim (Option-cases (set_branch branch_id status tx.branches)) [
        | inl missing ↦ rw (setting, missing) tt
        | inr (bs, set) ↦
            rw (setting, set)
              (stamped-Safe _ _
                (λ at. ⟶*-IsWell (next here (Evolution.mark tx branch_id status bs at set p)) h)
                (λ at. tt))
      ]

  pub program-Safe : (o : Op) → Safe env (program o)
  unfolding program Safe
  program-Safe (op_start [] mode payload) = started-Safe mode payload
  program-Safe (op_start (c ∷ gid) mode payload) = started-Safe mode payload (c ∷ gid) (λ e. cc)
  program-Safe (op_submit gid) = submitting-Safe gid
  program-Safe (op_abort gid) = aborting-Safe gid
  program-Safe (op_add gid branch_id action) = adding-Safe branch_id action gid
  program-Safe (op_succeed gid branch_id) = λ found. setting-Safe branch_id succeed gid found refl
  program-Safe (op_fail gid branch_id) = λ found. setting-Safe branch_id failed gid found refl

abbrev AllSafe : Env → List Program → Type 0
AllSafe env ps = All (Safe env) ps

module _ {S : Type 0} (repo : TxnRepo S) (laws : RepoLaws repo) (env : Env) (m : SagaManager) where
  load-AllWell :
      (gid : Text) (w : World S)
      → AllWell repo laws w
      → AllWell repo laws (on_store (repo.load gid) w).1
  load-AllWell gid w h = record {
    at = λ j tx e. h.at j tx (sym (laws.load_keeps gid w.store j) ∙ e);
  }

  pub loaded-AllFound :
      (gid : Text) (w : World S) (found : Option GlobalTxn)
      → (repo.load gid w.store).0 ≡ ok found
      → AllWell repo laws w
      → AllFound gid found
  loaded-AllFound gid w none e h = tt
  loaded-AllFound gid w (some tx) e h = h.at gid tx (laws.load_ok gid w.store (some tx) e)

  save-AllWell :
      (tx : GlobalTxn) (w : World S)
      → IsWell tx.gid tx
      → AllWell repo laws w
      → AllWell repo laws (on_store (repo.save tx) w).1
  save-AllWell tx w well h = record {
    at = λ j t e. elim (laws.save_either tx w.store j) [
      | inl same ↦ h.at j t (sym same ∙ e)
      | inr (own, saved) ↦ let is_t : tx ≡ t = cc in rw (← text_eq→eq tx.gid j own, ← is_t) well
    ];
  }

  pub turn-Safe :
      (p : Program) (w : World S)
      → ((n : ℕ) → env.uuid n ≢ [])
      → Safe env p
      → AllWell repo laws w
      → AllWell repo laws (turn repo env m p w).1 × Safe env (turn repo env m p w).0
  unfolding Safe turn
  turn-Safe finish w fresh safe h = (h, tt)
  turn-Safe (await_load gid rest) w fresh safe h = (
    load-AllWell gid w h,
    elim (Result-cases (repo.load gid w.store).0) [
      | inl (found, e) ↦ rw e (safe found (loaded-AllFound gid w found e h))
      | inr (x, e) ↦ rw e tt
    ],
  )
  turn-Safe (await_save tx rest) w fresh safe h = (
    save-AllWell tx w safe.0 h,
    elim (Result-cases (repo.save tx w.store).0) [
      | inl (u, e) ↦ rw e safe.1
      | inr (x, e) ↦ rw e tt
    ],
  )
  turn-Safe (await_tasks tx rest) w fresh safe h = (
    rw (turn-await_tasks repo env m tx rest w) (record { at = h.at }),
    rw (turn-await_tasks repo env m tx rest w) (safe (run_task m.exec env w.readings)),
  )
  turn-Safe (read_clock rest) w fresh safe h = (record { at = h.at }, safe (env.clock w.readings))
  turn-Safe (make_uuid rest) w fresh safe h =
      (record { at = h.at }, safe (env.uuid w.uuids) (fresh w.uuids))

  -- What every interleaving preserves.
  abbrev pub SafeSystem : System S → Type 0
  SafeSystem s = AllWell repo laws s.world × AllSafe env s.requests

  pub happen-Safe :
      (e : Event) (s : System S)
      → ((n : ℕ) → env.uuid n ≢ [])
      → SafeSystem s
      → SafeSystem (happen repo env m e s)
  unfolding happen
  happen-Safe (arrives o) s fresh h =
      (h.0, All-append _ s.requests (program o ∷ []) h.1 (program-Safe env o, tt))
  happen-Safe (takes_turn i) s fresh h =
      let p = nth i s.requests in
      let (well, safe) =
        turn-Safe p s.world fresh
          (All-nth_or (Safe env) finish i s.requests (unfold Safe in tt) h.1) h.0 in
      (well, All-put_nth (Safe env) i _ s.requests safe h.1)
  happen-Safe (dropped i) s fresh h =
      (h.0, All-put_nth (Safe env) i finish s.requests (unfold Safe in tt) h.1)

  pub play-Safe :
      (es : List Event) (s : System S)
      → ((n : ℕ) → env.uuid n ≢ [])
      → SafeSystem s
      → SafeSystem (play repo env m es s)
  unfolding play
  play-Safe [] s fresh h = h
  play-Safe (e ∷ es) s fresh h =
      play-Safe es (happen repo env m e s) fresh (happen-Safe e s fresh h)

  -- Over a lawful repository that holds well-formed transactions only, and with UUIDs that are not
  -- empty, whatever requests arrive at an idle server, and however their turns interleave, fail at
  -- the repository or are dropped: every stored transaction stands under its own, non-empty gid, is
  -- not in the status Aborting, and has branches with different ids.
  play-AllWell :
      (es : List Event) (w : World S)
      → ((n : ℕ) → env.uuid n ≢ [])
      → AllWell repo laws w
      → AllWell repo laws (play repo env m es (record { world = w; requests = [] })).world
  play-AllWell es w fresh h = (play-Safe es (record { world = w; requests = [] }) fresh (h, tt)).0
