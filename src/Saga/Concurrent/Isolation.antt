-- ===== src/Saga/Concurrent/Isolation.antt =====
-- Requests on other transactions, however they interleave, leave a transaction alone
-- (seata-server/src/saga.rs).
use seata.Saga.Concurrent.Awaited.{turn-await_tasks}
use seata.Base.{
  All-nth_or, All-put_nth, ℕ, ◌≡◌, ◌≢◌, refl, ◌∙◌, inl, inr, Bool, true, false, not, ◌&&◌, Option,
  none, some, List, [], ◌∷◌, Text, text_eq, Result, ok, err, Bool-cases, Option-cases, All,
  All-append, arith,
}
use seata.Domain.{ℤ, GlobalTxn, BranchStatus, succeed, failed}
use seata.Repo.{TxnRepo, RepoLaws}
use seata.Saga.World.{World, Env, SagaManager}
use seata.Saga.Manager.{has_branch, set_branch}
use seata.Saga.Steps.{view}
use seata.Saga.Invariant.{
  IsWell, AllWell, Op, op_start, op_submit, op_abort, op_add, op_succeed, op_fail,
}
use seata.Saga.Concurrent.{
  Program, finish, await_load, await_save, await_tasks, read_clock, make_uuid, stamped_then,
  started, concluding, submitting, aborting_found, adding, setting, program, on_ok, turn, System,
  Event, arrives, takes_turn, dropped, nth, happen, play,
}
use seata.Saga.Concurrent.Safety.{AllFound, loaded-AllFound, SafeSystem, happen-Safe}

-- The gid that a request names.
abbrev pub op_gid : Op → Text
op_gid (op_start gid mode payload) = gid
op_gid (op_submit gid) = gid
op_gid (op_abort gid) = gid
op_gid (op_add gid branch_id action) = gid
op_gid (op_succeed gid branch_id) = gid
op_gid (op_fail gid branch_id) = gid

-- No request that arrives names `g`.
abbrev pub spares : Text → List Event → Bool
spares g [] = true
spares g (arrives o ∷ es) = not (text_eq (op_gid o) g) && spares g es
spares g (takes_turn i ∷ es) = spares g es
spares g (dropped i ∷ es) = spares g es

-- What a program saves is not under `g`, if what it loads stands under its own gid.
unfoldable pub Avoids : Text → Program → Type 0
Avoids g finish = Unit
Avoids g (await_load gid rest) =
    (found : Option GlobalTxn) → AllFound gid found → Avoids g (rest found)
Avoids g (await_save tx rest) = (text_eq tx.gid g ≡ false) × Avoids g rest
Avoids g (await_tasks tx rest) =
    (executed : GlobalTxn) → executed.gid ≡ tx.gid → Avoids g (rest executed)
Avoids g (read_clock rest) = (at : ℤ) → Avoids g (rest at)
Avoids g (make_uuid rest) = (gid : Text) → text_eq gid g ≡ false → Avoids g (rest gid)

module _ (g : Text) where
  found_other :
      (gid : Text) (tx : GlobalTxn)
      → text_eq gid g ≡ false
      → IsWell gid tx
      → text_eq tx.gid g ≡ false
  found_other gid tx other well = rw well.own_gid other

  submitting-Avoids :
      (gid : Text) (found : Option GlobalTxn)
      → text_eq gid g ≡ false
      → AllFound gid found
      → Avoids g (submitting found)
  unfolding Avoids submitting stamped_then concluding
  submitting-Avoids gid none other h = tt
  submitting-Avoids gid (some tx) other h =
      let is_other = found_other gid tx other h in
      λ at. (
        is_other,
        λ executed same at'.
            let it : text_eq executed.gid g ≡ false = rw same is_other in (it, λ at''. (it, tt)),
      )

  aborting-Avoids :
      (gid : Text) (found : Option GlobalTxn)
      → text_eq gid g ≡ false
      → AllFound gid found
      → Avoids g (aborting_found found)
  unfolding Avoids aborting_found stamped_then
  aborting-Avoids gid none other h = tt
  aborting-Avoids gid (some tx) other h = λ at. (found_other gid tx other h, tt)

  adding-Avoids :
      (branch_id action gid : Text) (found : Option GlobalTxn)
      → text_eq gid g ≡ false
      → AllFound gid found
      → Avoids g (adding branch_id action found)
  unfolding Avoids adding stamped_then
  adding-Avoids branch_id action gid none other h = tt
  adding-Avoids branch_id action gid (some tx) other h =
      elim (Bool-cases (has_branch tx branch_id)) [
        | inl old ↦ rw old tt
        | inr new ↦ rw new (λ at. (found_other gid tx other h, tt))
      ]

  setting-Avoids :
      (branch_id : Text) (status : BranchStatus) (gid : Text) (found : Option GlobalTxn)
      → text_eq gid g ≡ false
      → AllFound gid found
      → Avoids g (setting branch_id status found)
  unfolding Avoids setting stamped_then
  setting-Avoids branch_id status gid none other h = tt
  setting-Avoids branch_id status gid (some tx) other h =
      elim (Option-cases (set_branch branch_id status tx.branches)) [
        | inl missing ↦ rw (setting, missing) tt
        | inr (bs, set) ↦ rw (setting, set) (λ at. (found_other gid tx other h, tt))
      ]

  pub program-Avoids : (o : Op) → text_eq (op_gid o) g ≡ false → Avoids g (program o)
  unfolding Avoids program started
  program-Avoids (op_start [] mode payload) other = λ gid it at. (it, tt)
  program-Avoids (op_start (c ∷ gid) mode payload) other = λ at. (other, tt)
  program-Avoids (op_submit gid) other = λ found. submitting-Avoids gid found other
  program-Avoids (op_abort gid) other = λ found. aborting-Avoids gid found other
  program-Avoids (op_add gid branch_id action) other =
      λ found. adding-Avoids branch_id action gid found other
  program-Avoids (op_succeed gid branch_id) other =
      λ found. setting-Avoids branch_id succeed gid found other
  program-Avoids (op_fail gid branch_id) other =
      λ found. setting-Avoids branch_id failed gid found other

abbrev pub AllAvoid : Text → List Program → Type 0
AllAvoid g ps = All (Avoids g) ps

module _ {S : Type 0} (repo : TxnRepo S) (laws : RepoLaws repo) (env : Env) (m : SagaManager)
    (g : Text) (no_uuid : (n : ℕ) → text_eq (env.uuid n) g ≡ false) where
  on_ok-Avoids :
      {A : Type 0} (r : Result A) (rest : A → Program)
      → ((a : A) → r ≡ ok a → Avoids g (rest a))
      → Avoids g (on_ok r rest)
  on_ok-Avoids (ok a) rest h = h a refl
  on_ok-Avoids (err e) rest h = unfold Avoids in tt

  pub turn-Avoids :
      (p : Program) (w : World S)
      → Avoids g p
      → AllWell repo laws w
      → Avoids g (turn repo env m p w).0
        × (view repo laws (turn repo env m p w).1 g ≡ view repo laws w g)
  unfolding Avoids turn
  turn-Avoids finish w it h = (tt, refl)
  turn-Avoids (await_load gid rest) w it h = (
    on_ok-Avoids (repo.load gid w.store).0 rest
        (λ found e. it found (loaded-AllFound repo laws env m gid w found e h)),
    laws.load_keeps gid w.store g,
  )
  turn-Avoids (await_save tx rest) w it h = (
    on_ok-Avoids (repo.save tx w.store).0 (λ _. rest) (λ _ _. it.1),
    elim (laws.save_either tx w.store g) [
      | inl same ↦ same
      | inr (own, _) ↦ absurd (ground (arith, it.0, own))
    ],
  )
  turn-Avoids (await_tasks tx rest) w it h =
      rw (turn-await_tasks repo env m tx rest w) (it _ refl, refl)
  turn-Avoids (read_clock rest) w it h = (it (env.clock w.readings), refl)
  turn-Avoids (make_uuid rest) w it h = (it (env.uuid w.uuids) (no_uuid w.uuids), refl)

  pub play-spares :
      (es : List Event) (s : System S)
      → ((n : ℕ) → env.uuid n ≢ [])
      → SafeSystem repo laws env m s
      → AllAvoid g s.requests
      → spares g es ≡ true
      → view repo laws (play repo env m es s).world g ≡ view repo laws s.world g
  unfolding play happen
  play-spares [] s fresh safe avoid h = refl
  play-spares (arrives o ∷ es) s fresh safe avoid h =
      play-spares es (happen repo env m (arrives o) s) fresh
        (happen-Safe repo laws env m (arrives o) s fresh safe)
        (All-append _ s.requests (program o ∷ []) avoid (program-Avoids g o (ground arith), tt))
        (ground arith)
  play-spares (dropped i ∷ es) s fresh safe avoid h =
      play-spares es (happen repo env m (dropped i) s) fresh
        (happen-Safe repo laws env m (dropped i) s fresh safe)
        (All-put_nth (Avoids g) i finish s.requests (unfold Avoids in tt) avoid) h
  play-spares (takes_turn i ∷ es) s fresh safe avoid h =
      let p = nth i s.requests in
      let (it, same) =
        turn-Avoids p s.world
          (All-nth_or (Avoids g) finish i s.requests (unfold Avoids in tt) avoid) safe.0 in
      play-spares es (happen repo env m (takes_turn i) s) fresh
        (happen-Safe repo laws env m (takes_turn i) s fresh safe)
        (All-put_nth (Avoids g) i (turn repo env m p s.world).0 s.requests it avoid) h
      ∙ same

  -- Over a lawful repository of well-formed transactions, and with UUIDs that are neither empty nor
  -- `g`, whatever requests on other gids arrive at an idle server, and however their turns
  -- interleave, fail or are dropped: what is stored under `g` stays as it is.
  play-isolated :
      (es : List Event) (w : World S)
      → ((n : ℕ) → env.uuid n ≢ [])
      → AllWell repo laws w
      → spares g es ≡ true
      → view repo laws (play repo env m es (record { world = w; requests = [] })).world g
        ≡ view repo laws w g
  play-isolated es w fresh h spared =
      play-spares es (record { world = w; requests = [] }) fresh (h, tt) tt spared
