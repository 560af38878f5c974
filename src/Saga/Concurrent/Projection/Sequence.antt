-- ===== src/Saga/Concurrent/Projection/Sequence.antt =====
-- The requests on one transaction, when none of them arrives before the one before it has ended, run
-- as if they were alone (seata-server/src/saga.rs).
use seata.Base.{
  ℕ, suc, ◌==◌, ◌≤◌, ◌≡◌, ◌≢◌, refl, sym, ap, ◌∙◌, true, false, Option, none, some, List, [], ◌∷◌,
  ◌++◌, Text, text_eq, length, arith,
}
use mathlib.Core.Path.{subst}
use seata.Domain.{GlobalTxn}
use seata.Repo.{TxnRepo, RepoLaws}
use seata.Saga.World.{World, Env, SagaManager}
use seata.Saga.Steps.{view}
use seata.Saga.Returns.{Answers}
use seata.Saga.Invariant.{AllWell, Op, run}
use seata.Saga.Concurrent.{program, finish, System, Event, arrives, play}
use seata.Saga.Concurrent.Turns.{program_eight-Within, turns}
use seata.Saga.Concurrent.Overwrites.{again}
use seata.Saga.Concurrent.Serial.{serial, serial-run}
use seata.Saga.Concurrent.Isolation.{op_gid, spares}
use seata.Saga.Concurrent.Projection.{SameFound, Local, local_play}
use seata.Saga.Concurrent.Projection.Follows.{IsSteady}
use seata.Saga.Concurrent.Projection.Mirrors.{play-projects}
use seata.Saga.Concurrent.Projection.Single.{
  arrived, undropped, AllFinish, Only, Only-last, Only-finish, local_alone, local_alone-enough,
  local_play-append, idle_lem, only_lem, one_longer,
}

-- A request on a transaction, and what happens until the next one on it arrives.
abbrev pub Block : Type 0
Block = Op × List Event

abbrev pub ops : List Block → List Op
ops [] = []
ops ((o, es) ∷ bs) = o ∷ ops bs

abbrev pub in_blocks : List Block → List Event
in_blocks [] = []
in_blocks ((o, es) ∷ bs) = arrives o ∷ es ++ in_blocks bs

-- With `i` requests before: the requests of the blocks are those on `g`, and each has enough turns
-- before the next of them arrives.
abbrev pub Apart : Text → ℕ → List Block → Type 0
Apart g i [] = Unit
Apart g i ((o, es) ∷ bs) =
    (text_eq (op_gid o) g ≡ true)
    × (spares g es ≡ true)
    × (undropped i es ≡ true)
    × (8 ≤ turns i es)
    × Apart g (arrived (suc i) es) bs

-- The same requests one after the other.
one_by_one : ℕ → List Op → List Block
one_by_one i [] = []
one_by_one i (o ∷ os) = (o, again 8 i) ∷ one_by_one (suc i) os

in_blocks-one_by_one : (i : ℕ) (os : List Op) → in_blocks (one_by_one i os) ≡ serial i os
unfolding one_by_one
in_blocks-one_by_one i [] = refl
in_blocks-one_by_one i (o ∷ os) =
    ap (λ es. arrives o ∷ again 8 i ++ es) (in_blocks-one_by_one (suc i) os)

ops-one_by_one : (i : ℕ) (os : List Op) → ops (one_by_one i os) ≡ os
unfolding one_by_one
ops-one_by_one i [] = refl
ops-one_by_one i (o ∷ os) = ap (λ l. o ∷ l) (ops-one_by_one (suc i) os)

Apart-one_by_one :
    (g : Text) (i j : ℕ) (bs : List Block) → Apart g j bs → Apart g i (one_by_one i (ops bs))
unfolding one_by_one
Apart-one_by_one g i j [] h = tt
Apart-one_by_one g i j ((o, es) ∷ bs) (own, _, _, _, rest) =
    let same : (i == i) ≡ true = ground arith in
    (
      own,
      refl,
      refl,
      rw same (omega arith),
      Apart-one_by_one g (suc i) (arrived (suc j) es) bs rest,
    )

module _ (env : Env) (m : SagaManager) (g : Text) where
  -- The requests in turn, on the server that stores this transaction only.
  abbrev local_run : List Op → Option GlobalTxn → Option GlobalTxn
  local_run [] s = s
  local_run (o ∷ os) s = local_run os (local_alone env m 8 (program o) s).1

  -- A request on `g` that ends before the next one.
  block_lem :
      (o : Op) (es : List Event) (l : Local env m)
      → text_eq (op_gid o) g ≡ true
      → spares g es ≡ true
      → undropped (length l.requests) es ≡ true
      → 8 ≤ turns (length l.requests) es
      → AllFinish l.requests
      → let l' = local_play env m g (arrives o ∷ es) l in
        AllFinish l'.requests
        × (l'.stored ≡ (local_alone env m 8 (program o) l.stored).1)
        × (length l'.requests ≡ arrived (suc (length l.requests)) es)
  block_lem o es l own spared kept enough ended =
      let i = length l.requests in
      let p = program o in
      let l1 = record l { requests = l.requests ++ p ∷ [] } in
      let (left, same, longer) =
        only_lem env m g i p es l1 spared kept (Only-last p l.requests ended) in
      let done =
        local_alone-enough env m 8 (turns i es) p l.stored (program_eight-Within o) enough in
      let left' : Only i finish (local_play env m g es l1).requests =
        subst (λ q. Only i q (local_play env m g es l1).requests) (ap (λ r. r.0) done) left in
      rw (local_play, own)
        (Only-finish left', same ∙ ap (λ r. r.1) done, longer ∙ one_longer env m g l.requests p es)

  blocks_lem :
      (bs : List Block) (i : ℕ) (l : Local env m)
      → length l.requests ≡ i
      → Apart g i bs
      → AllFinish l.requests
      → (local_play env m g (in_blocks bs) l).stored ≡ local_run (ops bs) l.stored
  blocks_lem [] i l is_i apart ended = refl
  blocks_lem ((o, es) ∷ bs) i l is_i (own, spared, kept, enough, rest) ended =
      let l1 = local_play env m g (arrives o ∷ es) l in
      let (ended1, same, longer) =
        block_lem o es l own spared (rw is_i kept) (rw is_i enough) ended in
      ap (λ (x : Local env m). x.stored)
        (local_play-append env m g (arrives o ∷ es) (in_blocks bs) l)
      ∙ blocks_lem bs (arrived (suc i) es) l1 (longer ∙ rw is_i) rest ended1
      ∙ ap (local_run (ops bs)) same

SameFound-both : (a b s : Option GlobalTxn) → SameFound a s → SameFound b s → SameFound a b
SameFound-both none none s h k = tt
SameFound-both none (some t) none h k = k
SameFound-both none (some t) (some u) h k = h
SameFound-both (some t) none none h k = h
SameFound-both (some t) none (some u) h k = k
SameFound-both (some t) (some t') none h k = absurd h
SameFound-both (some t) (some t') (some u) h k = h ∙ sym k

module _ {S : Type 0} (repo : TxnRepo S) (laws : RepoLaws repo) (answers : Answers repo) (env : Env)
    (m : SagaManager) where
  -- Over a lawful repository whose calls return and that holds well-formed transactions only, with
  -- UUIDs that are neither empty nor `g`, a gid `g` that is not empty, and a remote whose answer to
  -- a request does not depend on when it is sent: if each request that names `g` takes at least eight
  -- turns and is not dropped before the next one that names `g` arrives, then, however the turns of
  -- the requests on other transactions come between, the transaction under `g` ends, but for the time
  -- stamps, as the manager's operations leave it when they are called one after the other and nothing
  -- else is going on.
  pub play-serializes :
      (g : Text) (before : List Event) (bs : List Block) (w : World S)
      → IsSteady env
      → ((n : ℕ) → env.uuid n ≢ [])
      → ((n : ℕ) → text_eq (env.uuid n) g ≡ false)
      → g ≢ []
      → AllWell repo laws w
      → spares g before ≡ true
      → Apart g (arrived 0 before) bs
      → let idle : System S = record { world = w; requests = [] } in
        SameFound
          (view repo laws (play repo env m (before ++ in_blocks bs) idle).world g)
          (view repo laws (run repo env m (ops bs) w) g)
  play-serializes g before bs w steady fresh no_uuid has well spared apart =
      let s = view repo laws w g in
      let l : Local env m = record { stored = s; requests = [] } in
      let l1 = local_play env m g before l in
      let end = local_run env m g (ops bs) s in
      let (ended, same, longer) = idle_lem env m g before l spared tt in
      let in_mixed : (local_play env m g (before ++ in_blocks bs) l).stored ≡ end =
        ap (λ (x : Local env m). x.stored) (local_play-append env m g before (in_blocks bs) l)
        ∙ blocks_lem env m g bs (arrived 0 before) l1 longer apart ended
        ∙ ap (local_run env m g (ops bs)) same in
      let in_serial : (local_play env m g (serial 0 (ops bs)) l).stored ≡ end =
        rw (← in_blocks-one_by_one 0 (ops bs)) (
          blocks_lem env m g (one_by_one 0 (ops bs)) 0 l refl
            (Apart-one_by_one g 0 (arrived 0 before) bs apart) tt)
        ∙ ap (λ os. local_run env m g os s) (ops-one_by_one 0 (ops bs)) in
      let mixed =
        play-projects repo laws answers env m g (before ++ in_blocks bs) w steady fresh no_uuid has
          well in
      let alone =
        play-projects repo laws answers env m g (serial 0 (ops bs)) w steady fresh no_uuid has
          well in
      SameFound-both _ _ end (rw (← in_mixed) mixed) (
        subst (λ x. SameFound (view repo laws x g) end) (serial-run repo env m (ops bs) w)
          (rw (← in_serial) alone))
