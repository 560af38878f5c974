-- ===== src/Server/Inflight/Safety.antt =====
-- The invariant of the stored transactions while calls of the API interleave, those behind barriers
-- included (seata-server/src/main.rs).
use seata.Base.{
  All-nth_or, All-put_nth, ℕ, ◌≢◌, sym, ◌∙◌, ap, Option, none, some, List, [], ◌∷◌, Text, ok, err,
  Result, All, All-append,
}
use seata.Domain.{BarrierKey}
use seata.Kv.{Kv, KvLaws}
use seata.Repo.{Serde, dyn_repo, gid_key}
use seata.Repo.Laws.{decoded, dyn_laws}
use seata.Barrier.Laws.{keys_differ, put-keeps}
use seata.Saga.World.{World, Env, SagaManager}
use seata.Saga.Invariant.{Op, AllWell}
use seata.Saga.Concurrent.{finish}
use seata.Saga.Concurrent.Safety.{Safe, program-Safe, turn-Safe}
use seata.Server.Inflight.{
  Call, plain, guarded, Handling, checking, marking, running, handling, checked, marked, key_of,
  Inflight, Event, arrives, steps, times_out, call_at, step, happen, play,
}

abbrev pub SafeCall : Env → Handling → Type 0
SafeCall env (checking b o) = Unit
SafeCall env (marking b o) = Unit
SafeCall env (running p) = Safe env p

module _ (env : Env) where
  handling-Safe : (c : Call) → SafeCall env (handling c)
  handling-Safe (plain o) = program-Safe env o
  handling-Safe (guarded b action) = tt

  finish-Safe : SafeCall env (running finish)
  unfolding Safe
  finish-Safe = tt

  checked-Safe : (b : BarrierKey) (o : Op) (r : Result (Option Text)) → SafeCall env (checked b o r)
  checked-Safe b o (ok (some v)) = finish-Safe
  checked-Safe b o (ok none) = tt
  checked-Safe b o (err e) = finish-Safe

  marked-Safe : (o : Op) (r : Result (Unit {0})) → SafeCall env (marked o r)
  marked-Safe o (ok u) = program-Safe env o
  marked-Safe o (err e) = finish-Safe

module _ {S : Type 0} (kv : Kv S) (laws : KvLaws kv) (serde : Serde) (env : Env) (m : SagaManager)
    (fresh : (n : ℕ) → env.uuid n ≢ []) where
  -- Every stored transaction is well-formed.
  abbrev pub Well : World S → Type 0
  Well w = AllWell (dyn_repo kv serde) (dyn_laws kv laws serde) w

  pub step-Safe :
      (c : Handling) (w : World S)
      → SafeCall env c
      → Well w
      → Well (step kv serde env m c w).1 × SafeCall env (step kv serde env m c w).0
  unfolding step
  step-Safe (checking b o) w safe h = (
    record {
      at = λ j tx e.
          h.at j tx (ap (decoded serde) (sym (laws.get_keeps (key_of b) w.store (gid_key j))) ∙ e);
    },
    checked-Safe env b o (kv.get (key_of b) w.store).0,
  )
  step-Safe (marking b o) w safe h = (
    record {
      at = λ j tx e. h.at j tx (
          ap (decoded serde)
            (sym (put-keeps kv laws serde (key_of b) [] w.store (gid_key j) (keys_differ b j)))
          ∙ e);
    },
    marked-Safe env o (kv.put (key_of b) [] w.store).0,
  )
  step-Safe (running p) w safe h =
      turn-Safe (dyn_repo kv serde) (dyn_laws kv laws serde) env m p w fresh safe h

  abbrev pub Safely : Inflight S → Type 0
  Safely s = Well s.world × All (SafeCall env) s.calls

  pub happen-Safe : (e : Event) (s : Inflight S) → Safely s → Safely (happen kv serde env m e s)
  unfolding happen
  happen-Safe (arrives c) s h =
      (h.0, All-append _ s.calls (handling c ∷ []) h.1 (handling-Safe env c, tt))
  happen-Safe (steps i) s h =
      let (well, safe) =
        step-Safe (call_at i s.calls) s.world
          (All-nth_or (SafeCall env) (running finish) i s.calls (finish-Safe env) h.1) h.0 in
      (well, All-put_nth (SafeCall env) i _ s.calls safe h.1)
  happen-Safe (times_out i) s h =
      (h.0, All-put_nth (SafeCall env) i _ s.calls (finish-Safe env) h.1)

  play-Safe : (es : List Event) (s : Inflight S) → Safely s → Safely (play kv serde env m es s)
  unfolding play
  play-Safe [] s h = h
  play-Safe (e ∷ es) s h = play-Safe es _ (happen-Safe e s h)

  -- Over a lawful store that the barrier and the transactions share, with well-formed transactions
  -- only, and with UUIDs that are not empty: whatever calls of the API arrive at an idle server,
  -- behind barriers or not, and however their steps interleave, fail at the store or time out, every
  -- stored transaction stands under its own, non-empty gid, is not in the status Aborting, and has
  -- branches with different ids.
  pub calls-AllWell :
      (es : List Event) (w : World S)
      → Well w
      → Well (play kv serde env m es (record { world = w; calls = [] })).world
  calls-AllWell es w h = (play-Safe es (record { world = w; calls = [] }) (h, tt)).0
