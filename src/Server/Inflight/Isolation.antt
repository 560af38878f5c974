-- ===== src/Server/Inflight/Isolation.antt =====
-- Calls of the API on other transactions, those behind barriers included, leave a transaction alone,
-- however they interleave (seata-server/src/main.rs).
use seata.Base.{
  ℕ, ◌≡◌, ◌≢◌, refl, ap, ◌∙◌, Bool, true, false, not, ◌&&◌, Option, none, some, List, [], ◌∷◌, Text,
  text_eq, Result, ok, err, All, All-append, All-nth_or, All-put_nth, arith,
}
use seata.Domain.{GlobalTxn, BarrierKey, BarrierPhase, try, confirm, cancel}
use seata.Kv.{Kv, KvLaws}
use seata.Repo.{Serde, dyn_repo, gid_key}
use seata.Repo.Laws.{decoded, dyn_laws}
use seata.Barrier.Laws.{keys_differ, put-keeps}
use seata.Saga.World.{World, Env, SagaManager}
use seata.Saga.Steps.{view}
use seata.Saga.Invariant.{Op}
use seata.Saga.Concurrent.{finish}
use seata.Saga.Concurrent.Isolation.{op_gid, Avoids, program-Avoids, turn-Avoids}
use seata.Server.Inflight.{
  Call, plain, guarded, Handling, checking, marking, running, handling, checked, marked, key_of,
  behind_barrier, Inflight, Event, arrives, steps, times_out, call_at, step, happen, play,
}
use seata.Server.Inflight.Safety.{Well, Safely, happen-Safe}

-- The gid that a call names.
abbrev pub call_gid : Call → Text
call_gid (plain o) = op_gid o
call_gid (guarded b action) = b.gid

-- No call that arrives names `g`.
abbrev pub spares : Text → List Event → Bool
spares g [] = true
spares g (arrives c ∷ es) = not (text_eq (call_gid c) g) && spares g es
spares g (steps i ∷ es) = spares g es
spares g (times_out i ∷ es) = spares g es

-- The operation of the call is on another gid.
abbrev AvoidsCall : Text → Handling → Type 0
AvoidsCall g (checking b o) = text_eq (op_gid o) g ≡ false
AvoidsCall g (marking b o) = text_eq (op_gid o) g ≡ false
AvoidsCall g (running p) = Avoids g p

module _ (g : Text) where
  finish-Avoids : AvoidsCall g (running finish)
  unfolding Avoids
  finish-Avoids = tt

  behind-gid :
      (phase : BarrierPhase) (gid branch_id action : Text)
      → op_gid (behind_barrier phase gid branch_id action) ≡ gid
  behind-gid try gid branch_id action = refl
  behind-gid confirm gid branch_id action = refl
  behind-gid cancel gid branch_id action = refl

  handling-Avoids : (c : Call) → text_eq (call_gid c) g ≡ false → AvoidsCall g (handling c)
  handling-Avoids (plain o) h = program-Avoids g o h
  handling-Avoids (guarded b action) h = rw (behind-gid b.phase b.gid b.branch_id action) h

  checked-Avoids :
      (b : BarrierKey) (o : Op) (r : Result (Option Text))
      → text_eq (op_gid o) g ≡ false
      → AvoidsCall g (checked b o r)
  checked-Avoids b o (ok (some v)) h = finish-Avoids
  checked-Avoids b o (ok none) h = h
  checked-Avoids b o (err e) h = finish-Avoids

  marked-Avoids :
      (o : Op) (r : Result (Unit {0})) → text_eq (op_gid o) g ≡ false → AvoidsCall g (marked o r)
  marked-Avoids o (ok u) h = program-Avoids g o h
  marked-Avoids o (err e) h = finish-Avoids

module _ {S : Type 0} (kv : Kv S) (laws : KvLaws kv) (serde : Serde) (env : Env) (m : SagaManager)
    (fresh : (n : ℕ) → env.uuid n ≢ []) (g : Text)
    (no_uuid : (n : ℕ) → text_eq (env.uuid n) g ≡ false) where
  -- What is stored under `g`.
  abbrev pub here : World S → Option GlobalTxn
  here w = view (dyn_repo kv serde) (dyn_laws kv laws serde) w g

  step-Avoids :
      (c : Handling) (w : World S)
      → AvoidsCall g c
      → Well kv laws serde env m fresh w
      → AvoidsCall g (step kv serde env m c w).0 × (here (step kv serde env m c w).1 ≡ here w)
  unfolding step
  step-Avoids (checking b o) w it h = (
    checked-Avoids g b o (kv.get (key_of b) w.store).0 it,
    ap (decoded serde) (laws.get_keeps (key_of b) w.store (gid_key g)),
  )
  step-Avoids (marking b o) w it h = (
    marked-Avoids g o (kv.put (key_of b) [] w.store).0 it,
    ap (decoded serde)
        (put-keeps kv laws serde (key_of b) [] w.store (gid_key g) (keys_differ b g)),
  )
  step-Avoids (running p) w it h =
      turn-Avoids (dyn_repo kv serde) (dyn_laws kv laws serde) env m g no_uuid p w it h

  play-spares :
      (es : List Event) (s : Inflight S)
      → Safely kv laws serde env m fresh s
      → All (AvoidsCall g) s.calls
      → spares g es ≡ true
      → here (play kv serde env m es s).world ≡ here s.world
  unfolding play happen
  play-spares [] s safe avoid h = refl
  play-spares (arrives c ∷ es) s safe avoid h =
      play-spares es (happen kv serde env m (arrives c) s)
        (happen-Safe kv laws serde env m fresh (arrives c) s safe)
        (All-append _ s.calls (handling c ∷ []) avoid (handling-Avoids g c (ground arith), tt))
        (ground arith)
  play-spares (times_out i ∷ es) s safe avoid h =
      play-spares es (happen kv serde env m (times_out i) s)
        (happen-Safe kv laws serde env m fresh (times_out i) s safe)
        (All-put_nth (AvoidsCall g) i (running finish) s.calls (finish-Avoids g) avoid) h
  play-spares (steps i ∷ es) s safe avoid h =
      let c = call_at i s.calls in
      let (it, same) =
        step-Avoids c s.world
          (All-nth_or (AvoidsCall g) (running finish) i s.calls (finish-Avoids g) avoid) safe.0 in
      play-spares es (happen kv serde env m (steps i) s)
        (happen-Safe kv laws serde env m fresh (steps i) s safe)
        (All-put_nth (AvoidsCall g) i (step kv serde env m c s.world).0 s.calls it avoid) h
      ∙ same

  -- Over a lawful store that the barrier and the transactions share, with well-formed transactions
  -- only, and with UUIDs that are neither empty nor `g`: whatever calls of the API on other gids
  -- arrive at an idle server, behind barriers or not, and however their steps interleave, fail or
  -- time out, what is stored under `g` stays as it is.
  pub calls-isolated :
      (es : List Event) (w : World S)
      → Well kv laws serde env m fresh w
      → spares g es ≡ true
      → here (play kv serde env m es (record { world = w; calls = [] })).world ≡ here w
  calls-isolated es w h spared = play-spares es (record { world = w; calls = [] }) (h, tt) tt spared
