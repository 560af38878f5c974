-- ===== src/Server/Inflight/Barriers.antt =====
-- A barrier that is held stays held, and lets no call through, however calls interleave
-- (seata-server/src/main.rs, seata-server/src/barrier.rs).
use seata.Saga.Concurrent.Awaited.{turn-await_tasks}
use seata.Base.{
  length-put_nth, put_nth-keeps, nth_or-append, nth_or-last, ℕ, ◌≡◌, refl, sym, ◌∙◌, ap, inl, inr,
  ◌⊎◌, true, List, [], ◌∷◌, length, ◌<◌, Text, is_some, arith, Result-cases, length-append,
}
use seata.Domain.{BarrierKey}
use seata.Kv.{Kv, KvLaws}
use seata.Repo.{Serde, dyn_repo, load, gid_key}
use seata.Barrier.Laws.{held, barrier-repo_disjoint}
use seata.Saga.World.{World, Env, SagaManager}
use seata.Saga.Invariant.{Op}
use seata.Saga.Concurrent.{
  Program, finish, await_load, await_save, await_tasks, read_clock, make_uuid, turn,
}
use seata.Server.Inflight.{
  guarded, Handling, checking, marking, running, handling, key_of, behind_barrier, Inflight, Event,
  arrives, steps, times_out, call_at, step, happen, play,
}

module _ {S : Type 0} (kv : Kv S) (laws : KvLaws kv) (serde : Serde) (env : Env) (m : SagaManager)
    (b : BarrierKey) where
  put-held : (k : Text) (s : S) → held kv laws s b ≡ true → held kv laws (kv.put k [] s).1 b ≡ true
  put-held k s h = elim (laws.put_either k [] s (key_of b)) [
    | inl same ↦ ground arith
    | inr (_, written) ↦ ground arith
  ]

  load-held :
      (gid : Text) (s : S) → held kv laws s b ≡ true → held kv laws (load kv serde gid s).1 b ≡ true
  unfolding load
  load-held gid s h =
      let same = laws.get_keeps (gid_key gid) s (key_of b) in
      elim (Result-cases (kv.get (gid_key gid) s).0) [
        | inl (v, e) ↦ ground arith
        | inr (x, e) ↦ ground arith
      ]

  turn-held :
      (p : Program) (w : World S)
      → held kv laws w.store b ≡ true
      → held kv laws (turn (dyn_repo kv serde) env m p w).1.store b ≡ true
  unfolding turn
  turn-held finish w h = h
  turn-held (await_load gid rest) w h = load-held gid w.store h
  turn-held (await_save tx rest) w h = (barrier-repo_disjoint kv laws serde b tx w.store []).1 ∙ h
  turn-held (await_tasks tx rest) w h = rw (turn-await_tasks (dyn_repo kv serde) env m tx rest w) h
  turn-held (read_clock rest) w h = h
  turn-held (make_uuid rest) w h = h

  step-held :
      (c : Handling) (w : World S)
      → held kv laws w.store b ≡ true
      → held kv laws (step kv serde env m c w).1.store b ≡ true
  unfolding step
  step-held (checking b' o) w h = rw (laws.get_keeps (key_of b') w.store (key_of b)) h
  step-held (marking b' o) w h = put-held (key_of b') w.store h
  step-held (running p) w h = turn-held p w h

  -- The call has not passed the barrier, or is over.
  abbrev pub Waits : Op → Handling → Type 0
  Waits o c = (c ≡ checking b o) ⊎ (c ≡ running finish)

  step-Waits :
      (o : Op) (c : Handling) (w : World S)
      → held kv laws w.store b ≡ true
      → Waits o c
      → Waits o (step kv serde env m c w).0
  unfolding step turn
  step-Waits o c w h (inl waits) = rw waits (elim (Result-cases (kv.get (key_of b) w.store).0) [
    | inl (found, got) ↦
        let there : is_some found ≡ true =
          ap is_some (sym (laws.get_ok (key_of b) w.store found got)) ∙ h in
        rw (got, there) (inr refl)
    | inr (e, bad) ↦ rw bad (inr refl)
  ])
  step-Waits o c w h (inr over) = rw over (inr refl)

  -- The barrier is held, and the `i`-th call has arrived and waits or is over.
  abbrev Holds : ℕ → Op → Inflight S → Type 0
  Holds i o s =
      (held kv laws s.world.store b ≡ true) × (i < length s.calls) × Waits o (call_at i s.calls)

  happen-Holds :
      (i : ℕ) (o : Op) (e : Event) (s : Inflight S)
      → Holds i o s
      → Holds i o (happen kv serde env m e s)
  unfolding happen
  happen-Holds i o (arrives c) s (h, there, waits) = (
    h,
    rw (length-append s.calls (handling c ∷ [])) (omega (arith, there)),
    rw (nth_or-append (running finish) i s.calls (handling c ∷ []) there) waits,
  )
  happen-Holds i o (steps j) s (h, there, waits) =
      let (c, w) = step kv serde env m (call_at j s.calls) s.world in
      (
        step-held (call_at j s.calls) s.world h,
        rw (length-put_nth j c s.calls) there,
        put_nth-keeps (Waits o) (running finish) i j c s.calls there waits
            (λ same. rw same (step-Waits o (call_at i s.calls) s.world h waits)),
      )
  happen-Holds i o (times_out j) s (h, there, waits) = (
    h,
    rw (length-put_nth j (running finish) s.calls) there,
    put_nth-keeps (Waits o) (running finish) i j (running finish) s.calls there waits
        (λ _. inr refl),
  )

  play-Holds :
      (i : ℕ) (o : Op) (es : List Event) (s : Inflight S)
      → Holds i o s
      → Holds i o (play kv serde env m es s)
  unfolding play
  play-Holds i o [] s h = h
  play-Holds i o (e ∷ es) s h = play-Holds i o es _ (happen-Holds i o e s h)

  -- Over a lawful store that the barrier shares with the transactions, a branch call that arrives
  -- when its barrier is held: whatever other calls arrive, and however the steps of all of them
  -- interleave, fail or time out, the barrier stays held, and the call stands before the read of the
  -- barrier or is over, so that its operation never begins.
  pub play-skips :
      (action : Text) (es : List Event) (s : Inflight S)
      → held kv laws s.world.store b ≡ true
      → let s' = play kv serde env m (arrives (guarded b action) ∷ es) s in
        (held kv laws s'.world.store b ≡ true)
        × Waits
            (behind_barrier b.phase b.gid b.branch_id action)
            (call_at (length s.calls) s'.calls)
  unfolding play happen
  play-skips action es s h =
      let o = behind_barrier b.phase b.gid b.branch_id action in
      let (h', _, waits) = play-Holds (length s.calls) o es _ (
        h,
        rw (length-append s.calls (checking b o ∷ [])) (omega arith),
        rw (nth_or-last (running finish) (checking b o) s.calls) (inl refl),
      ) in
      (h', waits)
