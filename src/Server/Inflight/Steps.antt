-- ===== src/Server/Inflight/Steps.antt =====
-- Every call of the API ends after a bounded number of its own steps, whatever the others do
-- (seata-server/src/main.rs).
use mathlib.Core.Path.{subst}
use seata.Base.{
  nth_or-put_nth, ℕ, zero, suc, ◌-◌, ◌≤◌, ◌<◌, ◌≡◌, refl, inl, inr, true, Option, none, some, List,
  [], ◌∷◌, Text, Result, ok, err, length, length-append, length-put_nth, put_nth, put_nth-keeps,
  nth_or-append, nth_or-last, ◌==◌, Bool-cases, arith, if◌then◌else◌,
}
use seata.Domain.{BarrierKey, BarrierPhase, try, confirm, cancel}
use seata.Kv.{Kv}
use seata.Repo.{Serde, dyn_repo}
use seata.Saga.World.{World, Env, SagaManager}
use seata.Saga.Invariant.{Op, op_add, op_succeed, op_fail}
use seata.Saga.Concurrent.{finish, program}
use seata.Saga.Concurrent.Turns.{
  Within, Within-finish, Within-suc, Within-zero, own_turns, program-Within, turn-Within,
}
use seata.Server.Inflight.{
  Call, plain, guarded, Handling, checking, marking, running, behind_barrier, handling, checked,
  marked, Inflight, Event, arrives, steps, times_out, call_at, step, happen, play,
}

-- A call that ends within `n` steps, whatever they give.
abbrev pub EndsIn : ℕ → Handling → Type 0
EndsIn n (running p) = Within n p
EndsIn zero (checking b o) = ⊥
EndsIn zero (marking b o) = ⊥
EndsIn (suc n) (checking b o) = (r : Result (Option Text)) → EndsIn n (checked b o r)
EndsIn (suc n) (marking b o) = (r : Result (Unit {0})) → EndsIn n (marked o r)

EndsIn-suc : (n : ℕ) (c : Handling) → EndsIn n c → EndsIn (suc n) c
EndsIn-suc n (running p) h = Within-suc n p h
EndsIn-suc zero (checking b o) h = absurd h
EndsIn-suc zero (marking b o) h = absurd h
EndsIn-suc (suc n) (checking b o) h = λ r. EndsIn-suc n (checked b o r) (h r)
EndsIn-suc (suc n) (marking b o) h = λ r. EndsIn-suc n (marked o r) (h r)

EndsIn-zero : (c : Handling) → EndsIn 0 c → c ≡ running finish
EndsIn-zero (running p) h = rw (Within-zero p h) refl
EndsIn-zero (checking b o) h = absurd h
EndsIn-zero (marking b o) h = absurd h

-- The steps that a call may need: those of its operation, and behind a barrier two more, for the
-- read and the write of the key.
abbrev pub own_steps : Call → ℕ
own_steps (plain o) = own_turns o
own_steps (guarded b action) = 5

behind_barrier-Within :
    (phase : BarrierPhase) (gid branch_id action : Text)
    → Within 3 (program (behind_barrier phase gid branch_id action))
behind_barrier-Within try gid branch_id action = program-Within (op_add gid branch_id action)
behind_barrier-Within confirm gid branch_id action = program-Within (op_succeed gid branch_id)
behind_barrier-Within cancel gid branch_id action = program-Within (op_fail gid branch_id)

marked-EndsIn :
    (n : ℕ) (o : Op) (r : Result (Unit {0})) → Within n (program o) → EndsIn n (marked o r)
marked-EndsIn n o (ok u) h = h
marked-EndsIn n o (err e) h = Within-finish n

checked-EndsIn :
    (n : ℕ) (b : BarrierKey) (o : Op) (r : Result (Option Text))
    → Within n (program o)
    → EndsIn (suc n) (checked b o r)
checked-EndsIn n b o (ok (some v)) h = Within-finish (suc n)
checked-EndsIn n b o (ok none) h = λ r. marked-EndsIn n o r h
checked-EndsIn n b o (err e) h = Within-finish (suc n)

handling-EndsIn : (c : Call) → EndsIn (own_steps c) (handling c)
handling-EndsIn (plain o) = program-Within o
handling-EndsIn (guarded b action) =
    let o = behind_barrier b.phase b.gid b.branch_id action in
    λ r. checked-EndsIn 3 b o r (behind_barrier-Within b.phase b.gid b.branch_id action)

-- The steps that the `i`-th call takes.
abbrev pub steps_of : ℕ → List Event → ℕ
steps_of i [] = 0
steps_of i (steps j ∷ es) = if j == i then suc (steps_of i es) else steps_of i es
steps_of i (arrives c ∷ es) = steps_of i es
steps_of i (times_out j ∷ es) = steps_of i es

module _ {S : Type 0} (kv : Kv S) (serde : Serde) (env : Env) (m : SagaManager) where
  step-EndsIn :
      (n : ℕ) (c : Handling) (w : World S) → EndsIn (suc n) c → EndsIn n (step kv serde env m c w).0
  unfolding step
  step-EndsIn n (running p) w h = turn-Within (dyn_repo kv serde) env m n p w h
  step-EndsIn n (checking b o) w h = h _
  step-EndsIn n (marking b o) w h = h _

  less-EndsIn :
      (n : ℕ) (c : Handling) (w : World S) → EndsIn n c → EndsIn (n - 1) (step kv serde env m c w).0
  less-EndsIn zero c w h = step-EndsIn 0 c w (EndsIn-suc 0 c h)
  less-EndsIn (suc n) c w h =
      let less : suc n - 1 ≡ n = omega arith in rw less (step-EndsIn n c w h)

  -- The `i`-th call has arrived, and ends within `n` steps.
  abbrev Ends : ℕ → ℕ → Inflight S → Type 0
  Ends i n s = (i < length s.calls) × EndsIn n (call_at i s.calls)

  put-Ends :
      (i j n : ℕ) (c : Handling) (w : World S) (s : Inflight S)
      → i < length s.calls
      → EndsIn n (call_at i s.calls)
      → (j ≡ i → EndsIn n c)
      → Ends i n (record { world = w; calls = put_nth j c s.calls })
  put-Ends i j n c w s there old new = (
    rw (length-put_nth j c s.calls) there,
    put_nth-keeps (EndsIn n) (running finish) i j c s.calls there old new,
  )

  arrives-Ends :
      (i n : ℕ) (c : Call) (s : Inflight S)
      → Ends i n s
      → Ends i n (happen kv serde env m (arrives c) s)
  unfolding happen
  arrives-Ends i n c s (there, h) = (
    rw (length-append s.calls (handling c ∷ [])) (omega (arith, there)),
    rw (nth_or-append (running finish) i s.calls (handling c ∷ []) there) h,
  )

  own-Ends :
      (i n : ℕ) (s : Inflight S) → Ends i n s → Ends i (n - 1) (happen kv serde env m (steps i) s)
  unfolding happen
  own-Ends i n s (there, h) =
      let c = step kv serde env m (call_at i s.calls) s.world in
      let same : (i == i) ≡ true = ground arith in
      (
        rw (length-put_nth i c.0 s.calls) there,
        rw (nth_or-put_nth (running finish) i i c.0 s.calls there, same)
            (less-EndsIn n (call_at i s.calls) s.world h),
      )

  play-Ends :
      (i n : ℕ) (es : List Event) (s : Inflight S)
      → Ends i n s
      → n ≤ steps_of i es
      → call_at i (play kv serde env m es s).calls ≡ running finish
  unfolding play happen
  play-Ends i n [] s (there, h) enough =
      let none_left : n ≡ 0 = omega (arith, enough) in
      EndsIn-zero _ (subst (λ l. EndsIn l (call_at i s.calls)) none_left h)
  play-Ends i n (arrives c ∷ es) s h enough = play-Ends i n es _ (arrives-Ends i n c s h) enough
  play-Ends i n (times_out j ∷ es) s (there, h) enough =
      play-Ends i n es _ (put-Ends i j n (running finish) s.world s there h (λ _. Within-finish n))
        enough
  play-Ends i n (steps j ∷ es) s (there, h) enough = elim (Bool-cases (j == i)) [
    | inl same ↦
        let is_i : j ≡ i = ground arith in
        rw is_i (play-Ends i (n - 1) es _ (own-Ends i n s (there, h)) (ground arith))
    | inr other ↦
        let (c, w) = step kv serde env m (call_at j s.calls) s.world in
        play-Ends i n es _ (put-Ends i j n c w s there h (λ same. absurd (ground arith)))
          (ground arith)
  ]

  -- A call of the API that arrives, behind a barrier or not, and whatever else is going on, has come
  -- to its end once it has taken eight steps, if it is a submission, five, if it is behind a barrier,
  -- or else three: it has returned, failed at the store or timed out, no matter how the steps of the
  -- others interleave with its own. A submission waits for its tasks in one of its steps, which it
  -- leaves because each task ends.
  pub calls-end :
      (c : Call) (es : List Event) (s : Inflight S)
      → own_steps c ≤ steps_of (length s.calls) es
      → call_at (length s.calls) (play kv serde env m (arrives c ∷ es) s).calls ≡ running finish
  unfolding play happen
  calls-end c es s enough =
      play-Ends (length s.calls) (own_steps c) es _
        (
          rw (length-append s.calls (handling c ∷ [])) (omega arith),
          rw (nth_or-last (running finish) (handling c) s.calls) (handling-EndsIn c),
        )
        enough
