-- ===== src/Saga/Concurrent/Turns.antt =====
-- Every request ends after a bounded number of its own turns, whatever the other requests do
-- (seata-server/src/saga.rs).
use seata.Saga.Concurrent.Awaited.{turn-await_tasks}
use seata.Base.{
  put_nth, length-put_nth, nth_or-append, nth_or-last, nth_or-put_nth, ℕ, zero, suc, ◌-◌, ◌≤◌, ◌<◌,
  ◌≡◌, refl, inl, inr, true, false, Option, none, some, List, [], ◌∷◌, Text, length, length-append,
  ◌==◌, Bool-cases, Option-cases, arith, if◌then◌else◌, Result, ok, err,
}
use mathlib.Core.Path.{subst}
use seata.Domain.{ℤ, GlobalTxn, BranchStatus, succeed, failed}
use seata.Repo.{TxnRepo}
use seata.Saga.World.{World, Env, SagaManager}
use seata.Saga.Manager.{has_branch, set_branch}
use seata.Saga.Invariant.{Op, op_start, op_submit, op_abort, op_add, op_succeed, op_fail}
use seata.Saga.Concurrent.{
  Program, finish, await_load, await_save, await_tasks, read_clock, make_uuid, stamped_then,
  started, concluding, submitting, aborting_found, adding, setting, program, on_ok, turn, System,
  Event, arrives, takes_turn, dropped, nth, happen, play,
}

-- A program that ends within `n` turns, whatever they give.
unfoldable pub Within : ℕ → Program → Type 0
Within n finish = Unit
Within zero (await_load gid rest) = ⊥
Within zero (await_save tx rest) = ⊥
Within zero (await_tasks tx rest) = ⊥
Within zero (read_clock rest) = ⊥
Within zero (make_uuid rest) = ⊥
Within (suc n) (await_load gid rest) = (found : Option GlobalTxn) → Within n (rest found)
Within (suc n) (await_save tx rest) = Within n rest
Within (suc n) (await_tasks tx rest) = (executed : GlobalTxn) → Within n (rest executed)
Within (suc n) (read_clock rest) = (at : ℤ) → Within n (rest at)
Within (suc n) (make_uuid rest) = (gid : Text) → Within n (rest gid)

pub Within-finish : (n : ℕ) → Within n finish
unfolding Within
Within-finish n = tt

pub Within-suc : (n : ℕ) (p : Program) → Within n p → Within (suc n) p
unfolding Within
Within-suc n finish h = tt
Within-suc zero (await_load gid rest) h = absurd h
Within-suc zero (await_save tx rest) h = absurd h
Within-suc zero (await_tasks tx rest) h = absurd h
Within-suc zero (read_clock rest) h = absurd h
Within-suc zero (make_uuid rest) h = absurd h
Within-suc (suc n) (await_load gid rest) h = λ found. Within-suc n (rest found) (h found)
Within-suc (suc n) (await_save tx rest) h = Within-suc n rest h
Within-suc (suc n) (await_tasks tx rest) h = λ executed. Within-suc n (rest executed) (h executed)
Within-suc (suc n) (read_clock rest) h = λ at. Within-suc n (rest at) (h at)
Within-suc (suc n) (make_uuid rest) h = λ gid. Within-suc n (rest gid) (h gid)

pub Within-zero : (p : Program) → Within zero p → p ≡ finish
unfolding Within
Within-zero finish h = refl
Within-zero (await_load gid rest) h = absurd h
Within-zero (await_save tx rest) h = absurd h
Within-zero (await_tasks tx rest) h = absurd h
Within-zero (read_clock rest) h = absurd h
Within-zero (make_uuid rest) h = absurd h

pub submitting-Within : (found : Option GlobalTxn) → Within 7 (submitting found)
unfolding Within submitting stamped_then concluding
submitting-Within none = tt
submitting-Within (some tx) = λ at executed at' at''. tt

aborting-Within : (found : Option GlobalTxn) → Within 2 (aborting_found found)
unfolding Within aborting_found stamped_then
aborting-Within none = tt
aborting-Within (some tx) = λ at. tt

adding-Within :
    (branch_id action : Text) (found : Option GlobalTxn) → Within 2 (adding branch_id action found)
unfolding Within adding stamped_then
adding-Within branch_id action none = tt
adding-Within branch_id action (some tx) = elim (Bool-cases (has_branch tx branch_id)) [
  | inl old ↦ rw old tt
  | inr new ↦ rw new (λ at. tt)
]

setting-Within :
    (branch_id : Text) (status : BranchStatus) (found : Option GlobalTxn)
    → Within 2 (setting branch_id status found)
unfolding Within setting stamped_then
setting-Within branch_id status none = tt
setting-Within branch_id status (some tx) =
    elim (Option-cases (set_branch branch_id status tx.branches)) [
      | inl missing ↦ rw (setting, missing) tt
      | inr (bs, set) ↦ rw (setting, set) (λ at. tt)
    ]

-- The turns that an operation may need: a submission loads, executes, and reads the clock and saves
-- three times; the others load or make a UUID, read the clock and save.
abbrev pub own_turns : Op → ℕ
own_turns (op_start gid mode payload) = 3
own_turns (op_submit gid) = 8
own_turns (op_abort gid) = 3
own_turns (op_add gid branch_id action) = 3
own_turns (op_succeed gid branch_id) = 3
own_turns (op_fail gid branch_id) = 3

pub program-Within : (o : Op) → Within (own_turns o) (program o)
unfolding Within program started
program-Within (op_start [] mode payload) = λ gid at. tt
program-Within (op_start (c ∷ gid) mode payload) = λ at. tt
program-Within (op_submit gid) = submitting-Within
program-Within (op_abort gid) = aborting-Within
program-Within (op_add gid branch_id action) = adding-Within branch_id action
program-Within (op_succeed gid branch_id) = setting-Within branch_id succeed
program-Within (op_fail gid branch_id) = setting-Within branch_id failed

three-Within : (p : Program) → Within 3 p → Within 8 p
three-Within p h =
    Within-suc 7 p (Within-suc 6 p (Within-suc 5 p (Within-suc 4 p (Within-suc 3 p h))))

pub program_eight-Within : (o : Op) → Within 8 (program o)
program_eight-Within (op_start gid mode payload) =
    three-Within _ (program-Within (op_start gid mode payload))
program_eight-Within (op_submit gid) = program-Within (op_submit gid)
program_eight-Within (op_abort gid) = three-Within _ (program-Within (op_abort gid))
program_eight-Within (op_add gid branch_id action) =
    three-Within _ (program-Within (op_add gid branch_id action))
program_eight-Within (op_succeed gid branch_id) =
    three-Within _ (program-Within (op_succeed gid branch_id))
program_eight-Within (op_fail gid branch_id) =
    three-Within _ (program-Within (op_fail gid branch_id))

on_ok-Within :
    {A : Type 0} (n : ℕ) (r : Result A) (rest : A → Program)
    → ((a : A) → Within n (rest a))
    → Within n (on_ok r rest)
on_ok-Within n (ok a) rest h = h a
on_ok-Within n (err e) rest h = Within-finish n

module _ {S : Type 0} (repo : TxnRepo S) (env : Env) (m : SagaManager) where
  pub turn-Within :
      (n : ℕ) (p : Program) (w : World S) → Within (suc n) p → Within n (turn repo env m p w).0
  unfolding Within turn
  turn-Within n finish w h = tt
  turn-Within n (await_load gid rest) w h = on_ok-Within n _ rest h
  turn-Within n (await_save tx rest) w h = on_ok-Within n _ (λ _. rest) (λ _. h)
  turn-Within n (await_tasks tx rest) w h = rw (turn-await_tasks repo env m tx rest w) (h _)
  turn-Within n (read_clock rest) w h = h (env.clock w.readings)
  turn-Within n (make_uuid rest) w h = h (env.uuid w.uuids)

-- The turns that the `i`-th request takes.
abbrev pub turns : ℕ → List Event → ℕ
turns i [] = 0
turns i (takes_turn j ∷ es) = if j == i then suc (turns i es) else turns i es
turns i (arrives o ∷ es) = turns i es
turns i (dropped j ∷ es) = turns i es

module _ {S : Type 0} (repo : TxnRepo S) (env : Env) (m : SagaManager) where
  -- The `i`-th request has arrived, and ends within `n` turns.
  abbrev pub Ends : ℕ → ℕ → System S → Type 0
  Ends i n s = (i < length s.requests) × Within n (nth i s.requests)

  Ends-put :
      (i j n : ℕ) (p : Program) (w : World S) (s : System S)
      → Within n p
      → Within n (nth i s.requests)
      → i < length s.requests
      → Ends i n (record { world = w; requests = put_nth j p s.requests })
  Ends-put i j n p w s new old h = (
    rw (length-put_nth j p s.requests) h,
    elim (Bool-cases (j == i)) [
      | inl same ↦ rw (nth_or-put_nth finish i j p s.requests h, same) new
      | inr other ↦ rw (nth_or-put_nth finish i j p s.requests h, other) old
    ],
  )

  pub happen-Ends :
      (i n : ℕ) (e : Event) (s : System S)
      → Ends i n s
      → turns i (e ∷ []) ≡ 0
      → Ends i n (happen repo env m e s)
  unfolding happen
  happen-Ends i n (arrives o) s (h, k) none_of_it = (
    rw (length-append s.requests (program o ∷ [])) (omega (arith, h)),
    rw (nth_or-append finish i s.requests (program o ∷ []) h) k,
  )
  happen-Ends i n (takes_turn j) s (h, k) none_of_it =
      let other : (j == i) ≡ false = ground arith in
      let p = turn repo env m (nth j s.requests) s.world in
      (
        rw (length-put_nth j p.0 s.requests) h,
        rw (nth_or-put_nth finish i j p.0 s.requests h, other) k,
      )
  happen-Ends i n (dropped j) s (h, k) none_of_it =
      Ends-put i j n finish s.world s (Within-finish n) k h

  pub turn-Ends :
      (i n : ℕ) (s : System S) → Ends i (suc n) s → Ends i n (happen repo env m (takes_turn i) s)
  unfolding happen
  turn-Ends i n s (h, k) =
      let p = turn repo env m (nth i s.requests) s.world in
      let same : (i == i) ≡ true = ground arith in
      (
        rw (length-put_nth i p.0 s.requests) h,
        rw (nth_or-put_nth finish i i p.0 s.requests h, same)
            (turn-Within repo env m n (nth i s.requests) s.world k),
      )

  own-Ends :
      (i j n : ℕ) (s : System S)
      → Ends i n s
      → (j == i) ≡ true
      → Ends i (n - 1) (happen repo env m (takes_turn j) s)
  own-Ends i j zero s (h, k) same =
      let is_i : j ≡ i = ground arith in
      rw is_i (turn-Ends i 0 s (h, Within-suc 0 (nth i s.requests) k))
  own-Ends i j (suc n) s h same =
      let is_i : j ≡ i = ground arith in
      let less : suc n - 1 ≡ n = omega arith in rw (is_i, less) (turn-Ends i n s h)

  play-Ends :
      (i n : ℕ) (es : List Event) (s : System S)
      → Ends i n s
      → n ≤ turns i es
      → nth i (play repo env m es s).requests ≡ finish
  unfolding play
  play-Ends i n [] s (h, k) enough =
      let none_left : n ≡ 0 = omega (arith, enough) in
      Within-zero _ (subst (λ l. Within l (nth i s.requests)) none_left k)
  play-Ends i n (arrives o ∷ es) s h enough =
      play-Ends i n es _ (happen-Ends i n (arrives o) s h refl) enough
  play-Ends i n (dropped j ∷ es) s h enough =
      play-Ends i n es _ (happen-Ends i n (dropped j) s h refl) enough
  play-Ends i n (takes_turn j ∷ es) s h enough = elim (Bool-cases (j == i)) [
    | inr other ↦ play-Ends i n es _ (happen-Ends i n (takes_turn j) s h (rw other)) (ground arith)
    | inl same ↦ play-Ends i (n - 1) es _ (own-Ends i j n s h same) (ground arith)
  ]

  -- A request that arrives, whatever it is and whatever else is going on, has come to its end once
  -- it has taken the turns that its operation needs: it has returned, failed at the repository or been dropped, no matter
  -- how the turns of the others interleave with its own.
  play-ends :
      (o : Op) (es : List Event) (s : System S)
      → own_turns o ≤ turns (length s.requests) es
      → nth (length s.requests) (play repo env m (arrives o ∷ es) s).requests ≡ finish
  unfolding play happen
  play-ends o es s enough =
      play-Ends (length s.requests) (own_turns o) es (happen repo env m (arrives o) s)
        (
          rw (length-append s.requests (program o ∷ [])) (omega arith),
          rw (nth_or-last finish (program o) s.requests) (program-Within o),
        )
        enough
