-- ===== src/Saga/Branch/Total.antt =====
-- The retry loop of a branch's task ends, and at which attempt: total correctness against the
-- instants at which the attempts end.
use mathlib.Core.Path.{subst}
use seata.Base.{
  true, ◌⊎◌, ℕ, zero, suc, ◌+◌, ◌≤◌, ◌<◌, ◌≡◌, ap, ◌∙◌, ◌≢◌, Bool, false, none, some, arith,
  Bool-cases, inl, inr, Option-cases, leb, leb→le, leb_false→lt,
}
use seata.Saga.World.{ExecConfig, Env, Request, Attempt}
use seata.Saga.Branch.{attempt_loop, run_task, secs, pause, is_accepted}

attempt_loop-ne-none :
    (send : ℕ → Attempt) (limit wait fuel n elapsed : ℕ)
    → limit < fuel + elapsed
    → 0 < fuel
    → attempt_loop send limit wait fuel n elapsed ≢ none
unfolding attempt_loop
attempt_loop-ne-none send limit wait zero n elapsed h p = absurd (omega arith)
attempt_loop-ne-none send limit wait (suc fuel) n elapsed h p =
    let after = elapsed + suc (send n).nanos in
    ground (arith, attempt_loop-ne-none send limit wait fuel (suc n) (after + wait + (send n).late))

-- One more case of a statement about all smaller numbers.
below-suc : (P : ℕ → Type 0) (n i : ℕ) → ((j : ℕ) → j < n → P j) → P n → i < suc n → P i
below-suc P n i h last lt = elim (Bool-cases (leb n i)) [
  | inl ge ↦ let e : n ≡ i = omega (arith, leb→le n i ge) in subst P e last
  | inr below ↦ h i (leb_false→lt n i below)
]

module _ (send : ℕ → Attempt) (wait : ℕ) where
  -- When attempt `n` begins and when it ends, counted from the start of the task, if it is made.
  unfoldable pub started_at : ℕ → ℕ
  started_at zero = 0
  started_at (suc n) = started_at n + suc (send n).nanos + wait + (send n).late

  unfoldable pub finished_at : ℕ → ℕ
  unfolding started_at
  finished_at n = started_at n + suc (send n).nanos

  -- `k` is the attempt at which the task returns: no earlier one was accepted or ended at or after
  -- the limit, and `k` was accepted or ended so.
  pub record StopsAt (limit k : ℕ) : Type 0 where
    pub earlier_rejected : (i : ℕ) → i < k → is_accepted (send i).reply ≡ false
    pub earlier_in_time : (i : ℕ) → i < k → finished_at i < limit
    pub last : (is_accepted (send k).reply ≡ true) ⊎ (limit ≤ finished_at k)

  loop_stops :
      (limit fuel n : ℕ) (b : Bool)
      → ((i : ℕ) → i < n → is_accepted (send i).reply ≡ false)
      → ((i : ℕ) → i < n → finished_at i < limit)
      → attempt_loop send limit wait fuel n (started_at n) ≡ some b
      → (k : ℕ) × (b ≡ is_accepted (send k).reply) × StopsAt limit k
  unfolding attempt_loop finished_at
  loop_stops limit zero n b rejected in_time h = absurd (ground arith)
  loop_stops limit (suc fuel) n b rejected in_time h =
      elim (Bool-cases (is_accepted (send n).reply)) [
        | inl yes_n ↦ (
          n,
          ground arith,
          record { earlier_rejected = rejected; earlier_in_time = in_time; last = inl yes_n },
        )
        | inr no_n ↦ elim (Bool-cases (leb limit (finished_at n))) [
          | inl late ↦ (
            n,
            ground arith,
            record {
              earlier_rejected = rejected;
              earlier_in_time = in_time;
              last = inr (leb→le _ _ late);
            },
          )
          | inr early ↦
              loop_stops limit fuel (suc n) b
                (λ i below.
                  below-suc (λ j. is_accepted (send j).reply ≡ false) n i rejected no_n below)
                (λ i below.
                  below-suc (λ j. finished_at j < limit) n i in_time (leb_false→lt _ _ early) below)
                (ground arith)
        ]
      ]

-- A branch's task always returns: at the first attempt that is accepted, with `true`, or that ends
-- at or after `timeout_to_fail_secs`, with `false`; which of the two the attempt itself says.
pub run_task_stops :
    (exec : ExecConfig) (env : Env) (epoch : ℕ) (request : Request)
    → let send = env.send epoch request exec.request_timeout_secs in
      (k : ℕ) × (run_task exec env epoch request ≡ some (is_accepted (send k).reply))
      × StopsAt send (pause exec request.body.branch_id) (secs exec.timeout_to_fail_secs) k
unfolding run_task started_at
run_task_stops exec env epoch request =
    let send = env.send epoch request exec.request_timeout_secs in
    let limit = secs exec.timeout_to_fail_secs in
    let wait = pause exec request.body.branch_id in
    elim (Option-cases (attempt_loop send limit wait (suc limit) 0 0)) [
      | inl running ↦
          absurd (
            attempt_loop-ne-none send limit wait (suc limit) 0 0 (omega arith) (omega arith)
              running)
      | inr (b, e) ↦
          let (k, value, stops) =
            loop_stops send wait limit (suc limit) 0 b (λ i lt. absurd (omega arith))
              (λ i lt. absurd (omega arith)) e in
          (k, e ∙ ap some value, stops)
    ]
