-- ===== src/Saga/Branch/Jitter.antt =====
-- The jitter of a branch (seata-server/src/saga.rs, in `submit`).
use mathlib.Core.List.{foldl}
use seata.Base.{ℕ, ◌+◌, ◌%◌, ◌^◌, ◌≤◌, ◌<◌, ◌≡◌, [], ◌∷◌, Text, arith}
use seata.Saga.World.{ExecConfig}
use seata.Saga.Branch.{wrapping_add, jitter_ms, pause, secs, millis}

-- The sum of the bytes, without wrap-around.
pub byte_sum : Text → ℕ
byte_sum [] = 0
byte_sum (b ∷ t) = b + byte_sum t

foldl-wrapping_add :
    (acc : ℕ) (t : Text) → foldl wrapping_add acc t % 2 ^ 32 ≡ (acc + byte_sum t) % 2 ^ 32
unfolding byte_sum
foldl-wrapping_add acc [] = omega arith
foldl-wrapping_add acc (b ∷ t) = omega (arith, foldl-wrapping_add ((acc + b) % 2 ^ 32) t)

foldl-wrapping_add-lt : (acc : ℕ) (t : Text) → acc < 2 ^ 32 → foldl wrapping_add acc t < 2 ^ 32
foldl-wrapping_add-lt acc [] h = h
foldl-wrapping_add-lt acc (b ∷ t) h = foldl-wrapping_add-lt ((acc + b) % 2 ^ 32) t (omega arith)

-- The jitter is the sum of the id's bytes modulo 2^32, reduced to 0 to 299 milliseconds, so the
-- pause between two attempts is at least the retry interval and at most 299 ms longer.
pub jitter_bounds :
    (branch_id : Text) (exec : ExecConfig)
    → (jitter_ms branch_id ≡ byte_sum branch_id % 2 ^ 32 % 300)
      × (secs exec.retry_interval_secs ≤ pause exec branch_id)
      × (pause exec branch_id ≤ secs exec.retry_interval_secs + millis 299)
unfolding jitter_ms
jitter_bounds t exec =
    let sum = foldl-wrapping_add 0 t in
    let small = foldl-wrapping_add-lt 0 t (omega arith) in (omega arith, omega arith, omega arith)
