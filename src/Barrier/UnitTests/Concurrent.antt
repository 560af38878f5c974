-- ===== src/Barrier/UnitTests/Concurrent.antt =====
-- The unit test of seata-server/src/barrier.rs with two calls at the same time, for every order of
-- their accesses.
use seata.Base.{
  bytes, ◌≡◌, refl, sym, ap, ◌∙◌, Bool, false, not, ◌&&◌, ◌||◌, Option, none, some, List, ok, Io,
  ◌>>=◌, pure, bind_ok,
}
use seata.Kv.{Kv, KvLaws}
use seata.Domain.{try}
use seata.Barrier.{key}
use seata.Barrier.Race.{Call, called, has_read, returned, Turn, interleave, is_held}
use seata.Barrier.Race.Outcome.{overlap, calls_race}

-- `assert!(result1 ^ result2)`, when both calls have returned
abbrev pub exactly_one : Call × Call → Option Bool
exactly_one (returned x, returned y) = some ((x || y) && not (x && y))
exactly_one _ = none

both_returned :
    (calls : Call × Call) (passes : Bool)
    → exactly_one calls ≡ some passes
    → (x : Bool) × (y : Bool) × (calls ≡ (returned x, returned y))
      × (passes ≡ ((x || y) && not (x && y)))
both_returned (called, b) passes e = absurd (cc)
both_returned (has_read found, b) passes e = absurd (cc)
both_returned (returned x, called) passes e = absurd (cc)
both_returned (returned x, has_read found) passes e = absurd (cc)
both_returned (returned x, returned y) passes e = (x, y, refl, cc)

module _ {S : Type 0} (kv : Kv S) where
  -- The test for one order of the accesses; `none` if this ends before both calls have returned.
  unfoldable pub test_barrier_concurrent_access : List Turn → Io S (Option Bool)
  test_barrier_concurrent_access turns = do
    let k = key (bytes "test-gid") (bytes "test-branch") try
    calls ← interleave kv k turns (called, called)
    pure (exactly_one calls)

  -- Over a lawful store that does not hold the barrier of the test, the test fails exactly if both
  -- calls read before either writes.
  concurrent_test_lem :
      (laws : KvLaws kv) (turns : List Turn) (s : S) (passes : Bool)
      → is_held kv laws (key (bytes "test-gid") (bytes "test-branch") try) s ≡ false
      → (test_barrier_concurrent_access turns s).0 ≡ ok (some passes)
      → passes ≡ not (overlap turns)
  unfolding test_barrier_concurrent_access
  concurrent_test_lem laws turns s passes free e =
      let k = key (bytes "test-gid") (bytes "test-branch") try in
      let (calls, ran, end) =
        bind_ok (interleave kv k turns (called, called)) _ s (some passes) e in
      let returns : exactly_one calls ≡ some passes =
        let whole = sym (ap (λ p. p.0) end) ∙ e in cc in
      let (x, y, are, is) = both_returned calls passes returns in
      let (_, one, both) = calls_race kv laws k turns s x y free (rw are at ran) in
      is ∙ rw (one, both)
