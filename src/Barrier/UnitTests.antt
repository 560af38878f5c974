-- ===== src/Barrier/UnitTests.antt =====
-- The unit tests of seata-server/src/barrier.rs, as sequences of calls with the answers that they
-- assert, and over stores of every kind.
pub mod Concurrent
use seata.Base.{
  ◌≡◌, refl, ap, ◌∙◌, Bool, true, false, List, [], ◌∷◌, map, Text, bytes, Option, some, none, ok,
  continue, All, Bytes, text_eq, ◌&&◌, is_some,
}
use seata.Domain.{BarrierPhase, try, confirm, cancel, BarrierKey}
use seata.Kv.{Kv, KvLaws}
use seata.Barrier.{key, exists, insert, insert_found}
use seata.Barrier.Laws.{held}
use seata.Barrier.Calls.{
  BarrierCall, calls_exists, calls_insert, call, answers, set_answers, calls-refine-set, AllFree,
}

-- `assert!(…)` and `assert!(!…)` of calls, in order
abbrev pub Script : Type 0
Script = List (BarrierCall × Bool)

module _ (gid branch_id : Text) where
  abbrev pub at : BarrierPhase → BarrierKey
  at phase = record { gid = gid; branch_id = branch_id; phase = phase }

  abbrev pub inserts : BarrierPhase → BarrierCall
  inserts phase = calls_insert (at phase)

  abbrev pub has : BarrierPhase → BarrierCall
  has phase = calls_exists (at phase)

abbrev gid : Text
gid = bytes "test-gid"

abbrev branch_id : Text
branch_id = bytes "test-branch"

abbrev pub test_barrier_key_generation : Bool
test_barrier_key_generation =
    text_eq (key (bytes "gid1") (bytes "branch1") try) (bytes "barrier:gid1:branch1:try")
    && (text_eq (key (bytes "gid1") (bytes "branch1") confirm)
          (bytes "barrier:gid1:branch1:confirm")
        && text_eq (key (bytes "gid1") (bytes "branch1") cancel)
            (bytes "barrier:gid1:branch1:cancel"))

abbrev pub test_barrier_insert_and_exists : Script
test_barrier_insert_and_exists =
    (has gid branch_id try, false)
    ∷ (inserts gid branch_id try, true)
    ∷ (has gid branch_id try, true)
    ∷ (inserts gid branch_id try, false)
    ∷ []

abbrev pub test_barrier_idempotency : Script
test_barrier_idempotency =
    (inserts gid branch_id try, true)
    ∷ (inserts gid branch_id try, false)
    ∷ (inserts gid branch_id confirm, true)
    ∷ (inserts gid branch_id confirm, false)
    ∷ (inserts gid branch_id cancel, true)
    ∷ (inserts gid branch_id cancel, false)
    ∷ []

abbrev pub test_barrier_different_phases : Script
test_barrier_different_phases =
    (inserts gid branch_id try, true)
    ∷ (inserts gid branch_id confirm, true)
    ∷ (inserts gid branch_id cancel, true)
    ∷ (has gid branch_id try, true)
    ∷ (has gid branch_id confirm, true)
    ∷ (has gid branch_id cancel, true)
    ∷ []

abbrev pub test_barrier_different_branches : Script
test_barrier_different_branches =
    (inserts gid (bytes "branch1") try, true)
    ∷ (inserts gid (bytes "branch2") try, true)
    ∷ (has gid (bytes "branch1") try, true)
    ∷ (has gid (bytes "branch2") try, true)
    ∷ []

abbrev pub test_barrier_different_gids : Script
test_barrier_different_gids =
    (inserts (bytes "gid1") branch_id try, true)
    ∷ (inserts (bytes "gid2") branch_id try, true)
    ∷ (has (bytes "gid1") branch_id try, true)
    ∷ (has (bytes "gid2") branch_id try, true)
    ∷ []

-- through `Box<dyn BarrierOps>`
abbrev pub test_barrier_ops_trait : Script
test_barrier_ops_trait =
    (has gid branch_id try, false)
    ∷ (inserts gid branch_id try, true)
    ∷ (has gid branch_id try, true)
    ∷ (inserts gid branch_id try, false)
    ∷ []

abbrev pub scripts : List Script
scripts =
    test_barrier_insert_and_exists ∷ test_barrier_idempotency ∷ test_barrier_different_phases
    ∷ test_barrier_different_branches ∷ test_barrier_different_gids ∷ test_barrier_ops_trait ∷ []

abbrev calls_of : Script → List BarrierCall
calls_of script = map (λ p. p.0) script

abbrev expected : Script → List Bool
expected script = map (λ p. p.1) script

-- Reads and writes that return.
pub record Answers {S : Type 0} (kv : Kv S) : Type 0 where
  pub get_returns : (k : Bytes) (s : S) → (v : Option Bytes) × ((kv.get k s).0 ≡ ok v)
  pub put_returns : (k v : Bytes) (s : S) → (kv.put k v s).0 ≡ ok tt

test_barrier_key_generation_passes : test_barrier_key_generation ≡ true
unfolding key text_eq
test_barrier_key_generation_passes = refl

module _ {S : Type 0} (kv : Kv S) (laws : KvLaws kv) where
  -- All assertions of a script hold.
  abbrev pub Passes : S → Script → Type 0
  Passes s script = (answers kv (calls_of script) s).0 ≡ ok (expected script)

  insert_found-returns :
      (k : Bytes) (found : Option Bytes) (s : S)
      → (kv.get k s).0 ≡ ok found
      → Answers kv
      → (answer : Bool) × ((continue (kv.get k s).0 (insert_found kv k) (kv.get k s).1).0
          ≡ ok answer)
  unfolding insert_found
  insert_found-returns k (some v) s got a = (false, rw got refl)
  insert_found-returns k none s got a = (true, rw (got, a.put_returns k [] (kv.get k s).1) refl)

  call-returns :
      (c : BarrierCall) (s : S) → Answers kv → (answer : Bool) × ((call kv c s).0 ≡ ok answer)
  unfolding exists insert insert_found
  call-returns (calls_exists b) s a =
      let (found, got) = a.get_returns (key b.gid b.branch_id b.phase) s in
      (is_some found, rw got refl)
  call-returns (calls_insert b) s a =
      let k = key b.gid b.branch_id b.phase in
      let (found, got) = a.get_returns k s in insert_found-returns k found s got a

  answers-returns :
      (cs : List BarrierCall) (s : S)
      → Answers kv
      → (said : List Bool) × ((answers kv cs s).0 ≡ ok said)
  unfolding answers
  answers-returns [] s a = ([], refl)
  answers-returns (c ∷ cs) s a =
      let (answer, first) = call-returns c s a in
      let (rest, others) = answers-returns cs (call kv c s).1 a in
      (answer ∷ rest, rw (first, others) refl)

  passes_lem :
      (script : Script) (s : S)
      → Answers kv
      → ((b : BarrierKey) → held kv laws s b ≡ false)
      → AllFree (calls_of script)
      → set_answers (calls_of script) (λ b. false) ≡ expected script
      → Passes s script
  passes_lem script s a none_held free e =
      let cs = calls_of script in
      let (said, returns) = answers-returns cs s a in
      let is_set = (calls-refine-set kv laws cs s said free returns).0 in
      returns ∙ ap ok (is_set ∙ ap (set_answers cs) (λ i b. none_held b i) ∙ e)

  -- The keys are those that the test of key generation asserts; and over every lawful store whose
  -- reads and writes return and that holds no barrier, all assertions of the other unit tests of the
  -- barrier hold, one test after the other on a store of its own; the test of concurrent calls, which
  -- needs a schedule, is left out.
  pub unit_tests_pass :
      (s : S)
      → Answers kv
      → ((b : BarrierKey) → held kv laws s b ≡ false)
      → (test_barrier_key_generation ≡ true) × All (Passes s) scripts
  unfolding text_eq
  unit_tests_pass s a none_held =
      let insert_and_exists =
        passes_lem test_barrier_insert_and_exists s a none_held (refl, (refl, (refl, (refl, tt))))
          refl in
      let idempotency =
        passes_lem test_barrier_idempotency s a none_held
          (refl, (refl, (refl, (refl, (refl, (refl, tt)))))) refl in
      let different_phases =
        passes_lem test_barrier_different_phases s a none_held
          (refl, (refl, (refl, (refl, (refl, (refl, tt)))))) refl in
      let different_branches =
        passes_lem test_barrier_different_branches s a none_held (refl, (refl, (refl, (refl, tt))))
          refl in
      let different_gids =
        passes_lem test_barrier_different_gids s a none_held (refl, (refl, (refl, (refl, tt))))
          refl in
      let ops_trait =
        passes_lem test_barrier_ops_trait s a none_held (refl, (refl, (refl, (refl, tt)))) refl in
      (
        test_barrier_key_generation_passes,
        (
          insert_and_exists,
          (
            idempotency,
            (different_phases, (different_branches, (different_gids, (ops_trait, tt)))),
          ),
        ),
      )
