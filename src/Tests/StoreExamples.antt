-- ===== src/Tests/StoreExamples.antt =====
-- The theorems on the barrier and the repository (seata-server/src/barrier.rs and repo.rs) over the
-- store of the tests.
use seata.Base.{
  ◌||◌, ◌&&◌, ◌↔◌, All, List, ◌≡◌, refl, true, false, some, [], ◌∷◌, bytes, text_eq, ok,
}
use seata.Domain.{BarrierKey, try, confirm, submitted}
use seata.Kv.Mem.{MemMap, empty, mem_kv, mem_laws, lookup, put, scan_prefix, scan_from}
use seata.Kv.Mem
use seata.Repo.{save, load, list, parse_rows}
use seata.Repo.Laws.{stored}
use seata.Barrier.{key, exists, insert, insert_found}
use seata.Barrier.Keys.{IsColonFree, joined, key_iff}
use seata.Barrier.Calls.{
  BarrierCall, calls_insert, calls_exists, answers, set_answers, set_after, calls-refine-set,
}
use seata.Barrier.UnitTests.{Answers, Passes, scripts, test_barrier_key_generation, unit_tests_pass}
use seata.Barrier.Laws.{key_of, held, barrier-repo_disjoint}
use seata.Barrier.Race.{called, returned, Turn, first, second, interleave, advance, is_held}
use seata.Barrier.Race.Outcome.{overlap, calls_race}
use seata.Tests.Codec.{sample_serde, encode, from_slice}
use seata.Tests.Samples.{t, g}

abbrev b : BarrierKey
b = record { gid = g; branch_id = bytes "b1"; phase = confirm }

abbrev b' : BarrierKey
b' = record { gid = bytes "h"; branch_id = bytes "b1"; phase = confirm }

abbrev s_barrier : MemMap
s_barrier = (insert mem_kv b.gid b.branch_id b.phase empty).1

abbrev s_saved : MemMap
s_saved = (save mem_kv sample_serde t empty).1

inserted_ok : (insert mem_kv b.gid b.branch_id b.phase empty).0 ≡ ok true
unfolding insert insert_found Mem.get empty put lookup
inserted_ok = refl

inserted_again_ok : (insert mem_kv b.gid b.branch_id b.phase s_barrier).0 ≡ ok false
unfolding insert insert_found Mem.get empty put lookup Mem.insert text_eq key
inserted_again_ok = refl

exists_ok : (exists mem_kv b.gid b.branch_id b.phase s_barrier).0 ≡ ok true
unfolding insert insert_found Mem.get empty put lookup exists Mem.insert text_eq key
exists_ok = refl

saved_ok : (save mem_kv sample_serde t empty).0 ≡ ok tt
unfolding save put
saved_ok = refl

loaded_ok : (load mem_kv sample_serde g s_saved).0 ≡ ok (some t)
unfolding save put load Mem.get lookup Mem.insert empty text_eq from_slice encode
loaded_ok = refl

listed_ok : (list mem_kv sample_serde 10 0 (some submitted) s_saved).0 ≡ ok (t ∷ [])
unfolding save put list scan_prefix scan_from parse_rows Mem.insert empty from_slice encode
listed_ok = refl

abbrev b_calls : List BarrierCall
b_calls = calls_insert b ∷ calls_exists b ∷ calls_exists b' ∷ calls_insert b ∷ []

b_calls_ok : (answers mem_kv b_calls empty).0 ≡ ok (true ∷ true ∷ false ∷ false ∷ [])
unfolding answers insert insert_found Mem.get empty put lookup exists Mem.insert text_eq key
b_calls_ok = refl

calls-refine-set_example :
    (true ∷ true ∷ false ∷ false ∷ [] ≡ set_answers b_calls (held mem_kv mem_laws empty))
    × ((c : BarrierKey)
        → IsColonFree c.gid
        → held mem_kv mem_laws (answers mem_kv b_calls empty).1 c
          ≡ set_after b_calls (held mem_kv mem_laws empty) c)
calls-refine-set_example =
    calls-refine-set mem_kv mem_laws b_calls empty (true ∷ true ∷ false ∷ false ∷ [])
      (refl, (refl, (refl, (refl, tt)))) b_calls_ok

mem-Answers : Answers mem_kv
unfolding Mem.get put
mem-Answers = record { get_returns = λ k s. (_, refl); put_returns = λ k v s. refl }

none_held : (c : BarrierKey) → held mem_kv mem_laws empty c ≡ false
unfolding empty lookup
none_held c = refl

unit_tests_pass_example :
    (test_barrier_key_generation ≡ true) × All (Passes mem_kv mem_laws empty) scripts
unit_tests_pass_example = unit_tests_pass mem_kv mem_laws empty mem-Answers none_held

barrier-repo_disjoint_example :
    (stored mem_kv mem_laws sample_serde (insert mem_kv b.gid b.branch_id b.phase s_saved).1 g
      ≡ stored mem_kv mem_laws sample_serde s_saved g)
    × (held mem_kv mem_laws (save mem_kv sample_serde t s_saved).1 b
        ≡ held mem_kv mem_laws s_saved b)
barrier-repo_disjoint_example = barrier-repo_disjoint mem_kv mem_laws sample_serde b t s_saved g

key_iff_example :
    (key (bytes "a:b") (bytes "c") try ≡ key (bytes "a") (bytes "b:c") confirm)
    ↔ ((joined (bytes "a:b") (bytes "c") ≡ joined (bytes "a") (bytes "b:c")) × (try ≡ confirm))
key_iff_example = key_iff (bytes "a:b") (bytes "a") (bytes "c") (bytes "b:c") try confirm

-- Both calls read before either writes; and one call after the other.
abbrev raced : List Turn
raced = first ∷ second ∷ first ∷ second ∷ []

raced_ok :
    (interleave mem_kv (key_of b) raced (called, called) empty).0
    ≡ ok (returned true, returned true)
unfolding interleave advance insert_found Mem.get empty put lookup
raced_ok = refl

calls_race_example :
    (is_held mem_kv mem_laws
        (key_of b)
        (interleave mem_kv (key_of b) raced (called, called) empty).1
      ≡ true)
    × ((true || true) ≡ true)
    × ((true && true) ≡ overlap raced)
unfolding lookup empty
calls_race_example = calls_race mem_kv mem_laws (key_of b) raced empty true true refl raced_ok
