-- ===== src/Repo/Starved.antt =====
-- A repository over a SQL table whose rows are not all transactions (seata-server/src/repo.rs,
-- seata-server/src/storage/sea_kv.rs): the barriers stand in the same table.
use seata.Base.{
  ℕ, zero, suc, ◌+◌, ◌≤◌, ◌≡◌, refl, sym, ◌∙◌, false, Option, some, List, [], ◌∷◌, ◌++◌, Bytes, ok,
  take, any, starts_with, length, arith, text_eq_refl,
}
use seata.Domain.{GlobalStatus, GlobalTxn}
use seata.Kv.Sea.{Model, Table, TableLaws, sea_kv, sea_laws, scan_prefix_starved}
use seata.Repo.{Serde, gid_prefix, add_usize, parse_rows, save, load, list}
use seata.Repo.Laws.{dyn_laws}
use seata.Repo.Pages.{drop-nil}

-- Rows before which there are enough others are not among the first.
none_among_first :
    (prefix : Bytes) (n : ℕ) (ms rest : List Model)
    → n ≤ length ms
    → any (λ m. starts_with m.k prefix) ms ≡ false
    → any (λ m. starts_with m.k prefix) (take n (ms ++ rest)) ≡ false
none_among_first prefix zero ms rest few h = refl
none_among_first prefix (suc n) [] rest few h = absurd (omega (arith, few))
none_among_first prefix (suc n) (m ∷ ms) rest few h =
    ground (arith, none_among_first prefix n ms rest (omega (arith, few)))

add_usize-le : (a b : ℕ) → add_usize a b ≤ a + b
add_usize-le a b = omega arith

module _ {S : Type 0} (db : Table S) (laws : TableLaws db) (serde : Serde) where
  -- Over a lawful SQL table that gives its first `n` rows where `n` are asked for: after a save that
  -- returns, a transaction is found by a load that returns, but a list returns nothing, whatever
  -- status it asks for, if at least as many rows as its offset and limit together stand first in
  -- the table under other keys than those of transactions, such as barriers.
  pub list_misses :
      (limit offset : ℕ) (status : Option GlobalStatus) (tx : GlobalTxn) (s : S)
      (ms rest : List Model) (r : Option GlobalTxn)
      → let kv = sea_kv db in
        let s1 = (save kv serde tx s).1 in
        (save kv serde tx s).0 ≡ ok tt
        → ((n : ℕ) → (db.all n s1).0 ≡ ok (take n (ms ++ rest)))
        → any (λ m. starts_with m.k gid_prefix) ms ≡ false
        → offset + limit ≤ length ms
        → (load kv serde tx.gid s1).0 ≡ ok r
        → (r ≡ some tx) × ((list kv serde limit offset status s1).0 ≡ ok [])
  unfolding list parse_rows
  list_misses limit offset status tx s ms rest r saved first others few loaded =
      let kv = sea_kv db in
      let s1 = (save kv serde tx s).1 in
      let repo = dyn_laws kv (sea_laws db laws) serde in
      let n = add_usize offset limit in
      let none_first : any (λ m. starts_with m.k gid_prefix) (take n (ms ++ rest)) ≡ false =
        none_among_first gid_prefix n ms rest (omega (arith, add_usize-le offset limit, few))
          others in
      let starved = scan_prefix_starved db gid_prefix n s1 _ (first n) none_first in
      (
        sym (repo.load_ok tx.gid s1 r loaded)
            ∙ (repo.save_ok tx s saved tx.gid ∙ rw (text_eq_refl tx.gid)),
        rw (starved, drop-nil offset),
      )
