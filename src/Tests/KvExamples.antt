-- ===== src/Tests/KvExamples.antt =====
-- The theorems on the storage backends (seata-server/src/storage/) over the servers of
-- Tests/Servers.antt and Tests/RedisServer.antt.
use seata.Kv.Redis.{replied}
use seata.Kv.Redis.Pipeline.{scan_prefix_loses}
use seata.Tests.RedisServer.{client-OnePerCommand}
use seata.Base.{ℕ, ◌++◌, take}
use seata.Kv.Sea.{sea_kv}
use seata.Repo.{save, load, list, gid_key}
use seata.Repo.Starved.{list_misses}
use seata.Tests.Codec.{sample_serde, encode, from_slice}
use seata.Tests.Samples.{t}
use seata.Base.{
  none, Option, ◌≡◌, ◌≤◌, refl, some, List, [], ◌∷◌, Bytes, bytes, ok, length, text_eq, arith,
}
use seata.Kv.Mem.{MemMap, empty, insert, put, lookup}
use seata.Kv.Mem
use seata.Kv.Sea
use seata.Kv.Sea.{Model, put_lem}
use seata.Kv.Sled
use seata.Kv.Sled.{scan_prefix_lem}
use seata.Kv.Redis
use seata.Kv.Redis.Scan.{scan_prefix_ends}
use seata.Kv.Calls.{KvCall, calls_get, calls_put, calls_delete, answers, map_answers, map_after}
use seata.Kv.Calls.Stores.{Stored, sea, cells_of, find_in, stores_refine_map}
use seata.Tests.Servers.{table_laws, db, table, iter, one, write, all_rows}
use seata.Tests.RedisServer.{client, client_laws, scan}

-- One value under "gid:a", and one under "barrier:x" before it.
abbrev s : MemMap
s = (put (bytes "gid:a") (bytes "1") (put (bytes "barrier:x") [] empty).1).1

scanned_sled : (Sled.scan_prefix db (bytes "gid:") 5 s).0 ≡ ok (bytes "1" ∷ [])
unfolding Sled.scan_prefix iter put empty insert text_eq Sled.collect
scanned_sled = refl

put_row : (Sea.put table (bytes "gid:a") (bytes "2") s).0 ≡ ok tt
unfolding Sea.put Sea.put_found one write put empty insert text_eq lookup
put_row = refl

-- A barrier, and a transaction after it.
abbrev with_barrier : MemMap
with_barrier = (put (bytes "barrier:x") [] empty).1

abbrev with_txn : MemMap
with_txn = (save (sea_kv table) sample_serde t with_barrier).1

txn_saved : (save (sea_kv table) sample_serde t with_barrier).0 ≡ ok tt
unfolding save encode Sea.put Sea.put_found one write put empty insert text_eq lookup
txn_saved = refl

txn_loaded : (load (sea_kv table) sample_serde t.gid with_txn).0 ≡ ok (some t)
unfolding save load encode from_slice Sea.get Sea.put Sea.put_found one write put empty insert
    text_eq lookup
txn_loaded = refl

-- The two rows, and the first ones.
abbrev first_rows : List Model
first_rows = record { k = bytes "barrier:x"; v = [] } ∷ []

abbrev last_rows : List Model
last_rows = record { k = gid_key t.gid; v = encode t } ∷ []

rows_given : (n : ℕ) → (table.all n with_txn).0 ≡ ok (take n (first_rows ++ last_rows))
unfolding all_rows save encode Sea.put Sea.put_found one write put empty insert text_eq lookup
rows_given n = refl

list_misses_example :
    (some t ≡ some t) × ((list (sea_kv table) sample_serde 1 0 none with_txn).0 ≡ ok [])
list_misses_example =
    list_misses table table_laws sample_serde 1 0 none t with_barrier first_rows last_rows (some t)
      txn_saved rows_given refl (omega arith) txn_loaded

-- The value found under "gid:a" is the text "1", but what comes back is the byte 1.
scanned_redis : (Redis.scan_prefix client 1 (bytes "gid:") 5 s).0 ≡ ok (some ((1 ∷ []) ∷ []))
unfolding Redis.scan_prefix Redis.scan_loop Redis.after_scan Redis.fetch Redis.push_values
    Redis.chunks_from scan put empty insert text_eq lookup
scanned_redis = refl

-- The one reply of `SCAN`.
scanned_keys : (client.cmd_scan 0 (bytes "gid:*") s).0 ≡ replied (ok (0, bytes "gid:a" ∷ []))
unfolding scan put empty insert text_eq lookup
scanned_keys = refl

scan_prefix_loses_example : (vs : List Bytes) × (some ((1 ∷ []) ∷ []) ≡ some vs) × (length vs ≤ 1)
scan_prefix_loses_example =
    scan_prefix_loses client (bytes "gid:") 5 0 s (bytes "gid:a" ∷ []) (some ((1 ∷ []) ∷ []))
      client-OnePerCommand scanned_keys (omega arith) scanned_redis

scan_prefix_ends_example : (vs : List Bytes) × (some ((1 ∷ []) ∷ []) ≡ some vs) × (length vs ≤ 5)
scan_prefix_ends_example =
    scan_prefix_ends client client_laws (bytes "gid:") 5 1 s (some ((1 ∷ []) ∷ [])) (omega arith)
      scanned_redis

-- A row is written, read, written again, read, deleted, and read.
abbrev row_calls : List KvCall
row_calls =
    calls_put (bytes "a") (bytes "1")
    ∷ calls_get (bytes "a")
    ∷ calls_put (bytes "a") (bytes "2")
    ∷ calls_get (bytes "a")
    ∷ calls_delete (bytes "a")
    ∷ calls_get (bytes "a")
    ∷ []

abbrev row_answers : List (Option Bytes)
row_answers = none ∷ some (bytes "1") ∷ none ∷ some (bytes "2") ∷ none ∷ none ∷ []

abbrev sql : Stored
sql = sea table table_laws

row_calls_return : (answers (cells_of sql) row_calls s).0 ≡ ok row_answers
unfolding answers Sea.get Sea.put Sea.put_found Sea.delete Sea.delete_found one write put empty
    insert text_eq lookup Mem.delete Mem.remove
row_calls_return = refl

stores_refine_map_example :
    (row_answers ≡ map_answers row_calls (find_in sql s))
    × ((j : Bytes)
        → find_in sql (answers (cells_of sql) row_calls s).1 j
          ≡ map_after row_calls (find_in sql s) j)
stores_refine_map_example = stores_refine_map sql row_calls s row_answers row_calls_return
