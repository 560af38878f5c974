-- ===== src/Kv/Sled.antt =====
-- seata-server/src/storage/sled_kv.rs: the store on a sled database, over a parameter for sled as it
-- is called from a blocking task.
use seata.Base.{
  ℕ, zero, suc, ◌≡◌, ◌⊎◌, inl, inr, true, Option, none, some, List, [], ◌∷◌, Bytes, Result, ok, err,
  Io, All, text_eq, starts_with, if◌then◌else◌, ◌>>=◌, lift, Result-cases, arith, take, length, ◌≤◌,
}
use seata.Kv.{Kv, KvLaws, HasPrefix}

-- `db.get`, `db.insert`, `db.remove` and `db.scan_prefix`; a failure of the blocking task is an error
-- of the call. The iterator gives entries, or errors in their place.
pub record Db (S : Type 0) : Type 0 where
  pub db_get : Bytes → Io S (Option Bytes)
  pub db_insert : Bytes → Bytes → Io S (Unit {0})
  pub db_remove : Bytes → Io S (Unit {0})
  pub db_iter : Bytes → Io S (List (Result (Bytes × Bytes)))

-- The entry stands in the database, under a key with the prefix.
abbrev pub IsEntry : (Bytes → Option Bytes) → Bytes → Result (Bytes × Bytes) → Type 0
IsEntry find prefix (err e) = Unit
IsEntry find prefix (ok (k, v)) = (starts_with k prefix ≡ true) × (find k ≡ some v)

-- A database is a map; a write that fails may have been made.
pub record DbLaws {S : Type 0} (db : Db S) : Type 0 where
  pub find : S → Bytes → Option Bytes
  pub read : (k : Bytes) (s : S) (v : Option Bytes) → (db.db_get k s).0 ≡ ok v → find s k ≡ v
  pub read_keeps : (k : Bytes) (s : S) (j : Bytes) → find (db.db_get k s).1 j ≡ find s j
  pub inserted :
      (k v : Bytes) (s : S)
      → (db.db_insert k v s).0 ≡ ok tt
      → (j : Bytes) → find (db.db_insert k v s).1 j ≡ (if text_eq k j then some v else find s j)
  pub inserted_or_not :
      (k v : Bytes) (s : S) (j : Bytes)
      → (find (db.db_insert k v s).1 j ≡ find s j)
        ⊎ ((text_eq k j ≡ true) × (find (db.db_insert k v s).1 j ≡ some v))
  pub removed :
      (k : Bytes) (s : S)
      → (db.db_remove k s).0 ≡ ok tt
      → (j : Bytes) → find (db.db_remove k s).1 j ≡ (if text_eq k j then none else find s j)
  pub iterated :
      (prefix : Bytes) (s : S) (items : List (Result (Bytes × Bytes)))
      → (db.db_iter prefix s).0 ≡ ok items
      → All (IsEntry (find s) prefix) items
  pub iterated_keeps :
      (prefix : Bytes) (s : S) (j : Bytes) → find (db.db_iter prefix s).1 j ≡ find s j

-- `for item in … { let (_k, v) = item?; out.push(v.to_vec()); }`
unfoldable pub collect : List (Result (Bytes × Bytes)) → Result (List Bytes)
collect [] = ok []
collect (item ∷ items) =
    let rest = collect items in
    elim item [ err e ↦ err e | ok (k, v) ↦ elim rest [ err e ↦ err e | ok out ↦ ok (v ∷ out) ] ]

module _ {S : Type 0} (db : Db S) where
  unfoldable pub scan_prefix : Bytes → ℕ → Io S (List Bytes)
  scan_prefix prefix limit = do items ← db.db_iter prefix; lift (collect (take limit items))

  abbrev pub sled_kv : Kv S
  sled_kv = record {
    get = db.db_get;
    put = db.db_insert;
    delete = db.db_remove;
    scan_prefix = scan_prefix;
  }

collect_lem :
    (find : Bytes → Option Bytes) (prefix : Bytes) (limit : ℕ)
    (items : List (Result (Bytes × Bytes))) (vs : List Bytes)
    → All (IsEntry find prefix) items
    → collect (take limit items) ≡ ok vs
    → All (HasPrefix find prefix) vs × (length vs ≤ limit)
unfolding collect
collect_lem find prefix zero items vs h e = let nil : [] ≡ vs = cc in rw (← nil) (tt, omega arith)
collect_lem find prefix (suc n) [] vs h e = let nil : [] ≡ vs = cc in rw (← nil) (tt, omega arith)
collect_lem find prefix (suc n) (err x ∷ items) vs h e = absurd (ground arith)
collect_lem find prefix (suc n) (ok (k, v) ∷ items) vs h e =
    elim (Result-cases (collect (take n items))) [
      | inr (x, bad) ↦ absurd (ground arith)
      | inl (out, good) ↦
          let same : v ∷ out ≡ vs = ground arith in
          let (all, short) = collect_lem find prefix n items out h.1 good in
          rw (← same) (((k, h.0.0, h.0.1), all), omega (arith, short))
    ]

module _ {S : Type 0} (db : Db S) (laws : DbLaws db) where
  -- Over a lawful database, a scan that returns gives at most `limit` values, each stored under a
  -- key with the prefix.
  pub scan_prefix_lem :
      (prefix : Bytes) (limit : ℕ) (s : S) (vs : List Bytes)
      → (scan_prefix db prefix limit s).0 ≡ ok vs
      → All (HasPrefix (laws.find s) prefix) vs × (length vs ≤ limit)
  unfolding scan_prefix
  scan_prefix_lem prefix limit s vs h = elim (Result-cases (db.db_iter prefix s).0) [
    | inl (items, e) ↦
        collect_lem (laws.find s) prefix limit items vs (laws.iterated prefix s items e)
          (ground arith)
    | inr (x, e) ↦ absurd (ground arith)
  ]

  pub scan_keeps :
      (prefix : Bytes) (limit : ℕ) (s : S) (j : Bytes)
      → laws.find (scan_prefix db prefix limit s).1 j ≡ laws.find s j
  unfolding scan_prefix
  scan_keeps prefix limit s j =
      let same = laws.iterated_keeps prefix s j in
      elim (Result-cases (db.db_iter prefix s).0) [
        | inl (r, e) ↦ ground arith
        | inr (x, e) ↦ ground arith
      ]

  -- The contract of `KV`, met by `SledKv`.
  abbrev pub sled_laws : KvLaws (sled_kv db)
  sled_laws = record {
    find = laws.find;
    get_ok = laws.read;
    get_keeps = laws.read_keeps;
    put_ok = laws.inserted;
    put_either = laws.inserted_or_not;
    scan_ok = λ prefix limit s vs e. (scan_prefix_lem prefix limit s vs e).0;
    scan_keeps = scan_keeps;
  }
