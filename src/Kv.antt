-- ===== src/Kv.antt =====
-- seata-server/src/storage/mod.rs: the trait `KV`, and the contract that its callers rely on.
pub mod Mem
pub mod Sea
pub mod Sled
pub mod Redis
pub mod Calls
use seata.Base.{
  ℕ, ◌≡◌, ◌⊎◌, Option, none, some, List, Bytes, Result, ok, Io, All, text_eq, starts_with,
  if◌then◌else◌, Bool, true, false,
}

pub record Kv (S : Type 0) : Type 0 where
  pub get : Bytes → Io S (Option Bytes)
  pub put : Bytes → Bytes → Io S (Unit {0})
  pub delete : Bytes → Io S (Unit {0})
  pub scan_prefix : Bytes → ℕ → Io S (List Bytes)

-- A value that is stored under a key with this prefix.
abbrev pub HasPrefix : (Bytes → Option Bytes) → Bytes → Bytes → Type 0
HasPrefix find prefix v = (k : Bytes) × (starts_with k prefix ≡ true) × (find k ≡ some v)

-- A store is a map from keys to values. A write that fails may have reached the store or not.
pub record KvLaws {S : Type 0} (kv : Kv S) : Type 0 where
  pub find : S → Bytes → Option Bytes
  pub get_ok : (k : Bytes) (s : S) (v : Option Bytes) → (kv.get k s).0 ≡ ok v → find s k ≡ v
  pub get_keeps : (k : Bytes) (s : S) (j : Bytes) → find (kv.get k s).1 j ≡ find s j
  pub put_ok :
      (k v : Bytes) (s : S)
      → (kv.put k v s).0 ≡ ok tt
      → (j : Bytes) → find (kv.put k v s).1 j ≡ (if text_eq k j then some v else find s j)
  pub put_either :
      (k v : Bytes) (s : S) (j : Bytes)
      → (find (kv.put k v s).1 j ≡ find s j)
        ⊎ ((text_eq k j ≡ true) × (find (kv.put k v s).1 j ≡ some v))
  pub scan_ok :
      (prefix : Bytes) (limit : ℕ) (s : S) (vs : List Bytes)
      → (kv.scan_prefix prefix limit s).0 ≡ ok vs
      → All (HasPrefix (find s) prefix) vs
  pub scan_keeps :
      (prefix : Bytes) (limit : ℕ) (s : S) (j : Bytes)
      → find (kv.scan_prefix prefix limit s).1 j ≡ find s j
