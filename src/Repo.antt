-- ===== src/Repo.antt =====
-- seata-server/src/repo.rs: the trait `TxnRepo` with its contract, and `DynTxnRepo`, which keeps
-- each transaction as JSON in a KV store. `SledTxnRepo` has the same three bodies.
pub mod Laws
pub mod Pages
pub mod Starved
pub mod InMemory
use seata.Base.{
  ℕ, ◌+◌, ◌%◌, ◌^◌, ◌≡◌, ◌⊎◌, Bool, true, Option, none, some, List, [], ◌∷◌, ◌++◌, Text, Bytes,
  bytes, Result, ok, err, Io, lift, pure, ◌>>=◌, All, drop, text_eq, if◌then◌else◌,
}
use seata.Domain.{GlobalStatus, GlobalTxn, status_eq}
use seata.Kv.{Kv}

pub record TxnRepo (S : Type 0) : Type 0 where
  pub save : GlobalTxn → Io S (Unit {0})
  pub load : Text → Io S (Option GlobalTxn)
  pub list : ℕ → ℕ → Option GlobalStatus → Io S (List GlobalTxn)

-- `status.map(|s| s == tx.status).unwrap_or(true)`
abbrev pub has_status : Option GlobalStatus → GlobalTxn → Bool
has_status none tx = true
has_status (some s) tx = status_eq s tx.status

-- A repository is a map from gids to transactions. A save that fails may have been made or not.
pub record RepoLaws {S : Type 0} (repo : TxnRepo S) : Type 0 where
  pub stored : S → Text → Option GlobalTxn
  pub load_ok :
      (gid : Text) (s : S) (r : Option GlobalTxn) → (repo.load gid s).0 ≡ ok r → stored s gid ≡ r
  pub load_keeps : (gid : Text) (s : S) (j : Text) → stored (repo.load gid s).1 j ≡ stored s j
  pub save_ok :
      (tx : GlobalTxn) (s : S)
      → (repo.save tx s).0 ≡ ok tt
      → (j : Text)
      → stored (repo.save tx s).1 j ≡ (if text_eq tx.gid j then some tx else stored s j)
  pub save_either :
      (tx : GlobalTxn) (s : S) (j : Text)
      → (stored (repo.save tx s).1 j ≡ stored s j)
        ⊎ ((text_eq tx.gid j ≡ true) × (stored (repo.save tx s).1 j ≡ some tx))
  pub list_ok :
      (limit offset : ℕ) (status : Option GlobalStatus) (s : S) (txs : List GlobalTxn)
      → (repo.list limit offset status s).0 ≡ ok txs
      → All (λ tx. (has_status status tx ≡ true) × ((j : Text) × (stored s j ≡ some tx))) txs
  pub list_keeps :
      (limit offset : ℕ) (status : Option GlobalStatus) (s : S) (j : Text)
      → stored (repo.list limit offset status s).1 j ≡ stored s j

-- `serde_json` at `GlobalTxn`: what is written is read back.
pub record Serde : Type 0 where
  pub to_vec : GlobalTxn → Result Bytes
  pub from_slice : Bytes → Result GlobalTxn
  pub round_trip : (tx : GlobalTxn) (b : Bytes) → to_vec tx ≡ ok b → from_slice b ≡ ok tx

abbrev pub gid_prefix : Bytes
gid_prefix = bytes "gid:"

-- `format!("gid:{}", gid)`
abbrev pub gid_key : Text → Bytes
gid_key gid = gid_prefix ++ gid

-- `a + b` on `usize`, which wraps in a release build
abbrev pub add_usize : ℕ → ℕ → ℕ
add_usize a b = (a + b) % 2 ^ 64

module _ {S : Type 0} (kv : Kv S) (serde : Serde) where
  unfoldable pub save : GlobalTxn → Io S (Unit {0})
  save tx = do val ← lift (serde.to_vec tx); kv.put (gid_key tx.gid) val

  -- the value that `kv.get` returned, decoded
  abbrev pub decode : Option Bytes → Io S (Option GlobalTxn)
  decode none = pure none
  decode (some val) = do tx ← lift (serde.from_slice val); pure (some tx)

  unfoldable pub load : Text → Io S (Option GlobalTxn)
  load gid = do found ← kv.get (gid_key gid); decode found

-- the loop of `list` over the scanned values; the first that does not parse ends it
unfoldable pub parse_rows : Serde → Option GlobalStatus → List Bytes → Result (List GlobalTxn)
parse_rows serde status [] = ok []
parse_rows serde status (v ∷ vs) =
    let rest = parse_rows serde status vs in
    elim (serde.from_slice v) [
      | err e ↦ err e
      | ok tx ↦ elim rest [
        | err e ↦ err e
        | ok out ↦ if has_status status tx then ok (tx ∷ out) else ok out
      ]
    ]

module _ {S : Type 0} (kv : Kv S) (serde : Serde) where
  unfoldable pub list : ℕ → ℕ → Option GlobalStatus → Io S (List GlobalTxn)
  list limit offset status = do
    vals ← kv.scan_prefix gid_prefix (add_usize offset limit)
    lift (parse_rows serde status (drop offset vals))

  -- `DynTxnRepo` as a `TxnRepo`
  abbrev pub dyn_repo : TxnRepo S
  dyn_repo = record { save = save kv serde; load = load kv serde; list = list }

  -- `SledTxnRepo`, over a store of a type that is known when it is compiled
  abbrev pub sled_txn_repo : TxnRepo S
  sled_txn_repo = dyn_repo
