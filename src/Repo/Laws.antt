-- ===== src/Repo/Laws.antt =====
-- `DynTxnRepo` is a lawful repository over every lawful Kv store.
use seata.Base.{
  ℕ, ◌≡◌, sym, ◌∙◌, ◌⊎◌, inl, inr, true, Option, none, some, List, [], ◌∷◌, Text, Bytes, ok, err,
  All, drop, text_eq, if◌then◌else◌, arith, text_eq-append, starts_with_split, Result-cases,
  Bool-cases, All-drop,
}
use seata.Domain.{GlobalStatus, GlobalTxn}
use seata.Kv.{Kv, KvLaws, HasPrefix}
use seata.Repo.{
  RepoLaws, Serde, has_status, gid_prefix, gid_key, add_usize, save, load, list, parse_rows,
  dyn_repo,
}

abbrev pub decoded : Serde → Option Bytes → Option GlobalTxn
decoded serde none = none
decoded serde (some b) = elim (serde.from_slice b) [ ok tx ↦ some tx | err _ ↦ none ]

gid_key_eq : (g j : Text) → text_eq (gid_key g) (gid_key j) ≡ text_eq g j
gid_key_eq g j = text_eq-append gid_prefix g j

module _ {S : Type 0} (kv : Kv S) (laws : KvLaws kv) (serde : Serde) where
  -- The transaction that the store holds under a gid; `none` also where the value does not parse.
  abbrev pub stored : S → Text → Option GlobalTxn
  stored s gid = decoded serde (laws.find s (gid_key gid))

  pub load_ok :
      (gid : Text) (s : S) (r : Option GlobalTxn)
      → (load kv serde gid s).0 ≡ ok r
      → stored s gid ≡ r
  unfolding load
  load_ok gid s r h = elim (Result-cases (kv.get (gid_key gid) s).0) [
    | inl (v, e) ↦ let found = laws.get_ok (gid_key gid) s v e in ground arith
    | inr (m, e) ↦ ground arith
  ]

  pub load_keeps : (gid : Text) (s : S) (j : Text) → stored (load kv serde gid s).1 j ≡ stored s j
  unfolding load
  load_keeps gid s j =
      let same = laws.get_keeps (gid_key gid) s (gid_key j) in
      elim (Result-cases (kv.get (gid_key gid) s).0) [
        | inl (v, e) ↦ ground arith
        | inr (m, e) ↦ ground arith
      ]

  pub save_ok :
      (tx : GlobalTxn) (s : S)
      → (save kv serde tx s).0 ≡ ok tt
      → (j : Text)
      → stored (save kv serde tx s).1 j ≡ (if text_eq tx.gid j then some tx else stored s j)
  unfolding save
  save_ok tx s h j = elim (Result-cases (serde.to_vec tx)) [
    | inl (b, e) ↦
        let put = laws.put_ok (gid_key tx.gid) b s (ground arith) (gid_key j) in
        ground (arith, serde.round_trip tx b e, gid_key_eq tx.gid j)
    | inr (m, e) ↦ ground arith
  ]

  pub save_either :
      (tx : GlobalTxn) (s : S) (j : Text)
      → (stored (save kv serde tx s).1 j ≡ stored s j)
        ⊎ ((text_eq tx.gid j ≡ true) × (stored (save kv serde tx s).1 j ≡ some tx))
  unfolding save
  save_either tx s j = elim (Result-cases (serde.to_vec tx)) [
    | inl (b, e) ↦
        let put = laws.put_either (gid_key tx.gid) b s (gid_key j) in
        ground (arith, serde.round_trip tx b e, gid_key_eq tx.gid j)
    | inr (m, e) ↦ ground arith
  ]

  abbrev pub Listed : S → Option GlobalStatus → GlobalTxn → Type 0
  Listed s status tx = (has_status status tx ≡ true) × ((j : Text) × (stored s j ≡ some tx))

  parsed_is_stored :
      (s : S) (v : Bytes) (tx : GlobalTxn)
      → HasPrefix (laws.find s) gid_prefix v
      → serde.from_slice v ≡ ok tx
      → (j : Text) × (stored s j ≡ some tx)
  parsed_is_stored s v tx (k, p, at_k) e =
      let (j, split) = starts_with_split k gid_prefix p in (j, rw (← split) (ground arith))

  parse_rows-Listed :
      (s : S) (status : Option GlobalStatus) (vs : List Bytes) (txs : List GlobalTxn)
      → All (HasPrefix (laws.find s) gid_prefix) vs
      → parse_rows serde status vs ≡ ok txs
      → All (Listed s status) txs
  unfolding parse_rows
  parse_rows-Listed s status [] [] h e = tt
  parse_rows-Listed s status [] (tx ∷ txs) h e = cc
  parse_rows-Listed s status (v ∷ vs) txs h e = elim (Result-cases (serde.from_slice v)) [
    | inr (m, bad) ↦ absurd (ground arith)
    | inl (tx, good) ↦ elim (Result-cases (parse_rows serde status vs)) [
      | inr (m, bad) ↦ absurd (ground arith)
      | inl (out, rest) ↦
          let tail = parse_rows-Listed s status vs out h.1 rest in
          elim (Bool-cases (has_status status tx)) [
            | inl match ↦
                let here = parsed_is_stored s v tx h.0 good in
                let e' : tx ∷ out ≡ txs = ground arith in rw (← e') ((match, here), tail)
            | inr skip ↦ let e' : out ≡ txs = ground arith in rw (← e') tail
          ]
    ]
  ]

  -- Over a lawful store, every transaction that a returning `list` gives is stored and has the
  -- status asked for.
  pub list_ok :
      (limit offset : ℕ) (status : Option GlobalStatus) (s : S) (txs : List GlobalTxn)
      → (list kv serde limit offset status s).0 ≡ ok txs
      → All (Listed s status) txs
  unfolding list
  list_ok limit offset status s txs h =
      elim (Result-cases (kv.scan_prefix gid_prefix (add_usize offset limit) s).0) [
        | inl (vs, e) ↦
            parse_rows-Listed s status (drop offset vs) txs
              (All-drop _ offset vs (laws.scan_ok gid_prefix (add_usize offset limit) s vs e))
              (ground arith)
        | inr (m, e) ↦ absurd (ground arith)
      ]

  pub list_keeps :
      (limit offset : ℕ) (status : Option GlobalStatus) (s : S) (j : Text)
      → stored (list kv serde limit offset status s).1 j ≡ stored s j
  unfolding list
  list_keeps limit offset status s j =
      let n = add_usize offset limit in
      let same = laws.scan_keeps gid_prefix n s (gid_key j) in
      elim (Result-cases (kv.scan_prefix gid_prefix n s).0) [
        | inl (v, e) ↦ ground arith
        | inr (m, e) ↦ ground arith
      ]

  -- The contract of `TxnRepo`, met by `DynTxnRepo`.
  abbrev pub dyn_laws : RepoLaws (dyn_repo kv serde)
  dyn_laws = record {
    stored = stored;
    load_ok = load_ok;
    load_keeps = load_keeps;
    save_ok = save_ok;
    save_either = save_either;
    list_ok = list_ok;
    list_keeps = list_keeps;
  }

  -- Over a lawful store, a `load` that returns after a `save` that returned gives the transaction
  -- saved, under its gid, and under another gid what was stored there before.
  load-save :
      (tx : GlobalTxn) (s : S) (j : Text) (r : Option GlobalTxn)
      → (save kv serde tx s).0 ≡ ok tt
      → (load kv serde j (save kv serde tx s).1).0 ≡ ok r
      → r ≡ (if text_eq tx.gid j then some tx else stored s j)
  load-save tx s j r saved loaded =
      sym (load_ok j (save kv serde tx s).1 r loaded) ∙ save_ok tx s saved j
