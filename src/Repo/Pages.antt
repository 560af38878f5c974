-- ===== src/Repo/Pages.antt =====
-- The pages of `list` (seata-server/src/repo.rs): offset and limit are counted in rows, their sum
-- wraps around, and the status is looked at last.
use seata.Base.{
  ℕ, zero, suc, ◌+◌, ◌^◌, ◌≤◌, ◌<◌, ◌≡◌, refl, sym, ap, false, inl, inr, Option, List, [], ◌∷◌,
  Bytes, ok, take, drop, keep, ltb, if◌then◌else◌, arith, Bool-cases,
}
use seata.Domain.{GlobalStatus, GlobalTxn}
use seata.Kv.{Kv}
use seata.Repo.{Serde, has_status, gid_prefix, add_usize, parse_rows, list}

suc_add : (m n : ℕ) → suc m + n ≡ suc (m + n)
suc_add m n = omega arith

module _ {ℓ} {A : Type ℓ} where
  pub drop-nil : (n : ℕ) → drop {A = A} n [] ≡ []
  drop-nil zero = refl
  drop-nil (suc n) = refl

  take-nil : (n : ℕ) → take {A = A} n [] ≡ []
  take-nil zero = refl
  take-nil (suc n) = refl

  -- A window of rows.
  drop-take : (m n : ℕ) (xs : List A) → drop m (take (m + n) xs) ≡ take n (drop m xs)
  drop-take zero n xs = ap (λ k. take k xs) (omega arith)
  drop-take (suc m) n [] = rw (suc_add m n) (sym (take-nil n))
  drop-take (suc m) n (x ∷ xs) = rw (suc_add m n) (drop-take m n xs)

  -- A window that ends before it begins.
  drop-take_short : (m n : ℕ) (xs : List A) → n ≤ m → drop m (take n xs) ≡ []
  drop-take_short m zero xs h = drop-nil m
  drop-take_short zero (suc n) xs h = absurd (omega (arith, h))
  drop-take_short (suc m) (suc n) [] h = refl
  drop-take_short (suc m) (suc n) (x ∷ xs) h = drop-take_short m n xs (omega (arith, h))

-- The rows hold these transactions.
abbrev pub Decodes : Serde → List Bytes → List GlobalTxn → Type 0
Decodes serde [] [] = Unit
Decodes serde [] (tx ∷ txs) = ⊥
Decodes serde (v ∷ vs) [] = ⊥
Decodes serde (v ∷ vs) (tx ∷ txs) = (serde.from_slice v ≡ ok tx) × Decodes serde vs txs

module _ (serde : Serde) where
  Decodes-take :
      (n : ℕ) (vs : List Bytes) (txs : List GlobalTxn)
      → Decodes serde vs txs
      → Decodes serde (take n vs) (take n txs)
  Decodes-take zero vs txs h = tt
  Decodes-take (suc n) [] [] h = tt
  Decodes-take (suc n) [] (tx ∷ txs) h = absurd h
  Decodes-take (suc n) (v ∷ vs) [] h = absurd h
  Decodes-take (suc n) (v ∷ vs) (tx ∷ txs) h = (h.0, Decodes-take n vs txs h.1)

  Decodes-drop :
      (n : ℕ) (vs : List Bytes) (txs : List GlobalTxn)
      → Decodes serde vs txs
      → Decodes serde (drop n vs) (drop n txs)
  Decodes-drop zero vs txs h = h
  Decodes-drop (suc n) [] [] h = tt
  Decodes-drop (suc n) [] (tx ∷ txs) h = absurd h
  Decodes-drop (suc n) (v ∷ vs) [] h = absurd h
  Decodes-drop (suc n) (v ∷ vs) (tx ∷ txs) h = Decodes-drop n vs txs h.1

  parse_rows_lem :
      (status : Option GlobalStatus) (vs : List Bytes) (txs : List GlobalTxn)
      → Decodes serde vs txs
      → parse_rows serde status vs ≡ ok (keep (has_status status) txs)
  unfolding parse_rows
  parse_rows_lem status [] [] h = refl
  parse_rows_lem status [] (tx ∷ txs) h = absurd h
  parse_rows_lem status (v ∷ vs) [] h = absurd h
  parse_rows_lem status (v ∷ vs) (tx ∷ txs) h =
      let rest = parse_rows_lem status vs txs h.1 in
      elim (Bool-cases (has_status status tx)) [
        | inl match ↦ rw (parse_rows, h.0, rest, match)
        | inr skip ↦ rw (parse_rows, h.0, rest, skip)
      ]

-- The rows of a page: none, where offset and limit together exceed what a `usize` holds.
abbrev pub page : ℕ → ℕ → List GlobalTxn → List GlobalTxn
page limit offset txs = if ltb (offset + limit) (2 ^ 64) then take limit (drop offset txs) else []

wrapped :
    (limit offset : ℕ)
    → limit < 2 ^ 64
    → ltb (offset + limit) (2 ^ 64) ≡ false
    → add_usize offset limit ≤ offset
wrapped limit offset l h =
    let over : 2 ^ 64 ≤ offset + limit = ground arith in omega (arith, l, over)

window :
    (limit offset : ℕ) (txs : List GlobalTxn)
    → limit < 2 ^ 64
    → offset < 2 ^ 64
    → drop offset (take (add_usize offset limit) txs) ≡ page limit offset txs
window limit offset txs l o = elim (Bool-cases (ltb (offset + limit) (2 ^ 64))) [
  | inl fits ↦
      let same : add_usize offset limit ≡ offset + limit = ground arith in
      rw (fits, same) (drop-take offset limit txs)
  | inr wraps ↦
      rw wraps (drop-take_short offset (add_usize offset limit) txs (wrapped limit offset l wraps))
]

module _ {S : Type 0} (kv : Kv S) (serde : Serde) where
  -- Over a store in which a scan of up to `n` rows returns the first `n`, and whose rows are
  -- transactions, `list` returns those among the `limit` rows after the first `offset` that have the
  -- status asked for: the filter does not look beyond them for more. Where offset and limit together
  -- exceed the range of a `usize`, it returns nothing, however many transactions there are.
  pub list_pages :
      (limit offset : ℕ) (status : Option GlobalStatus) (s : S) (rows : List Bytes)
      (txs : List GlobalTxn)
      → limit < 2 ^ 64
      → offset < 2 ^ 64
      → ((n : ℕ) → (kv.scan_prefix gid_prefix n s).0 ≡ ok (take n rows))
      → Decodes serde rows txs
      → (list kv serde limit offset status s).0
        ≡ ok (keep (has_status status) (page limit offset txs))
  unfolding list
  list_pages limit offset status s rows txs l o scanned decodes =
      let n = add_usize offset limit in
      let found = Decodes-drop serde offset _ _ (Decodes-take serde n rows txs decodes) in
      rw (scanned n, parse_rows_lem serde status _ _ found, window limit offset txs l o)
