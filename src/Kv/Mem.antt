-- ===== src/Kv/Mem.antt =====
-- `TestKV` of seata-server/src/test_utils.rs (the tests of saga.rs and barrier.rs have the same
-- store): a hash map behind a lock. A hash map has no duplicate keys; its order of iteration is
-- unspecified, and is here the order of first insertion.
use mathlib.Core.Path.{subst}
use seata.Base.{
  ℕ, ◌≡◌, refl, ◌∙◌, sym, true, Option, none, some, List, [], ◌∷◌, ◌++◌, Bytes, ok, Io, All,
  All-append, All-if, text_eq, text_eq→eq, text_eq_refl, text_eq_iff, starts_with, leb, length,
  if◌then◌else◌, Bool-cases, inl, inr, arith, ◌⊎◌,
}
use seata.Kv.{Kv, KvLaws, HasPrefix}

abbrev pub Entries : Type 0
Entries = List (Bytes × Bytes)

unfoldable pub lookup : Bytes → Entries → Option Bytes
lookup k [] = none
lookup k ((j, v) ∷ l) = if text_eq j k then some v else lookup k l

unfoldable pub insert : Bytes → Bytes → Entries → Entries
insert k v [] = (k, v) ∷ []
insert k v ((j, w) ∷ l) = if text_eq j k then (j, v) ∷ l else (j, w) ∷ insert k v l

unfoldable pub remove : Bytes → Entries → Entries
remove k [] = []
remove k ((j, w) ∷ l) = if text_eq j k then l else (j, w) ∷ remove k l

abbrev pub IsUnique : Entries → Type 0
IsUnique [] = Unit
IsUnique ((k, v) ∷ l) = (lookup k l ≡ none) × IsUnique l

lookup-insert :
    (k j v : Bytes) (l : Entries)
    → lookup j (insert k v l) ≡ (if text_eq k j then some v else lookup j l)
unfolding lookup insert
lookup-insert k j v [] = refl
lookup-insert k j v ((i, w) ∷ l) =
    ground (arith, text_eq_iff k j, text_eq_iff i k, text_eq_iff i j, lookup-insert k j v l)

lookup-remove-ne : (k j : Bytes) (l : Entries) → lookup j l ≡ none → lookup j (remove k l) ≡ none
unfolding lookup remove
lookup-remove-ne k j [] h = refl
lookup-remove-ne k j ((i, w) ∷ l) h = ground (arith, lookup-remove-ne k j l)

lookup-remove :
    (k j : Bytes) (l : Entries)
    → IsUnique l
    → lookup j (remove k l) ≡ (if text_eq k j then none else lookup j l)
unfolding lookup remove
lookup-remove k j [] u = ground arith
lookup-remove k j ((i, w) ∷ l) u =
    ground (arith, text_eq_iff k j, text_eq_iff i k, text_eq_iff i j, lookup-remove k j l u.1, u.0)

pub insert-IsUnique : (k v : Bytes) (l : Entries) → IsUnique l → IsUnique (insert k v l)
unfolding insert
insert-IsUnique k v [] u = (unfold lookup in refl, tt)
insert-IsUnique k v ((i, w) ∷ l) u =
    ground
      (arith, insert-IsUnique k v l u.1, lookup-insert k i v l, text_eq_iff i k, text_eq_iff k i)

pub remove-IsUnique : (k : Bytes) (l : Entries) → IsUnique l → IsUnique (remove k l)
unfolding remove
remove-IsUnique k [] u = tt
remove-IsUnique k ((i, w) ∷ l) u = ground (arith, remove-IsUnique k l u.1, lookup-remove-ne k i l)

pub record MemMap : Type 0 where
  pub entries : Entries
  pub unique : IsUnique entries

unfoldable pub empty : MemMap
empty = record { entries = []; unique = tt }

-- the loop of `scan_prefix`: the limit is tested after each entry
unfoldable pub scan_from : Bytes → ℕ → List Bytes → Entries → List Bytes
scan_from prefix limit out [] = out
scan_from prefix limit out ((k, v) ∷ l) =
    let out' = if starts_with k prefix then out ++ v ∷ [] else out in
    let rest = scan_from prefix limit out' l in if leb limit (length out') then out' else rest

unfoldable pub get : Bytes → Io MemMap (Option Bytes)
get k s = (ok (lookup k s.entries), s)

unfoldable pub put : Bytes → Bytes → Io MemMap (Unit {0})
put k v s = (
  ok tt,
  record { entries = insert k v s.entries; unique = insert-IsUnique k v s.entries s.unique },
)

unfoldable pub delete : Bytes → Io MemMap (Unit {0})
delete k s =
    (ok tt, record { entries = remove k s.entries; unique = remove-IsUnique k s.entries s.unique })

unfoldable pub scan_prefix : Bytes → ℕ → Io MemMap (List Bytes)
scan_prefix prefix limit s = (ok (scan_from prefix limit [] s.entries), s)

abbrev pub mem_kv : Kv MemMap
mem_kv = record { get = get; put = put; delete = delete; scan_prefix = scan_prefix }

none≢some : {w : Bytes} → none ≡ some w → ⊥
none≢some e = cc

pub later :
    (k v : Bytes) (l : Entries) (j w : Bytes)
    → lookup k l ≡ none
    → lookup j l ≡ some w
    → lookup j ((k, v) ∷ l) ≡ some w
unfolding lookup
later k v l j w fresh e = elim (Bool-cases (text_eq k j)) [
  | inl same ↦
      absurd
        (let e' : lookup k l ≡ some w = rw (text_eq→eq k j same) e in none≢some (sym fresh ∙ e'))
  | inr other ↦ rw other e
]

put_cases :
    (k v : Bytes) (l : Entries) (j : Bytes)
    → (lookup j (insert k v l) ≡ lookup j l)
      ⊎ ((text_eq k j ≡ true) × (lookup j (insert k v l) ≡ some v))
put_cases k v l j = elim (Bool-cases (text_eq k j)) [
  | inl same ↦ inr (same, lookup-insert k j v l ∙ rw same)
  | inr other ↦ inl (lookup-insert k j v l ∙ rw other)
]

-- Every entry of a map with unique keys is found.
scan_from-HasPrefix :
    (find : Bytes → Option Bytes) (prefix : Bytes) (limit : ℕ) (out : List Bytes) (l : Entries)
    → ((k v : Bytes) → lookup k l ≡ some v → find k ≡ some v)
    → IsUnique l
    → All (HasPrefix find prefix) out
    → All (HasPrefix find prefix) (scan_from prefix limit out l)
unfolding scan_from
scan_from-HasPrefix find prefix limit out [] f u h = h
scan_from-HasPrefix find prefix limit out ((k, v) ∷ l) f u h =
    let out' = if starts_with k prefix then out ++ v ∷ [] else out in
    let found : find k ≡ some v = f k v (unfold lookup in rw (text_eq_refl k)) in
    let now : All (HasPrefix find prefix) out' = elim (Bool-cases (starts_with k prefix)) [
      | inl p ↦ rw p (All-append _ out (v ∷ []) h ((k, p, found), tt))
      | inr p ↦ rw p h
    ] in
    let rest =
      scan_from-HasPrefix find prefix limit out' l (λ j w e. f j w (later k v l j w u.0 e)) u.1
        now in
    All-if _ (leb limit (length out')) out' (scan_from prefix limit out' l) now rest

pub get_ok :
    (k : Bytes) (s : MemMap) (v : Option Bytes) → (get k s).0 ≡ ok v → lookup k s.entries ≡ v
unfolding get
get_ok k s v h = cc

pub get_keeps :
    (k : Bytes) (s : MemMap) (j : Bytes) → lookup j (get k s).1.entries ≡ lookup j s.entries
unfolding get
get_keeps k s j = refl

pub put_ok :
    (k v : Bytes) (s : MemMap)
    → (put k v s).0 ≡ ok tt
    → (j : Bytes)
    → lookup j (put k v s).1.entries ≡ (if text_eq k j then some v else lookup j s.entries)
unfolding put
put_ok k v s h j = lookup-insert k j v s.entries

pub put_either :
    (k v : Bytes) (s : MemMap) (j : Bytes)
    → (lookup j (put k v s).1.entries ≡ lookup j s.entries)
      ⊎ ((text_eq k j ≡ true) × (lookup j (put k v s).1.entries ≡ some v))
unfolding put
put_either k v s j = put_cases k v s.entries j

pub delete_ok :
    (k : Bytes) (s : MemMap)
    → (delete k s).0 ≡ ok tt
    → (j : Bytes)
    → lookup j (delete k s).1.entries ≡ (if text_eq k j then none else lookup j s.entries)
unfolding delete
delete_ok k s h j = lookup-remove k j s.entries s.unique

pub scan_ok :
    (prefix : Bytes) (limit : ℕ) (s : MemMap) (vs : List Bytes)
    → (scan_prefix prefix limit s).0 ≡ ok vs
    → All (HasPrefix (λ k. lookup k s.entries) prefix) vs
unfolding scan_prefix
scan_ok prefix limit s vs h =
    let e : scan_from prefix limit [] s.entries ≡ vs = cc in
    subst (All (HasPrefix (λ k. lookup k s.entries) prefix)) e (
      scan_from-HasPrefix (λ k. lookup k s.entries) prefix limit [] s.entries (λ k v f. f) s.unique
        tt)

pub scan_keeps :
    (prefix : Bytes) (limit : ℕ) (s : MemMap) (j : Bytes)
    → lookup j (scan_prefix prefix limit s).1.entries ≡ lookup j s.entries
unfolding scan_prefix
scan_keeps prefix limit s j = refl

-- The contract of `Kv`, met by the store of the tests.
abbrev pub mem_laws : KvLaws mem_kv
mem_laws = record {
  find = λ s k. lookup k s.entries;
  get_ok = get_ok;
  get_keeps = get_keeps;
  put_ok = put_ok;
  put_either = put_either;
  scan_ok = scan_ok;
  scan_keeps = scan_keeps;
}
