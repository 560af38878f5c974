-- ===== src/Tests/Servers.antt =====
-- Small servers in the place of sled and of a SQL table, over the map of Kv/Mem.antt: each
-- answers every call and keeps the contract that its backend relies on.
use seata.Base.{
  ℕ, zero, suc, ◌≡◌, ◌⊎◌, inl, inr, refl, Bool, true, false, Option, none, some, List, [], ◌∷◌,
  Bytes, bytes, Result, ok, err, Io, All, take, text_eq, text_eq_refl, starts_with, if◌then◌else◌,
  arith, Bool-cases, Option-cases,
}
use seata.Kv.Mem.{MemMap, Entries, IsUnique, lookup, insert, put, get, put_ok, put_either, later}
use seata.Kv.Mem
use seata.Kv.Sea.{Model, Table, TableLaws}
use seata.Kv.Sled.{Db, DbLaws, IsEntry}

abbrev pub find : MemMap → Bytes → Option Bytes
find s k = lookup k s.entries

-- Every entry is found.
All-found :
    (found : Bytes → Option Bytes) (l : Entries)
    → ((k v : Bytes) → lookup k l ≡ some v → found k ≡ some v)
    → IsUnique l
    → All (λ e. found e.0 ≡ some e.1) l
All-found found [] f u = tt
All-found found ((k, v) ∷ l) f u = (
  f k v (unfold lookup in rw (text_eq_refl k)),
  All-found found l (λ j w e. f j w (later k v l j w u.0 e)) u.1,
)

pub entries_found : (s : MemMap) → All (λ e. find s e.0 ≡ some e.1) s.entries
entries_found s = All-found (find s) s.entries (λ k v e. e) s.unique

entries_under : Bytes → Entries → List (Result (Bytes × Bytes))
entries_under prefix [] = []
entries_under prefix ((k, v) ∷ l) =
    let rest = entries_under prefix l in if starts_with k prefix then ok (k, v) ∷ rest else rest

entries_under-IsEntry :
    (found : Bytes → Option Bytes) (prefix : Bytes) (l : Entries)
    → All (λ e. found e.0 ≡ some e.1) l
    → All (IsEntry found prefix) (entries_under prefix l)
unfolding entries_under
entries_under-IsEntry found prefix [] h = tt
entries_under-IsEntry found prefix ((k, v) ∷ l) h =
    let rest = entries_under-IsEntry found prefix l h.1 in
    elim (Bool-cases (starts_with k prefix)) [ inl p ↦ rw p ((p, h.0), rest) | inr p ↦ rw p rest ]

unfoldable pub iter : Bytes → Io MemMap (List (Result (Bytes × Bytes)))
unfolding entries_under
iter prefix s = (ok (entries_under prefix s.entries), s)

pub iter_ok :
    (prefix : Bytes) (s : MemMap) (items : List (Result (Bytes × Bytes)))
    → (iter prefix s).0 ≡ ok items
    → All (IsEntry (find s) prefix) items
unfolding iter
iter_ok prefix s items e =
    let same : entries_under prefix s.entries ≡ items = cc in
    rw (← same) (entries_under-IsEntry (find s) prefix s.entries (entries_found s))

pub iter_keeps : (prefix : Bytes) (s : MemMap) (j : Bytes) → find (iter prefix s).1 j ≡ find s j
unfolding iter
iter_keeps prefix s j = refl

abbrev pub db : Db MemMap
db = record { db_get = get; db_insert = put; db_remove = Mem.delete; db_iter = iter }

abbrev pub db_laws : DbLaws db
db_laws = record {
  find = find;
  read = Mem.get_ok;
  read_keeps = Mem.get_keeps;
  inserted = put_ok;
  inserted_or_not = put_either;
  removed = Mem.delete_ok;
  iterated = iter_ok;
  iterated_keeps = iter_keeps;
}

-- `SELECT … WHERE k = …`, `INSERT`, `UPDATE` and `SELECT … LIMIT n`
row_of : Bytes → Option Bytes → Option Model
row_of k none = none
row_of k (some v) = some (record { k = k; v = v })

unfoldable pub one : Bytes → Io MemMap (Option Model)
unfolding row_of
one k s = (ok (row_of k (lookup k s.entries)), s)

unfoldable pub write : Bool → Model → Io MemMap (Unit {0})
write present m s = elim (lookup m.k s.entries) [
  | none ↦ if present then (err (bytes "no row"), s) else put m.k m.v s
  | some _ ↦ if present then put m.k m.v s else (err (bytes "duplicate key"), s)
]

rows : Entries → List Model
rows [] = []
rows ((k, v) ∷ l) = record { k = k; v = v } ∷ rows l

unfoldable pub all_rows : ℕ → Io MemMap (List Model)
unfolding rows
all_rows n s = (ok (take n (rows s.entries)), s)

abbrev pub table : Table MemMap
table = record {
  one = one;
  update = write true;
  insert = write false;
  delete = λ m. Mem.delete m.k;
  all = all_rows;
}

pub one_none : (k : Bytes) (s : MemMap) → (one k s).0 ≡ ok none → find s k ≡ none
unfolding one row_of
one_none k s e = elim (Option-cases (lookup k s.entries)) [
  | inl missing ↦ missing
  | inr (v, found) ↦ absurd (ground arith)
]

pub one_some :
    (k : Bytes) (s : MemMap) (m : Model)
    → (one k s).0 ≡ ok (some m)
    → (m.k ≡ k) × (find s k ≡ some m.v)
unfolding one row_of
one_some k s m e = elim (Option-cases (lookup k s.entries)) [
  | inl missing ↦ absurd (ground arith)
  | inr (v, found) ↦
      let same : record { k = k; v = v } ≡ m = ground arith in rw (← same) (refl, found)
]

pub one_keeps : (k : Bytes) (s : MemMap) (j : Bytes) → find (one k s).1 j ≡ find s j
unfolding one
one_keeps k s j = refl

pub write_ok :
    (present : Bool) (m : Model) (s : MemMap)
    → (write present m s).0 ≡ ok tt
    → (j : Bytes) → find (write present m s).1 j ≡ (if text_eq m.k j then some m.v else find s j)
unfolding write
write_ok true m s e j = elim (Option-cases (lookup m.k s.entries)) [
  | inl missing ↦ absurd (ground arith)
  | inr (v, found) ↦ rw (found, write) (put_ok m.k m.v s (unfold put in refl) j)
]
write_ok false m s e j = elim (Option-cases (lookup m.k s.entries)) [
  | inl missing ↦ rw (missing, write) (put_ok m.k m.v s (unfold put in refl) j)
  | inr (v, found) ↦ absurd (ground arith)
]

pub write_either :
    (present : Bool) (m : Model) (s : MemMap) (j : Bytes)
    → (find (write present m s).1 j ≡ find s j)
      ⊎ ((text_eq m.k j ≡ true) × (find (write present m s).1 j ≡ some m.v))
unfolding write
write_either true m s j = elim (Option-cases (lookup m.k s.entries)) [
  | inl missing ↦ rw (missing, write) (inl refl)
  | inr (v, found) ↦ rw (found, write) (put_either m.k m.v s j)
]
write_either false m s j = elim (Option-cases (lookup m.k s.entries)) [
  | inl missing ↦ rw (missing, write) (put_either m.k m.v s j)
  | inr (v, found) ↦ rw (found, write) (inl refl)
]

take-rows-found :
    (found : Bytes → Option Bytes) (n : ℕ) (l : Entries)
    → All (λ e. found e.0 ≡ some e.1) l
    → All (λ m. found m.k ≡ some m.v) (take n (rows l))
unfolding rows
take-rows-found found zero l h = tt
take-rows-found found (suc n) [] h = tt
take-rows-found found (suc n) (e ∷ l) h = (h.0, take-rows-found found n l h.1)

pub all_rows_ok :
    (n : ℕ) (s : MemMap) (ms : List Model)
    → (all_rows n s).0 ≡ ok ms
    → All (λ m. find s m.k ≡ some m.v) ms
unfolding all_rows
all_rows_ok n s ms e =
    let same : take n (rows s.entries) ≡ ms = cc in
    rw (← same) (take-rows-found (find s) n s.entries (entries_found s))

pub all_rows_keeps : (n : ℕ) (s : MemMap) (j : Bytes) → find (all_rows n s).1 j ≡ find s j
unfolding all_rows
all_rows_keeps n s j = refl

abbrev pub table_laws : TableLaws table
table_laws = record {
  find = find;
  one_none = one_none;
  one_some = one_some;
  one_keeps = one_keeps;
  update_ok = write_ok true;
  update_either = write_either true;
  insert_ok = write_ok false;
  insert_either = write_either false;
  delete_ok = λ m. Mem.delete_ok m.k;
  all_ok = all_rows_ok;
  all_keeps = all_rows_keeps;
}
