-- ===== src/Kv/Sea.antt =====
-- seata-server/src/storage/sea_kv.rs: the store on a MySQL or PostgreSQL table, over a parameter for
-- the table as sea-orm gives access to it.
use seata.Base.{
  ℕ, ◌≡◌, ◌⊎◌, inl, inr, refl, ap, ◌∙◌, true, false, Option, none, some, List, [], ◌∷◌, Bytes, ok,
  Io, All, text_eq, text_eq_iff, starts_with, if◌then◌else◌, ◌>>=◌, pure, Result-cases, Bool-cases,
  arith, any,
}
use seata.Kv.{Kv, KvLaws, HasPrefix}

-- A row of the table `kv`, whose primary key is `k`.
pub record Model : Type 0 where
  pub k : Bytes
  pub v : Bytes

-- `Entity::find_by_id(k).one(db)`, `m.update(db)`, `m.insert(db)`, `m.delete(db)` and
-- `Entity::find().limit(n).all(db)`
pub record Table (S : Type 0) : Type 0 where
  pub one : Bytes → Io S (Option Model)
  pub update : Model → Io S (Unit {0})
  pub insert : Model → Io S (Unit {0})
  pub delete : Model → Io S (Unit {0})
  pub all : ℕ → Io S (List Model)

-- What the statements do to the table: an update of a missing row and an insert of a present one
-- fail, and a statement that fails for another reason may have been made.
pub record TableLaws {S : Type 0} (db : Table S) : Type 0 where
  pub find : S → Bytes → Option Bytes
  pub one_none : (k : Bytes) (s : S) → (db.one k s).0 ≡ ok none → find s k ≡ none
  pub one_some :
      (k : Bytes) (s : S) (m : Model)
      → (db.one k s).0 ≡ ok (some m)
      → (m.k ≡ k) × (find s k ≡ some m.v)
  pub one_keeps : (k : Bytes) (s : S) (j : Bytes) → find (db.one k s).1 j ≡ find s j
  pub update_ok :
      (m : Model) (s : S)
      → (db.update m s).0 ≡ ok tt
      → (j : Bytes) → find (db.update m s).1 j ≡ (if text_eq m.k j then some m.v else find s j)
  pub update_either :
      (m : Model) (s : S) (j : Bytes)
      → (find (db.update m s).1 j ≡ find s j)
        ⊎ ((text_eq m.k j ≡ true) × (find (db.update m s).1 j ≡ some m.v))
  pub insert_ok :
      (m : Model) (s : S)
      → (db.insert m s).0 ≡ ok tt
      → (j : Bytes) → find (db.insert m s).1 j ≡ (if text_eq m.k j then some m.v else find s j)
  pub insert_either :
      (m : Model) (s : S) (j : Bytes)
      → (find (db.insert m s).1 j ≡ find s j)
        ⊎ ((text_eq m.k j ≡ true) × (find (db.insert m s).1 j ≡ some m.v))
  pub delete_ok :
      (m : Model) (s : S)
      → (db.delete m s).0 ≡ ok tt
      → (j : Bytes) → find (db.delete m s).1 j ≡ (if text_eq m.k j then none else find s j)
  pub all_ok :
      (n : ℕ) (s : S) (ms : List Model)
      → (db.all n s).0 ≡ ok ms
      → All (λ m. find s m.k ≡ some m.v) ms
  pub all_keeps : (n : ℕ) (s : S) (j : Bytes) → find (db.all n s).1 j ≡ find s j

-- `list.into_iter().filter(|m| m.k.starts_with(prefix)).map(|m| m.v).collect()`
unfoldable pub values_under : Bytes → List Model → List Bytes
values_under prefix [] = []
values_under prefix (m ∷ ms) =
    let rest = values_under prefix ms in if starts_with m.k prefix then m.v ∷ rest else rest

module _ {S : Type 0} (db : Table S) where
  -- `res.map(|m| m.v)`
  abbrev pub value_of : Option Model → Option Bytes
  value_of none = none
  value_of (some m) = some m.v

  unfoldable pub get : Bytes → Io S (Option Bytes)
  get k = do res ← db.one k; pure (value_of res)

  unfoldable pub put_found : Bytes → Bytes → Option Model → Io S (Unit {0})
  put_found k v none = db.insert (record { k = k; v = v })
  put_found k v (some m) = db.update (record m { v = v })

  unfoldable pub put : Bytes → Bytes → Io S (Unit {0})
  put k v = do existing ← db.one k; put_found k v existing

  unfoldable pub delete_found : Option Model → Io S (Unit {0})
  delete_found none = pure tt
  delete_found (some m) = db.delete m

  unfoldable pub delete : Bytes → Io S (Unit {0})
  delete k = do found ← db.one k; delete_found found

  unfoldable pub scan_prefix : Bytes → ℕ → Io S (List Bytes)
  scan_prefix prefix limit = do list ← db.all limit; pure (values_under prefix list)

  abbrev pub sea_kv : Kv S
  sea_kv = record { get = get; put = put; delete = delete; scan_prefix = scan_prefix }

values_under-HasPrefix :
    (find : Bytes → Option Bytes) (prefix : Bytes) (ms : List Model)
    → All (λ m. find m.k ≡ some m.v) ms
    → All (HasPrefix find prefix) (values_under prefix ms)
unfolding values_under
values_under-HasPrefix find prefix [] h = tt
values_under-HasPrefix find prefix (m ∷ ms) h =
    let rest = values_under-HasPrefix find prefix ms h.1 in
    elim (Bool-cases (starts_with m.k prefix)) [
      | inl p ↦ rw p ((m.k, p, h.0), rest)
      | inr p ↦ rw p rest
    ]

module _ {S : Type 0} (db : Table S) (laws : TableLaws db) where
  pub get_ok : (k : Bytes) (s : S) (v : Option Bytes) → (get db k s).0 ≡ ok v → laws.find s k ≡ v
  unfolding get
  get_ok k s v h = elim (Result-cases (db.one k s).0) [
    | inl (none, e) ↦ laws.one_none k s e ∙ ground arith
    | inl (some m, e) ↦ (laws.one_some k s m e).1 ∙ ground arith
    | inr (x, e) ↦ absurd (ground arith)
  ]

  pub get_keeps : (k : Bytes) (s : S) (j : Bytes) → laws.find (get db k s).1 j ≡ laws.find s j
  unfolding get
  get_keeps k s j =
      let same = laws.one_keeps k s j in
      elim (Result-cases (db.one k s).0) [ inl (r, e) ↦ ground arith | inr (x, e) ↦ ground arith ]

  -- Over a lawful table, a `put` that returns has stored the value under its key, whether the key
  -- had a row or not, and has changed no other key.
  pub put_lem :
      (k v : Bytes) (s : S)
      → (put db k v s).0 ≡ ok tt
      → (j : Bytes) → laws.find (put db k v s).1 j ≡ (if text_eq k j then some v else laws.find s j)
  unfolding put put_found
  put_lem k v s h j =
      let s1 = (db.one k s).1 in
      let same = laws.one_keeps k s j in
      elim (Result-cases (db.one k s).0) [
        | inl (none, e) ↦ rw e (laws.insert_ok (record { k = k; v = v }) s1 (rw e at h) j ∙ rw same)
        | inl (some m, e) ↦ rw e (
            laws.update_ok (record m { v = v }) s1 (rw e at h) j
            ∙ rw ((laws.one_some k s m e).0, same))
        | inr (x, e) ↦ absurd (ground arith)
      ]

  pub put_either :
      (k v : Bytes) (s : S) (j : Bytes)
      → (laws.find (put db k v s).1 j ≡ laws.find s j)
        ⊎ ((text_eq k j ≡ true) × (laws.find (put db k v s).1 j ≡ some v))
  unfolding put put_found
  put_either k v s j =
      let s1 = (db.one k s).1 in
      let same = laws.one_keeps k s j in
      elim (Result-cases (db.one k s).0) [
        | inl (none, e) ↦
            let put = laws.insert_either (record { k = k; v = v }) s1 j in ground arith
        | inl (some m, e) ↦
            let put = laws.update_either (record m { v = v }) s1 j in
            let key = (laws.one_some k s m e).0 in ground arith
        | inr (x, e) ↦ ground arith
      ]

  -- Over a lawful table, a `delete` that returns has removed the key, whether it had a row or not,
  -- and has changed no other key.
  pub delete_lem :
      (k : Bytes) (s : S)
      → (delete db k s).0 ≡ ok tt
      → (j : Bytes) → laws.find (delete db k s).1 j ≡ (if text_eq k j then none else laws.find s j)
  unfolding delete delete_found
  delete_lem k s h j =
      let same = laws.one_keeps k s j in
      elim (Result-cases (db.one k s).0) [
        | inl (none, e) ↦ let missing = laws.one_none k s e in ground (arith, text_eq_iff k j)
        | inl (some m, e) ↦
            rw e
              (laws.delete_ok m (db.one k s).1 (rw e at h) j ∙ rw ((laws.one_some k s m e).0, same))
        | inr (x, e) ↦ absurd (ground arith)
      ]

  pub scan_ok :
      (prefix : Bytes) (limit : ℕ) (s : S) (vs : List Bytes)
      → (scan_prefix db prefix limit s).0 ≡ ok vs
      → All (HasPrefix (laws.find s) prefix) vs
  unfolding scan_prefix
  scan_ok prefix limit s vs h = elim (Result-cases (db.all limit s).0) [
    | inl (ms, e) ↦
        let same : values_under prefix ms ≡ vs = ground arith in
        rw (← same) (values_under-HasPrefix (laws.find s) prefix ms (laws.all_ok limit s ms e))
    | inr (x, e) ↦ absurd (ground arith)
  ]

  pub scan_keeps :
      (prefix : Bytes) (limit : ℕ) (s : S) (j : Bytes)
      → laws.find (scan_prefix db prefix limit s).1 j ≡ laws.find s j
  unfolding scan_prefix
  scan_keeps prefix limit s j =
      let same = laws.all_keeps limit s j in
      elim (Result-cases (db.all limit s).0) [
        | inl (r, e) ↦ ground arith
        | inr (x, e) ↦ ground arith
      ]

  -- The contract of `KV`, met by `SeaKv`.
  abbrev pub sea_laws : KvLaws (sea_kv db)
  sea_laws = record {
    find = laws.find;
    get_ok = get_ok;
    get_keeps = get_keeps;
    put_ok = put_lem;
    put_either = put_either;
    scan_ok = scan_ok;
    scan_keeps = scan_keeps;
  }

values_under-none :
    (prefix : Bytes) (ms : List Model)
    → any (λ m. starts_with m.k prefix) ms ≡ false
    → values_under prefix ms ≡ []
unfolding values_under
values_under-none prefix [] h = refl
values_under-none prefix (m ∷ ms) h = ground (arith, values_under-none prefix ms)

-- The limit is applied to the whole table before the prefix: where the statement for `limit` rows
-- returns rows without the prefix only, the scan returns nothing, whatever other rows hold.
pub scan_prefix_starved :
    {S : Type 0} (db : Table S) (prefix : Bytes) (limit : ℕ) (s : S) (ms : List Model)
    → (db.all limit s).0 ≡ ok ms
    → any (λ m. starts_with m.k prefix) ms ≡ false
    → (scan_prefix db prefix limit s).0 ≡ ok []
unfolding scan_prefix
scan_prefix_starved db prefix limit s ms e h = rw e (ap ok (values_under-none prefix ms h))
