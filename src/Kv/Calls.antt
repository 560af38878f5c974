-- ===== src/Kv/Calls.antt =====
-- The methods `get`, `put` and `delete` of the trait `KV` (seata-server/src/storage/mod.rs), and
-- sequences of calls of them.
pub mod Stores
use seata.Base.{
  ◌≡◌, refl, sym, ap, ◌∙◌, Option, none, some, List, [], ◌∷◌, Bytes, Result, ok, Io, pure, ◌>>=◌,
  ◌>>◌, bind_ok, text_eq, if◌then◌else◌,
}

-- What a store does with single keys.
pub record Cells (S : Type 0) : Type 0 where
  pub get : Bytes → Io S (Option Bytes)
  pub put : Bytes → Bytes → Io S (Unit {0})
  pub delete : Bytes → Io S (Unit {0})

pub data KvCall : Type 0 where
  calls_get : Bytes → KvCall
  calls_put : Bytes → Bytes → KvCall
  calls_delete : Bytes → KvCall

module _ {S : Type 0} (cells : Cells S) where
  -- A call and what it returns: a write returns no value.
  abbrev pub call : KvCall → Io S (Option Bytes)
  call (calls_get k) = cells.get k
  call (calls_put k v) = do cells.put k v; pure none
  call (calls_delete k) = do cells.delete k; pure none

  -- One call after the other; the first that fails ends it.
  unfoldable pub answers : List KvCall → Io S (List (Option Bytes))
  answers [] = pure []
  answers (c ∷ cs) = do answer ← call c; rest ← answers cs; pure (answer ∷ rest)

-- A map, and what it answers to the calls.
abbrev pub Map : Type 0
Map = Bytes → Option Bytes

abbrev pub map_answer : KvCall → Map → Option Bytes
map_answer (calls_get k) map = map k
map_answer (calls_put k v) map = none
map_answer (calls_delete k) map = none

abbrev pub map_left : KvCall → Map → Map
map_left (calls_get k) map = map
map_left (calls_put k v) map = λ j. if text_eq k j then some v else map j
map_left (calls_delete k) map = λ j. if text_eq k j then none else map j

abbrev pub map_answers : List KvCall → Map → List (Option Bytes)
map_answers [] map = []
map_answers (c ∷ cs) map = map_answer c map ∷ map_answers cs (map_left c map)

abbrev pub map_after : List KvCall → Map → Map
map_after [] map = map
map_after (c ∷ cs) map = map_after cs (map_left c map)

-- What `find` sees of a store is a map, as far as its calls return.
pub record MapLaws {S : Type 0} (cells : Cells S) (find : S → Map) : Type 0 where
  pub get_ok : (k : Bytes) (s : S) (v : Option Bytes) → (cells.get k s).0 ≡ ok v → find s k ≡ v
  pub get_keeps : (k : Bytes) (s : S) (j : Bytes) → find (cells.get k s).1 j ≡ find s j
  pub put_ok :
      (k v : Bytes) (s : S)
      → (cells.put k v s).0 ≡ ok tt
      → (j : Bytes) → find (cells.put k v s).1 j ≡ (if text_eq k j then some v else find s j)
  pub delete_ok :
      (k : Bytes) (s : S)
      → (cells.delete k s).0 ≡ ok tt
      → (j : Bytes) → find (cells.delete k s).1 j ≡ (if text_eq k j then none else find s j)

module _ {S : Type 0} (cells : Cells S) (find : S → Map) (laws : MapLaws cells find) where
  abbrev Same : Map → Map → Type 0
  Same map map' = (j : Bytes) → map j ≡ map' j

  call_lem :
      (c : KvCall) (s : S) (map : Map) (answer : Option Bytes)
      → Same (find s) map
      → (call cells c s).0 ≡ ok answer
      → (answer ≡ map_answer c map) × Same (find (call cells c s).1) (map_left c map)
  call_lem (calls_get k) s map answer same h =
      (sym (laws.get_ok k s answer h) ∙ same k, λ j. laws.get_keeps k s j ∙ same j)
  call_lem (calls_put k v) s map answer same h =
      let (u, put, end) = bind_ok (cells.put k v) (λ _. pure none) s answer h in
      let returned : ok none ≡ ok answer = sym (ap (λ p. p.0) end) ∙ h in
      (cc, λ j. ap (λ p. find p.1 j) end ∙ laws.put_ok k v s put j ∙ rw (same j))
  call_lem (calls_delete k) s map answer same h =
      let (u, deleted, end) = bind_ok (cells.delete k) (λ _. pure none) s answer h in
      let returned : ok none ≡ ok answer = sym (ap (λ p. p.0) end) ∙ h in
      (cc, λ j. ap (λ p. find p.1 j) end ∙ laws.delete_ok k s deleted j ∙ rw (same j))

  answers-refine :
      (cs : List KvCall) (s : S) (map : Map) (said : List (Option Bytes))
      → Same (find s) map
      → (answers cells cs s).0 ≡ ok said
      → (said ≡ map_answers cs map) × Same (find (answers cells cs s).1) (map_after cs map)
  unfolding answers
  answers-refine [] s map said same h = (cc, same)
  answers-refine (c ∷ cs) s map said same h =
      let (answer, first, at_rest) = bind_ok (call cells c) _ s said h in
      let s1 = (call cells c s).1 in
      let (rest, others, at_end) =
        bind_ok (answers cells cs) (λ rest. pure (answer ∷ rest)) s1 said
          (sym (ap (λ p. p.0) at_rest) ∙ h) in
      let (is_answer, same1) = call_lem c s map answer same first in
      let (is_rest, same2) = answers-refine cs s1 (map_left c map) rest same1 others in
      let end = at_rest ∙ at_end in
      let said_all : answer ∷ rest ≡ said = let returned = sym (ap (λ p. p.0) end) ∙ h in cc in
      (
        sym said_all ∙ ap (λ x. x ∷ rest) is_answer ∙ ap (λ x. map_answer c map ∷ x) is_rest,
        λ j. ap (λ p. find p.1 j) end ∙ same2 j,
      )

  -- Calls that return, one after the other, are calls of a map.
  pub calls_refine :
      (cs : List KvCall) (s : S) (said : List (Option Bytes))
      → (answers cells cs s).0 ≡ ok said
      → (said ≡ map_answers cs (find s))
        × ((j : Bytes) → find (answers cells cs s).1 j ≡ map_after cs (find s) j)
  calls_refine cs s said h = answers-refine cs s (find s) said (λ j. refl) h
