-- ===== src/Barrier/Calls.antt =====
-- Sequences of calls of a barrier, and the set of barriers that they are calls of
-- (seata-server/src/barrier.rs).
use seata.Base.{
  ◌≡◌, refl, sym, ap, ◌∙◌, Bool, not, ◌||◌, List, [], ◌∷◌, Result, ok, Io, pure, ◌>>=◌, bind_ok,
  inl, inr, Result-cases, All,
}
use seata.Domain.{BarrierKey}
use seata.Kv.{Kv, KvLaws}
use seata.Barrier.{exists, insert}
use seata.Barrier.Keys.{IsColonFree}
use seata.Barrier.Laws.{barrier_eq, held, key_of, insert-refines-set, exists_lem}

-- A call of `BarrierOps`.
pub data BarrierCall : Type 0 where
  calls_exists calls_insert : BarrierKey → BarrierCall

abbrev pub barrier_of : BarrierCall → BarrierKey
barrier_of (calls_exists b) = b
barrier_of (calls_insert b) = b

module _ {S : Type 0} (kv : Kv S) where
  abbrev pub call : BarrierCall → Io S Bool
  call (calls_exists b) = exists kv b.gid b.branch_id b.phase
  call (calls_insert b) = insert kv b.gid b.branch_id b.phase

  -- One call after the other; the first that fails ends it.
  unfoldable pub answers : List BarrierCall → Io S (List Bool)
  answers [] = pure []
  answers (c ∷ cs) = do answer ← call c; rest ← answers cs; pure (answer ∷ rest)

-- A set of barriers, by its members, and what it answers to the calls.
abbrev pub Barriers : Type 0
Barriers = BarrierKey → Bool

abbrev pub add_to : Barriers → BarrierKey → Barriers
add_to set b c = barrier_eq b c || set c

abbrev pub set_answer : BarrierCall → Barriers → Bool
set_answer (calls_exists b) set = set b
set_answer (calls_insert b) set = not (set b)

abbrev pub set_left : BarrierCall → Barriers → Barriers
set_left (calls_exists b) set = set
set_left (calls_insert b) set = add_to set b

abbrev pub set_answers : List BarrierCall → Barriers → List Bool
set_answers [] set = []
set_answers (c ∷ cs) set = set_answer c set ∷ set_answers cs (set_left c set)

abbrev pub set_after : List BarrierCall → Barriers → Barriers
set_after [] set = set
set_after (c ∷ cs) set = set_after cs (set_left c set)

-- Two sets with the same members, among barriers whose gids have no ':'.
abbrev Same : Barriers → Barriers → Type 0
Same set set' = (b : BarrierKey) → IsColonFree b.gid → set b ≡ set' b

abbrev pub AllFree : List BarrierCall → Type 0
AllFree cs = All (λ c. IsColonFree (barrier_of c).gid) cs

module _ {S : Type 0} (kv : Kv S) (laws : KvLaws kv) where
  exists-keeps :
      (b c : BarrierKey) (s : S) (there : Bool)
      → (exists kv b.gid b.branch_id b.phase s).0 ≡ ok there
      → held kv laws (exists kv b.gid b.branch_id b.phase s).1 c ≡ held kv laws s c
  unfolding exists
  exists-keeps b c s there h = elim (Result-cases (kv.get (key_of b) s).0) [
    | inl (found, e) ↦ rw (e, laws.get_keeps (key_of b) s (key_of c)) refl
    | inr (x, e) ↦ rw (e, laws.get_keeps (key_of b) s (key_of c)) refl
  ]

  -- One call: its answer is the set's, and the store holds the set that is left.
  call_lem :
      (c : BarrierCall) (s : S) (set : Barriers) (answer : Bool)
      → IsColonFree (barrier_of c).gid
      → Same (held kv laws s) set
      → (call kv c s).0 ≡ ok answer
      → (answer ≡ set_answer c set) × Same (held kv laws (call kv c s).1) (set_left c set)
  call_lem (calls_exists b) s set answer free same h = (
    exists_lem kv laws b s answer h ∙ same b free,
    λ d free_d. exists-keeps b d s answer h ∙ same d free_d,
  )
  call_lem (calls_insert b) s set answer free same h = (
    (insert-refines-set kv laws b b s answer free free h).0 ∙ ap not (same b free),
    λ d free_d.
        (insert-refines-set kv laws b d s answer free free_d h).1
        ∙ ap (λ x. barrier_eq b d || x) (same d free_d),
  )

  answers-refine :
      (cs : List BarrierCall) (s : S) (set : Barriers) (said : List Bool)
      → AllFree cs
      → Same (held kv laws s) set
      → (answers kv cs s).0 ≡ ok said
      → (said ≡ set_answers cs set) × Same (held kv laws (answers kv cs s).1) (set_after cs set)
  unfolding answers
  answers-refine [] s set said free same h = (cc, same)
  answers-refine (c ∷ cs) s set said free same h =
      let (answer, first, at_rest) = bind_ok (call kv c) _ s said h in
      let s1 = (call kv c s).1 in
      let (rest, others, at_end) =
        bind_ok (answers kv cs) (λ rest. pure (answer ∷ rest)) s1 said
          (sym (ap (λ (p : Result (List Bool) × S). p.0) at_rest) ∙ h) in
      let (is_answer, same1) = call_lem c s set answer free.0 same first in
      let (is_rest, same2) = answers-refine cs s1 (set_left c set) rest free.1 same1 others in
      let end = at_rest ∙ at_end in
      let said_all : answer ∷ rest ≡ said =
        let returned = sym (ap (λ (p : Result (List Bool) × S). p.0) end) ∙ h in cc in
      (
        sym said_all ∙ ap (λ x. x ∷ rest) is_answer ∙ ap (λ x. set_answer c set ∷ x) is_rest,
        λ d free_d. ap (λ (p : Result (List Bool) × S). held kv laws p.1 d) end ∙ same2 d free_d,
      )

  -- Calls of `insert` and `exists` on barriers whose gids have no ':', one after the other over a
  -- lawful store, if all of them return: their answers, all of them, are those of a set of barriers,
  -- where `exists` asks for a member and `insert` adds one and says whether it was new, and the
  -- barriers held afterwards are the members of the set that is left.
  pub calls-refine-set :
      (cs : List BarrierCall) (s : S) (said : List Bool)
      → AllFree cs
      → (answers kv cs s).0 ≡ ok said
      → (said ≡ set_answers cs (held kv laws s))
        × ((b : BarrierKey)
            → IsColonFree b.gid
            → held kv laws (answers kv cs s).1 b ≡ set_after cs (held kv laws s) b)
  calls-refine-set cs s said free h =
      answers-refine cs s (held kv laws s) said free (λ b free_b. refl) h
