-- ===== src/Barrier/Laws.antt =====
-- The barrier is a set of (gid, branch id, phase), to which each element is added once
-- (seata-server/src/barrier.rs), and it shares its store with the transactions undisturbed.
use seata.Base.{
  ◌≡◌, refl, sym, ap, ◌∙◌, inl, inr, Bool, true, false, not, ◌&&◌, ◌||◌, Option, none, some, [],
  Text, Result, ok, pure, is_some, text_eq, text_eq_iff, arith, bind_ok, Result-cases, ◌↔◌,
}
use seata.Domain.{phase_eq, BarrierPhase, try, BarrierKey, GlobalTxn}
use seata.Kv.{Kv, KvLaws}
use seata.Repo.{Serde, gid_key, save}
use seata.Repo.Laws.{stored}
use seata.Barrier.{key, exists, insert, insert_found}
use seata.Barrier.Keys.{IsColonFree, key-injective}

abbrev pub barrier_eq : BarrierKey → BarrierKey → Bool
barrier_eq a b =
    text_eq a.gid b.gid && (text_eq a.branch_id b.branch_id && phase_eq a.phase b.phase)

abbrev pub key_of : BarrierKey → Text
key_of b = key b.gid b.branch_id b.phase

phase_eq_iff : (p q : BarrierPhase) → (phase_eq p q ≡ true) ↔ (p ≡ q)
phase_eq_iff try try = ground arith
phase_eq_iff p q = ground arith

-- Barriers with colon-free gids have one key exactly if they are one barrier.
key_of-eq :
    (a b : BarrierKey)
    → IsColonFree a.gid
    → IsColonFree b.gid
    → text_eq (key_of a) (key_of b) ≡ barrier_eq a b
key_of-eq a b ha hb =
    let inj = key-injective a.gid b.gid a.branch_id b.branch_id a.phase b.phase ha hb in
    ground (
      arith,
      inj,
      text_eq_iff (key_of a) (key_of b),
      text_eq_iff a.gid b.gid,
      text_eq_iff a.branch_id b.branch_id,
      phase_eq_iff a.phase b.phase,
    )

module _ {S : Type 0} (kv : Kv S) (laws : KvLaws kv) where
  -- The barrier stands in the store.
  abbrev pub held : S → BarrierKey → Bool
  held s b = is_some (laws.find s (key_of b))

  pub insert_found_lem :
      (k : Text) (found : Option Text) (s : S) (fresh : Bool)
      → laws.find s k ≡ found
      → (insert_found kv k found s).0 ≡ ok fresh
      → (fresh ≡ not (is_some (laws.find s k)))
        × ((j : Text)
            → is_some (laws.find (insert_found kv k found s).1 j)
              ≡ (text_eq k j || is_some (laws.find s j)))
  unfolding insert_found
  insert_found_lem k (some v) s fresh e h = (ground arith, λ j. ground (arith, text_eq_iff k j))
  insert_found_lem k none s fresh e h = elim (Result-cases (kv.put k [] s).0) [
    | inl (u, done) ↦ (ground arith, λ j. let put = laws.put_ok k [] s done j in ground arith)
    | inr (m, bad) ↦ absurd (ground arith)
  ]

  -- The same for `insert`, at the keys of the store.
  insert_lem :
      (b : BarrierKey) (s : S) (fresh : Bool)
      → (insert kv b.gid b.branch_id b.phase s).0 ≡ ok fresh
      → (fresh ≡ not (held s b))
        × ((j : Text)
            → is_some (laws.find (insert kv b.gid b.branch_id b.phase s).1 j)
              ≡ (text_eq (key_of b) j || is_some (laws.find s j)))
  unfolding insert
  insert_lem b s fresh h =
      let k = key_of b in
      let s1 = (kv.get k s).1 in
      let (found, got, rest) = bind_ok (kv.get k) (insert_found kv k) s fresh h in
      let same = laws.get_keeps k s in
      let at_k : laws.find s1 k ≡ found = same k ∙ laws.get_ok k s found got in
      let ended = sym (ap (λ (p : Result Bool × S). p.0) rest) ∙ h in
      let (new, all) = insert_found_lem k found s1 fresh at_k ended in
      (new ∙ ap (λ (o : Option Text). not (is_some o)) (same k), λ j. rw rest (all j ∙ rw (same j)))

  -- Over a lawful store and for gids without ':', an `insert` that returns says whether the barrier
  -- was new, and afterwards exactly this barrier is held besides those held before.
  pub insert-refines-set :
      (b c : BarrierKey) (s : S) (fresh : Bool)
      → IsColonFree b.gid
      → IsColonFree c.gid
      → (insert kv b.gid b.branch_id b.phase s).0 ≡ ok fresh
      → (fresh ≡ not (held s b))
        × (held (insert kv b.gid b.branch_id b.phase s).1 c ≡ (barrier_eq b c || held s c))
  insert-refines-set b c s fresh free free_c h =
      let (new, all) = insert_lem b s fresh h in
      (new, all (key_of c) ∙ rw (key_of-eq b c free free_c))

  -- Two calls of `insert` over a lawful store with one key that return, the second after the
  -- first: the second returns `false`. The key may be the same for other reasons than the same
  -- arguments.
  insert_once :
      (b c : BarrierKey) (s : S) (first second : Bool)
      → key_of b ≡ key_of c
      → (insert kv b.gid b.branch_id b.phase s).0 ≡ ok first
      → (insert kv c.gid c.branch_id c.phase (insert kv b.gid b.branch_id b.phase s).1).0
        ≡ ok second
      → second ≡ false
  insert_once b c s first second same h h' =
      let (_, all) = insert_lem b s first h in
      let (new, _) = insert_lem c (insert kv b.gid b.branch_id b.phase s).1 second h' in
      ground (arith, all (key_of c), text_eq_iff (key_of b) (key_of c))

  -- `exists` that returns says whether the barrier is held.
  pub exists_lem :
      (b : BarrierKey) (s : S) (there : Bool)
      → (exists kv b.gid b.branch_id b.phase s).0 ≡ ok there
      → there ≡ held s b
  unfolding exists
  exists_lem b s there h =
      let k = key_of b in
      let (found, got, rest) = bind_ok (kv.get k) (λ f. pure (is_some f)) s there h in
      let e = laws.get_ok k s found got in ground arith

  -- `exists` after an `insert`, both of which return, over a lawful store and for gids without
  -- ':': it is true of the barrier inserted and of those held before, and of no other.
  pub exists-insert :
      (b c : BarrierKey) (s : S) (fresh there : Bool)
      → IsColonFree b.gid
      → IsColonFree c.gid
      → (insert kv b.gid b.branch_id b.phase s).0 ≡ ok fresh
      → (exists kv c.gid c.branch_id c.phase (insert kv b.gid b.branch_id b.phase s).1).0 ≡ ok there
      → there ≡ (barrier_eq b c || held s c)
  exists-insert b c s fresh there hb hc h h' =
      exists_lem c (insert kv b.gid b.branch_id b.phase s).1 there h'
      ∙ (insert-refines-set b c s fresh hb hc h).1

pub keys_differ : (b : BarrierKey) (j : Text) → text_eq (key_of b) (gid_key j) ≡ false
unfolding text_eq key
keys_differ b j = refl

keys_differ' : (b : BarrierKey) (j : Text) → text_eq (gid_key j) (key_of b) ≡ false
unfolding text_eq key
keys_differ' b j = refl

module _ {S : Type 0} (kv : Kv S) (laws : KvLaws kv) (serde : Serde) where
  pub put-keeps :
      (k v : Text) (s : S) (j : Text)
      → text_eq k j ≡ false
      → laws.find (kv.put k v s).1 j ≡ laws.find s j
  put-keeps k v s j other = elim (laws.put_either k v s j) [
    | inl same ↦ same
    | inr (at, _) ↦ absurd (ground arith)
  ]

  insert_found-keeps :
      (b : BarrierKey) (found : Option Text) (s : S) (j : Text)
      → laws.find (insert_found kv (key_of b) found s).1 (gid_key j) ≡ laws.find s (gid_key j)
  unfolding insert_found
  insert_found-keeps b (some v) s j = refl
  insert_found-keeps b none s j =
      let kept = put-keeps (key_of b) [] s (gid_key j) (keys_differ b j) in
      elim (Result-cases (kv.put (key_of b) [] s).0) [
        | inl (u, e) ↦ ground arith
        | inr (m, e) ↦ ground arith
      ]

  -- The barrier and the repository share a lawful store and do not disturb each other, whether
  -- their operations return or fail: `insert` changes no stored transaction, and `save` no
  -- barrier.
  pub barrier-repo_disjoint :
      (b : BarrierKey) (tx : GlobalTxn) (s : S) (j : Text)
      → (stored kv laws serde (insert kv b.gid b.branch_id b.phase s).1 j
          ≡ stored kv laws serde s j)
        × (held kv laws (save kv serde tx s).1 b ≡ held kv laws s b)
  unfolding insert save
  barrier-repo_disjoint b tx s j =
      let same = laws.get_keeps (key_of b) s (gid_key j) in
      (
        elim (Result-cases (kv.get (key_of b) s).0) [
          | inl (found, e) ↦
              let kept = insert_found-keeps b found (kv.get (key_of b) s).1 j in ground arith
          | inr (m, e) ↦ ground arith
        ],
        elim (Result-cases (serde.to_vec tx)) [
          | inl (v, e) ↦
              let kept = put-keeps (gid_key tx.gid) v s (key_of b) (keys_differ' b tx.gid) in
              ground arith
          | inr (m, e) ↦ ground arith
        ],
      )
