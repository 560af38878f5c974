-- ===== src/Saga/Unique.antt =====
-- The branches of a transaction have different ids (seata-server/src/saga.rs, `add_branch`).
use seata.Base.{
  ◌≡◌, refl, ap, Bool, false, ◌||◌, Option, some, List, [], ◌∷◌, ◌++◌, Text, map, any, text_eq,
  text_eq_iff, arith, Bool-cases, Option-cases, inl, inr,
}
use seata.Domain.{BranchTxn, GlobalTxn, BranchStatus}
use seata.Saga.World.{Request}
use seata.Saga.Settle.Reference.{settled}
use seata.Saga.Manager.{set_branch, fail_unfinished}
use seata.Saga.Evolution.{◌⟶◌, begin, execute, conclude, abort, add, mark, ◌⟶*◌, here, next}

abbrev has_id : Text → List BranchTxn → Bool
has_id id bs = any (λ b. text_eq b.branch_id id) bs

abbrev pub IsUnique : List BranchTxn → Type 0
IsUnique [] = Unit
IsUnique (b ∷ bs) = (has_id b.branch_id bs ≡ false) × IsUnique bs

abbrev ids : List BranchTxn → List Text
ids = map (λ b. b.branch_id)

has_id-ids : (id : Text) (bs cs : List BranchTxn) → ids bs ≡ ids cs → has_id id bs ≡ has_id id cs
has_id-ids id [] [] e = refl
has_id-ids id [] (c ∷ cs) e = absurd (ground arith)
has_id-ids id (b ∷ bs) [] e = absurd (ground arith)
has_id-ids id (b ∷ bs) (c ∷ cs) e = ground (arith, has_id-ids id bs cs)

IsUnique-ids : (bs cs : List BranchTxn) → ids bs ≡ ids cs → IsUnique bs → IsUnique cs
IsUnique-ids bs [] e u = tt
IsUnique-ids [] (c ∷ cs) e u = absurd (ground arith)
IsUnique-ids (b ∷ bs) (c ∷ cs) e u =
    let rest : ids bs ≡ ids cs = ground arith in
    let same : b.branch_id ≡ c.branch_id = ground arith in
    (rw (← has_id-ids c.branch_id bs cs rest, ← same) u.0, IsUnique-ids bs cs rest u.1)

has_id-append :
    (id : Text) (bs : List BranchTxn) (c : BranchTxn)
    → has_id id (bs ++ c ∷ []) ≡ (has_id id bs || text_eq c.branch_id id)
has_id-append id [] c = ground arith
has_id-append id (b ∷ bs) c = ground (arith, has_id-append id bs c)

IsUnique-append :
    (bs : List BranchTxn) (c : BranchTxn)
    → has_id c.branch_id bs ≡ false
    → IsUnique bs
    → IsUnique (bs ++ c ∷ [])
IsUnique-append [] c h u = (refl, tt)
IsUnique-append (b ∷ bs) c h u = ground (
  arith,
  IsUnique-append bs c,
  has_id-append b.branch_id bs c,
  text_eq_iff b.branch_id c.branch_id,
  text_eq_iff c.branch_id b.branch_id,
)

ids-settled :
    (run : Request → Option Bool) (tx : GlobalTxn) (encoded : Text) (bs : List BranchTxn)
    → ids bs ≡ ids (map (settled run tx encoded) bs)
unfolding settled
ids-settled run tx encoded [] = refl
ids-settled run tx encoded (b ∷ bs) = ground (arith, ids-settled run tx encoded bs)

ids-fail_unfinished : (bs : List BranchTxn) → ids bs ≡ ids (fail_unfinished bs)
unfolding fail_unfinished
ids-fail_unfinished [] = refl
ids-fail_unfinished (b ∷ bs) = ground (arith, ids-fail_unfinished bs)

ids-set_branch :
    (id : Text) (status : BranchStatus) (bs cs : List BranchTxn)
    → set_branch id status bs ≡ some cs
    → ids bs ≡ ids cs
unfolding set_branch
ids-set_branch id status [] cs e = cc
ids-set_branch id status (b ∷ bs) cs e = elim (Bool-cases (text_eq b.branch_id id)) [
  | inl yes_b ↦ let same : record b { status = status } ∷ bs ≡ cs = ground arith in rw (← same)
  | inr no_b ↦ elim (Option-cases (set_branch id status bs)) [
    | inl missing ↦ absurd (ground arith)
    | inr (ds, set) ↦
        let same : b ∷ ds ≡ cs = ground arith in
        rw (← same) (ap (λ l. b.branch_id ∷ l) (ids-set_branch id status bs ds set))
  ]
]

⟶-IsUnique : {s t : GlobalTxn} → s ⟶ t → IsUnique s.branches → IsUnique t.branches
⟶-IsUnique (begin tx at) u = u
⟶-IsUnique (execute tx run encoded at) u =
    IsUnique-ids tx.branches _ (ids-settled run tx encoded tx.branches) u
⟶-IsUnique (conclude tx at) u = u
⟶-IsUnique (abort tx at) u = IsUnique-ids tx.branches _ (ids-fail_unfinished tx.branches) u
⟶-IsUnique (add tx branch_id action at new) u = IsUnique-append tx.branches _ new u
⟶-IsUnique (mark tx branch_id status branches at set p) u =
    IsUnique-ids tx.branches branches (ids-set_branch branch_id status tx.branches branches set) u

-- Every chain of saves keeps the ids of a transaction's branches different.
pub ⟶*-IsUnique : {s t : GlobalTxn} → s ⟶* t → IsUnique s.branches → IsUnique t.branches
⟶*-IsUnique here u = u
⟶*-IsUnique (next r e) u = ⟶-IsUnique e (⟶*-IsUnique r u)
