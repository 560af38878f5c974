-- ===== src/Saga/Evolution.antt =====
-- How a stored transaction may change: the saves of the manager's operations as a step relation
-- (seata-server/src/saga.rs), and what every chain of steps preserves.
use seata.Base.{
  true, ◌||◌, not, ◌≡◌, ◌≢◌, refl, ◌∙◌, Bool, false, Option, some, List, [], ◌∷◌, ◌++◌, Text, map,
  arith, text_eq, Bool-cases, Option-cases, inl, inr,
}
use seata.Domain.{aborting, aborted, committing, BranchStatus, is_prepared, BranchTxn, GlobalTxn, ℤ}
use seata.Saga.World.{Request}
use seata.Saga.Settle.{final_status}
use seata.Saga.Settle.Reference.{settled, final_status-eq}
use seata.Saga.Manager.{push_branch, has_branch, set_branch, fail_unfinished}

infix 40 ◌⟶◌ ◌⟶*◌
-- One save.
pub data ◌⟶◌ : GlobalTxn → GlobalTxn → Type 0 where
  begin : (tx : GlobalTxn) (at : ℤ) → tx ⟶ record tx { status = committing; updated_unix = at }
  execute :
      (tx : GlobalTxn) (run : Request → Option Bool) (encoded : Text) (at : ℤ)
      → tx ⟶ record tx { branches = map (settled run tx encoded) tx.branches; updated_unix = at }
  conclude :
      (tx : GlobalTxn) (at : ℤ)
      → tx ⟶ record tx { status = final_status tx.branches; updated_unix = at }
  abort :
      (tx : GlobalTxn) (at : ℤ)
      → tx
        ⟶ record tx { branches = fail_unfinished tx.branches; status = aborted; updated_unix = at }
  add :
      (tx : GlobalTxn) (branch_id action : Text) (at : ℤ)
      → has_branch tx branch_id ≡ false
      → tx ⟶ record (push_branch tx branch_id action) { updated_unix = at }
  mark :
      (tx : GlobalTxn) (branch_id : Text) (status : BranchStatus) (branches : List BranchTxn)
      (at : ℤ)
      → set_branch branch_id status tx.branches ≡ some branches
      → is_prepared status ≡ false
      → tx ⟶ record tx { branches = branches; updated_unix = at }

pub data ◌⟶*◌ : GlobalTxn → GlobalTxn → Type 0 where
  here : {s : GlobalTxn} → s ⟶* s
  next : {s t u : GlobalTxn} → s ⟶* t → t ⟶ u → s ⟶* u

pub ⟶*-trans : {s t u : GlobalTxn} → s ⟶* t → t ⟶* u → s ⟶* u
⟶*-trans r here = r
⟶*-trans r (next q e) = next (⟶*-trans r q) e

-- The later list has the earlier branches first, under the same ids and actions, and none of them
-- has become prepared again.
abbrev pub Advances : List BranchTxn → List BranchTxn → Type 0
Advances [] cs = Unit
Advances (b ∷ bs) [] = ⊥
Advances (b ∷ bs) (c ∷ cs) =
    (c.branch_id ≡ b.branch_id)
    × (c.action ≡ b.action)
    × ((is_prepared b.status || not (is_prepared c.status)) ≡ true)
    × Advances bs cs

Advances-refl : (bs : List BranchTxn) → Advances bs bs
Advances-refl [] = tt
Advances-refl (b ∷ bs) = (refl, refl, ground arith, Advances-refl bs)

Advances-trans : (bs cs ds : List BranchTxn) → Advances bs cs → Advances cs ds → Advances bs ds
Advances-trans [] cs ds h k = tt
Advances-trans (b ∷ bs) [] ds h k = absurd h
Advances-trans (b ∷ bs) (c ∷ cs) [] h k = absurd k
Advances-trans (b ∷ bs) (c ∷ cs) (d ∷ ds) h k =
    (k.0 ∙ h.0, k.1 ∙ h.1, ground (arith, h.2, k.2), Advances-trans bs cs ds h.3 k.3)

Advances-settled :
    (run : Request → Option Bool) (tx : GlobalTxn) (encoded : Text) (bs : List BranchTxn)
    → Advances bs (map (settled run tx encoded) bs)
unfolding settled
Advances-settled run tx encoded [] = tt
Advances-settled run tx encoded (b ∷ bs) = ground (arith, Advances-settled run tx encoded bs)

Advances-fail_unfinished : (bs : List BranchTxn) → Advances bs (fail_unfinished bs)
unfolding fail_unfinished
Advances-fail_unfinished [] = tt
Advances-fail_unfinished (b ∷ bs) = ground (arith, Advances-fail_unfinished bs)

Advances-append : (bs cs : List BranchTxn) → Advances bs (bs ++ cs)
Advances-append [] cs = tt
Advances-append (b ∷ bs) cs = (refl, refl, ground arith, Advances-append bs cs)

Advances-set_branch :
    (id : Text) (status : BranchStatus) (bs cs : List BranchTxn)
    → set_branch id status bs ≡ some cs
    → is_prepared status ≡ false
    → Advances bs cs
unfolding set_branch
Advances-set_branch id status [] cs e p = tt
Advances-set_branch id status (b ∷ bs) cs e p = elim (Bool-cases (text_eq b.branch_id id)) [
  | inl yes_b ↦
      let same : record b { status = status } ∷ bs ≡ cs = ground arith in
      rw (← same) (refl, refl, ground (arith, p), Advances-refl bs)
  | inr no_b ↦ elim (Option-cases (set_branch id status bs)) [
    | inl missing ↦ absurd (ground arith)
    | inr (ds, set) ↦
        let same : b ∷ ds ≡ cs = ground arith in
        rw (← same) (refl, refl, ground arith, Advances-set_branch id status bs ds set p)
  ]
]

-- What no step changes, and how the rest may move.
pub record Keeps (s t : GlobalTxn) : Type 0 where
  pub gid : t.gid ≡ s.gid
  pub mode : t.mode ≡ s.mode
  pub payload : t.payload ≡ s.payload
  pub created : t.created_unix ≡ s.created_unix
  pub branches : Advances s.branches t.branches

final_status-ne-aborting : (bs : List BranchTxn) → final_status bs ≢ aborting
final_status-ne-aborting bs e = ground (arith, final_status-eq bs)

⟶-Keeps : {s t : GlobalTxn} → s ⟶ t → Keeps s t
⟶-Keeps (begin tx at) = record {
  gid = refl;
  mode = refl;
  payload = refl;
  created = refl;
  branches = Advances-refl tx.branches;
}
⟶-Keeps (execute tx run encoded at) = record {
  gid = refl;
  mode = refl;
  payload = refl;
  created = refl;
  branches = Advances-settled run tx encoded tx.branches;
}
⟶-Keeps (conclude tx at) = record {
  gid = refl;
  mode = refl;
  payload = refl;
  created = refl;
  branches = Advances-refl tx.branches;
}
⟶-Keeps (abort tx at) = record {
  gid = refl;
  mode = refl;
  payload = refl;
  created = refl;
  branches = Advances-fail_unfinished tx.branches;
}
⟶-Keeps (add tx branch_id action at new) = record {
  gid = refl;
  mode = refl;
  payload = refl;
  created = refl;
  branches = Advances-append tx.branches _;
}
⟶-Keeps (mark tx branch_id status branches at set p) = record {
  gid = refl;
  mode = refl;
  payload = refl;
  created = refl;
  branches = Advances-set_branch branch_id status tx.branches branches set p;
}

-- Along every chain of saves a transaction keeps its gid, mode, payload and creation time, its
-- branches keep their places, ids and actions, and none of them becomes prepared again.
pub ⟶*-Keeps : {s t : GlobalTxn} → s ⟶* t → Keeps s t
⟶*-Keeps {s} here = record {
  gid = refl;
  mode = refl;
  payload = refl;
  created = refl;
  branches = Advances-refl s.branches;
}
⟶*-Keeps (next {s} {t} {u} r e) =
    let k = ⟶*-Keeps r in
    let l = ⟶-Keeps e in
    record {
      gid = l.gid ∙ k.gid;
      mode = l.mode ∙ k.mode;
      payload = l.payload ∙ k.payload;
      created = l.created ∙ k.created;
      branches = Advances-trans s.branches t.branches u.branches k.branches l.branches;
    }

⟶-never_aborting : {s t : GlobalTxn} → s ⟶ t → s.status ≢ aborting → t.status ≢ aborting
⟶-never_aborting (begin tx at) h = λ e. cc
⟶-never_aborting (execute tx run encoded at) h = h
⟶-never_aborting (conclude tx at) h = final_status-ne-aborting tx.branches
⟶-never_aborting (abort tx at) h = λ e. cc
⟶-never_aborting (add tx branch_id action at new) h = h
⟶-never_aborting (mark tx branch_id status branches at set p) h = h

-- No chain of saves enters the status Aborting.
pub ⟶*-never_aborting : {s t : GlobalTxn} → s ⟶* t → s.status ≢ aborting → t.status ≢ aborting
⟶*-never_aborting here h = h
⟶*-never_aborting (next r e) h = ⟶-never_aborting e (⟶*-never_aborting r h)
