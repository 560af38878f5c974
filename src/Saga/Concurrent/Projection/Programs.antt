-- ===== src/Saga/Concurrent/Projection/Programs.antt =====
-- A request on a transaction does the same on the transaction with other time stamps
-- (seata-server/src/saga.rs).
use seata.Base.{
  ◌≡◌, ◌≢◌, refl, sym, ap, ◌∙◌, inl, inr, true, Option, none, some, [], ◌∷◌, Text, text_eq,
  text_eq→eq, Bool-cases, Option-cases,
}
use seata.Domain.{ℤ, GlobalTxn, BranchStatus, succeed, failed, aborted, committing}
use seata.Saga.Settle.{final_status}
use seata.Saga.Manager.{has_branch, set_branch, push_branch, fail_unfinished}
use seata.Saga.Invariant.{Op, op_start, op_submit, op_abort, op_add, op_succeed, op_fail}
use seata.Saga.Concurrent.{
  Program, finish, await_load, await_save, await_tasks, read_clock, stamped_then, started,
  concluding, submitting, aborting_found, adding, setting, program,
}
use seata.Saga.Concurrent.Isolation.{op_gid}
use seata.Saga.Concurrent.Projection.{Same, SameFound}

-- What is found is under its own gid.
abbrev pub Under : Text → Option GlobalTxn → Type 0
Under g none = Unit
Under g (some t) = t.gid ≡ g

-- Two requests on `g` that do the same, if they find the same, and save the same.
pub data Follows (g : Text) : Program → Program → Type 0 where
  both_finish : Follows g finish finish
  both_load :
      {gid gid' : Text} {r r' : Option GlobalTxn → Program}
      → gid ≡ g
      → ((f f' : Option GlobalTxn) → Under g f → SameFound f f' → Follows g (r f) (r' f'))
      → Follows g (await_load gid r) (await_load gid' r')
  both_save :
      {t t' : GlobalTxn} {r r' : Program}
      → t.gid ≡ g
      → Same t t'
      → Follows g r r'
      → Follows g (await_save t r) (await_save t' r')
  both_run :
      {t t' : GlobalTxn} {r r' : GlobalTxn → Program}
      → Same t t'
      → ((u u' : GlobalTxn) → u.gid ≡ t.gid → Same u u' → Follows g (r u) (r' u'))
      → Follows g (await_tasks t r) (await_tasks t' r')
  both_read :
      {r r' : ℤ → Program}
      → ((at at' : ℤ) → Follows g (r at) (r' at'))
      → Follows g (read_clock r) (read_clock r')

module _ (g : Text) where
  -- A change of a transaction that does not read the time stamps.
  stamped-Follows :
      (t t' : GlobalTxn) (r r' : GlobalTxn → Program)
      → t.gid ≡ g
      → Same t t'
      → ((u u' : GlobalTxn) → u.gid ≡ g → Same u u' → Follows g (r u) (r' u'))
      → Follows g (stamped_then t r) (stamped_then t' r')
  unfolding stamped_then
  stamped-Follows t t' r r' own same rest =
      both_read (λ at at'. both_save own same (rest _ _ own same))

  finish-Follows : (u u' : GlobalTxn) → u.gid ≡ g → Same u u' → Follows g finish finish
  finish-Follows u u' own same = both_finish

  concluding-Follows :
      (t t' : GlobalTxn) → t.gid ≡ g → Same t t' → Follows g (concluding t) (concluding t')
  unfolding concluding
  concluding-Follows t t' own same =
      stamped-Follows _ _ _ _ own
        (ap (λ (x : GlobalTxn). record x { status = final_status x.branches }) same) finish-Follows

  submitting-Follows :
      (f f' : Option GlobalTxn)
      → Under g f
      → SameFound f f'
      → Follows g (submitting f) (submitting f')
  unfolding submitting
  submitting-Follows none none own same = both_finish
  submitting-Follows none (some t') own same = absurd same
  submitting-Follows (some t) none own same = absurd same
  submitting-Follows (some t) (some t') own same =
      stamped-Follows _ _ _ _ own (ap (λ (x : GlobalTxn). record x { status = committing }) same)
        (λ u u' own_u same_u. both_run same_u (λ v v' own_v same_v.
          stamped-Follows v v' concluding concluding (own_v ∙ own_u) same_v concluding-Follows))

  aborting-Follows :
      (f f' : Option GlobalTxn)
      → Under g f
      → SameFound f f'
      → Follows g (aborting_found f) (aborting_found f')
  unfolding aborting_found
  aborting-Follows none none own same = both_finish
  aborting-Follows none (some t') own same = absurd same
  aborting-Follows (some t) none own same = absurd same
  aborting-Follows (some t) (some t') own same =
      stamped-Follows _ _ _ _ own
        (ap
          (λ (x : GlobalTxn). record x { branches = fail_unfinished x.branches; status = aborted })
          same)
        finish-Follows

  adding-Follows :
      (branch_id action : Text) (f f' : Option GlobalTxn)
      → Under g f
      → SameFound f f'
      → Follows g (adding branch_id action f) (adding branch_id action f')
  unfolding adding
  adding-Follows branch_id action none none own same = both_finish
  adding-Follows branch_id action none (some t') own same = absurd same
  adding-Follows branch_id action (some t) none own same = absurd same
  adding-Follows branch_id action (some t) (some t') own same =
      let has : has_branch t branch_id ≡ has_branch t' branch_id =
        ap (λ x. has_branch x branch_id) same in
      elim (Bool-cases (has_branch t branch_id)) [
        | inl old ↦ rw (old, sym has ∙ old) both_finish
        | inr new ↦
            rw (new, sym has ∙ new)
              (stamped-Follows _ _ _ _ own (ap (λ x. push_branch x branch_id action) same)
                finish-Follows)
      ]

  setting-Follows :
      (branch_id : Text) (status : BranchStatus) (f f' : Option GlobalTxn)
      → Under g f
      → SameFound f f'
      → Follows g (setting branch_id status f) (setting branch_id status f')
  unfolding setting
  setting-Follows branch_id status none none own same = both_finish
  setting-Follows branch_id status none (some t') own same = absurd same
  setting-Follows branch_id status (some t) none own same = absurd same
  setting-Follows branch_id status (some t) (some t') own same =
      let sets : set_branch branch_id status t.branches ≡ set_branch branch_id status t'.branches =
        ap (λ x. set_branch branch_id status x.branches) same in
      elim (Option-cases (set_branch branch_id status t.branches)) [
        | inl missing ↦ rw (setting, missing, sym sets ∙ missing) both_finish
        | inr (bs, set) ↦
            rw (setting, set, sym sets ∙ set)
              (stamped-Follows _ _ _ _ own (ap (λ (x : GlobalTxn). record x { branches = bs }) same)
                finish-Follows)
      ]

  started-Follows :
      (mode : Text) (payload : Text) (gid : Text)
      → gid ≡ g
      → Follows g (started mode payload gid) (started mode payload gid)
  unfolding started
  started-Follows mode payload gid own = both_read (λ at at'. both_save own refl both_finish)

  pub program-Follows :
      (o : Op) → g ≢ [] → text_eq (op_gid o) g ≡ true → Follows g (program o) (program o)
  unfolding program
  program-Follows (op_start [] mode payload) has own = absurd (has (sym (text_eq→eq [] g own)))
  program-Follows (op_start (c ∷ gid) mode payload) has own =
      started-Follows mode payload (c ∷ gid) (text_eq→eq (c ∷ gid) g own)
  program-Follows (op_submit gid) has own = both_load (text_eq→eq gid g own) (submitting-Follows)
  program-Follows (op_abort gid) has own = both_load (text_eq→eq gid g own) (aborting-Follows)
  program-Follows (op_add gid branch_id action) has own =
      both_load (text_eq→eq gid g own) (adding-Follows branch_id action)
  program-Follows (op_succeed gid branch_id) has own =
      both_load (text_eq→eq gid g own) (setting-Follows branch_id succeed)
  program-Follows (op_fail gid branch_id) has own =
      both_load (text_eq→eq gid g own) (setting-Follows branch_id failed)
