-- ===== src/Saga/Concurrent/Overwrites.antt =====
-- A submission decides by the transaction that it loaded (seata-server/src/saga.rs): nothing
-- compares a version before a save, so what the other requests have saved since is lost.
use seata.Saga.Concurrent.Awaited.{turn-await_tasks, alone-await_tasks}
use seata.Base.{
  put_nth, length-put_nth, nth_or-append, nth_or-put_nth, ℕ, zero, suc, ◌<◌, ◌≡◌, refl, sym, ◌∙◌,
  inl, inr, Bool, true, false, not, ◌&&◌, Option, some, List, [], ◌∷◌, Text, Result-cases, map, any,
  text_eq, length, length-append, ◌==◌, arith,
}
use mathlib.Core.Path.{subst}
use seata.Domain.{GlobalTxn, BranchTxn}
use seata.Repo.{TxnRepo, RepoLaws}
use seata.Saga.World.{World, Env, SagaManager, Request}
use seata.Saga.Settle.Reference.{settled}
use seata.Saga.Manager.{has_branch}
use seata.Saga.Steps.{view, Updated}
use seata.Saga.Spec.{finished}
use seata.Saga.Submit.{submit_found_lem}
use seata.Saga.Returns.{Answers, submit_found-Returns}
use seata.Saga.Invariant.{op_submit}
use seata.Saga.Concurrent.{
  Program, finish, await_load, await_save, await_tasks, read_clock, make_uuid, submitting, program,
  turn, alone, System, Event, arrives, takes_turn, dropped, nth, happen, play,
}
use seata.Saga.Concurrent.Alone.{alone-submitting}
use seata.Saga.Concurrent.Turns.{Within, submitting-Within, turn-Within, Within-zero}

-- `n` turns of the `i`-th request, one after the other.
abbrev pub again : ℕ → ℕ → List Event
again zero i = []
again (suc n) i = takes_turn i ∷ again n i

-- None of the events is a turn or the end of the `i`-th request.
abbrev pub leaves : ℕ → List Event → Bool
leaves i [] = true
leaves i (arrives o ∷ es) = leaves i es
leaves i (takes_turn j ∷ es) = not (j == i) && leaves i es
leaves i (dropped j ∷ es) = not (j == i) && leaves i es

has_branch-settled :
    (run : Request → Option Bool) (tx : GlobalTxn) (encoded id : Text) (bs : List BranchTxn)
    → any (λ b. text_eq b.branch_id id) (map (settled run tx encoded) bs)
      ≡ any (λ b. text_eq b.branch_id id) bs
unfolding settled
has_branch-settled run tx encoded id [] = refl
has_branch-settled run tx encoded id (b ∷ bs) =
    ground (arith, has_branch-settled run tx encoded id bs)

module _ {S : Type 0} (repo : TxnRepo S) (env : Env) (m : SagaManager) where
  -- A turn is the first step of the program alone.
  alone-turn :
      (p : Program) (w : World S)
      → alone repo env m (turn repo env m p w).0 (turn repo env m p w).1 ≡ alone repo env m p w
  unfolding turn alone
  alone-turn finish w = refl
  alone-turn (await_load gid rest) w = elim (Result-cases (repo.load gid w.store).0) [
    | inl (found, e) ↦ rw (alone, e)
    | inr (x, e) ↦ rw (alone, e)
  ]
  alone-turn (await_save tx rest) w = elim (Result-cases (repo.save tx w.store).0) [
    | inl (u, e) ↦ rw (alone, e)
    | inr (x, e) ↦ rw (alone, e)
  ]
  alone-turn (await_tasks tx rest) w =
      rw (turn-await_tasks repo env m tx rest w) (sym (alone-await_tasks repo env m tx rest w))
  alone-turn (read_clock rest) w = refl
  alone-turn (make_uuid rest) w = refl

  -- The `i`-th request has arrived, and `p` is left of it.
  abbrev pub IsAt : ℕ → Program → System S → Type 0
  IsAt i p s = (i < length s.requests) × (nth i s.requests ≡ p)

  pub turn-IsAt :
      (i : ℕ) (p : Program) (s : System S)
      → IsAt i p s
      → IsAt i (turn repo env m p s.world).0 (happen repo env m (takes_turn i) s)
        × ((happen repo env m (takes_turn i) s).world ≡ (turn repo env m p s.world).1)
  unfolding happen
  turn-IsAt i p s (h, e) =
      let same : (i == i) ≡ true = ground arith in
      rw e (
        (
          rw (length-put_nth i (turn repo env m p s.world).0 s.requests) h,
          rw (nth_or-put_nth finish i i (turn repo env m p s.world).0 s.requests h, same),
        ),
        refl,
      )

  -- A request that takes its turns one after the other runs as it does alone.
  pub play-again :
      (i n : ℕ) (p : Program) (s : System S)
      → Within n p
      → IsAt i p s
      → (play repo env m (again n i) s).world ≡ alone repo env m p s.world
  unfolding play
  play-again i zero p s bound at =
      let is_finish : p ≡ finish = Within-zero p bound in unfold alone in rw is_finish
  play-again i (suc n) p s bound at =
      let (at', w') = turn-IsAt i p s at in
      play-again i n _ (happen repo env m (takes_turn i) s)
        (turn-Within repo env m n p s.world bound) at'
      ∙ rw w' (alone-turn p s.world)

  put-IsAt :
      (i j : ℕ) (p q : Program) (w : World S) (s : System S)
      → (j == i) ≡ false
      → IsAt i p s
      → IsAt i p (record { world = w; requests = put_nth j q s.requests })
  put-IsAt i j p q w s other (h, e) =
      (rw (length-put_nth j q s.requests) h, rw (nth_or-put_nth finish i j q s.requests h, other) e)

  pub play-IsAt :
      (i : ℕ) (p : Program) (es : List Event) (s : System S)
      → leaves i es ≡ true
      → IsAt i p s
      → IsAt i p (play repo env m es s)
  unfolding play happen
  play-IsAt i p [] s l at = at
  play-IsAt i p (arrives o ∷ es) s l (h, e) = play-IsAt i p es _ l (
    rw (length-append s.requests (program o ∷ [])) (omega (arith, h)),
    nth_or-append finish i s.requests (program o ∷ []) h ∙ e,
  )
  play-IsAt i p (takes_turn j ∷ es) s l at =
      let (q, w) = turn repo env m (nth j s.requests) s.world in
      play-IsAt i p es _ (ground arith) (put-IsAt i j p q w s (ground arith) at)
  play-IsAt i p (dropped j ∷ es) s l at =
      play-IsAt i p es _ (ground arith) (put-IsAt i j p finish s.world s (ground arith) at)

module _ {S : Type 0} (repo : TxnRepo S) (laws : RepoLaws repo) (answers : Answers repo) (env : Env)
    (m : SagaManager) where
  -- A submission that has loaded, when it goes on at last.
  resumed :
      (i : ℕ) (tx : GlobalTxn) (s : System S)
      → IsAt repo env m i (submitting (some tx)) s
      → Updated repo laws
          (finished m env s.world.readings tx)
          s.world
          (play repo env m (again 7 i) s).world
  resumed i tx s at =
      let p = submitting (some tx) in
      let run = play-again repo env m i 7 p s (submitting-Within (some tx)) at in
      let (_, returns) = submit_found-Returns repo answers env m (some tx) s.world in
      let done = submit_found_lem repo laws env m tx s.world returns in
      subst (λ w. Updated repo laws (finished m env s.world.readings tx) s.world w)
        (sym (run ∙ alone-submitting repo env m (some tx) s.world)) done.outcome

  -- Over a lawful repository whose calls return, a submission that loads the transaction `tx`, is
  -- held up while the other requests do whatever they do, and then takes its other seven turns,
  -- stores `tx` as if it had been submitted at that moment: of what the other requests have stored
  -- in the meantime under its gid, such as the branches they have added, nothing is left.
  pub submit_overwrites :
      (i : ℕ) (gid : Text) (tx : GlobalTxn) (es : List Event) (s : System S)
      → i < length s.requests
      → nth i s.requests ≡ program (op_submit gid)
      → view repo laws s.world gid ≡ some tx
      → leaves i es ≡ true
      → let held = play repo env m es (happen repo env m (takes_turn i) s) in
        let tx' = finished m env held.world.readings tx in
        Updated repo laws tx' held.world (play repo env m (again 7 i) held).world
        × ((id : Text) → has_branch tx' id ≡ has_branch tx id)
  unfolding program
  submit_overwrites i gid tx es s h e stored l =
      let (found, loaded) = answers.load_returns gid s.world.store in
      let is_tx : found ≡ some tx = sym (laws.load_ok gid s.world.store found loaded) ∙ stored in
      let (at, _) = turn-IsAt repo env m i (await_load gid submitting) s (h, e) in
      let p : (turn repo env m (await_load gid submitting) s.world).0 ≡ submitting (some tx) =
        unfold turn in rw (loaded, is_tx) in
      let held = play repo env m es (happen repo env m (takes_turn i) s) in
      let at_held = play-IsAt repo env m i (submitting (some tx)) es _ l (at.0, at.1 ∙ p) in
      (
        resumed i tx held at_held,
        λ id. has_branch-settled _ tx (env.base64_encode tx.payload) id tx.branches,
      )
