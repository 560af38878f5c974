-- ===== src/Saga/Concurrent/Serial.antt =====
-- Requests that are served one after the other (seata-server/src/saga.rs).
use seata.Base.{
  length-put_nth, nth_or-last, ℕ, zero, suc, ◌≡◌, refl, ◌∙◌, ap, List, [], ◌∷◌, ◌++◌, length,
  length-append, arith,
}
use seata.Repo.{TxnRepo}
use seata.Saga.World.{World, Env, SagaManager}
use seata.Saga.Invariant.{Op, run, apply}
use seata.Saga.Concurrent.{
  finish, program, turn, System, Event, arrives, takes_turn, nth, happen, play,
}
use seata.Saga.Concurrent.Alone.{alone-program}
use seata.Saga.Concurrent.Turns.{program_eight-Within}
use seata.Saga.Concurrent.Overwrites.{again, IsAt, play-again}
use seata.Saga.Concurrent.Dropped.{play-append}

-- Each request arrives when the one before it has had its turns; the first is the `i`-th.
abbrev pub serial : ℕ → List Op → List Event
serial i [] = []
serial i (o ∷ os) = arrives o ∷ again 8 i ++ serial (suc i) os

module _ {S : Type 0} (repo : TxnRepo S) (env : Env) (m : SagaManager) where
  length-again :
      (n i : ℕ) (s : System S) → length (play repo env m (again n i) s).requests ≡ length s.requests
  unfolding play happen
  length-again zero i s = refl
  length-again (suc n) i s =
      length-again n i (happen repo env m (takes_turn i) s)
      ∙ length-put_nth i (turn repo env m (nth i s.requests) s.world).0 s.requests

  serial-from :
      (i : ℕ) (os : List Op) (s : System S)
      → length s.requests ≡ i
      → (play repo env m (serial i os) s).world ≡ run repo env m os s.world
  unfolding play run
  serial-from i [] s e = refl
  serial-from i (o ∷ os) s e =
      let s1 = happen repo env m (arrives o) s in
      let s2 = play repo env m (again 8 i) s1 in
      let at : IsAt repo env m i (program o) s1 =
        unfold happen in
        (
          rw (length-append s.requests (program o ∷ [])) (omega (arith, e)),
          rw (← e) (nth_or-last finish (program o) s.requests),
        ) in
      let longer : length s1.requests ≡ suc i =
        unfold happen in length-append s.requests (program o ∷ []) ∙ omega (arith, e) in
      let one =
        play-again repo env m i 8 (program o) s1 (program_eight-Within o) at
        ∙ alone-program repo env m o s1.world in
      let same : s1.world ≡ s.world = unfold happen in refl in
      ap (λ (t : System S). t.world) (play-append repo env m (again 8 i) (serial (suc i) os) s1)
      ∙ serial-from (suc i) os s2 (length-again 8 i s1 ∙ longer)
      ∙ ap (run repo env m os) (one ∙ ap (apply repo env m o) same)

  -- A server that serves its requests one after the other does what the manager's operations do in
  -- sequence, whether they return or fail.
  pub serial-run :
      (os : List Op) (w : World S)
      → (play repo env m (serial 0 os) (record { world = w; requests = [] })).world
        ≡ run repo env m os w
  serial-run os w = serial-from 0 os (record { world = w; requests = [] }) refl
