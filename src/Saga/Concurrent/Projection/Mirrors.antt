-- ===== src/Saga/Concurrent/Projection/Mirrors.antt =====
-- Every interleaving mirrors, on each transaction, the server that stores this one only
-- (seata-server/src/saga.rs).
use seata.Base.{
  ℕ, zero, suc, ◌≡◌, ◌≢◌, refl, inl, inr, false, Option, none, some, List, [], ◌∷◌, ◌++◌, Text,
  text_eq, Bool-cases, put_nth,
}
use seata.Domain.{GlobalTxn}
use seata.Repo.{TxnRepo, RepoLaws}
use seata.Saga.World.{World, Env, SagaManager}
use seata.Saga.Steps.{view}
use seata.Saga.Returns.{Answers}
use seata.Saga.Invariant.{AllWell, Op}
use seata.Saga.Concurrent.{
  Program, finish, program, turn, System, Event, arrives, takes_turn, dropped, nth, happen, play,
}
use seata.Saga.Concurrent.Safety.{SafeSystem, happen-Safe}
use seata.Saga.Concurrent.Isolation.{op_gid, Avoids, program-Avoids, turn-Avoids}
use seata.Saga.Concurrent.Projection.{
  SameFound, local_turn, Local, local_program, local_happen, local_play,
}
use seata.Saga.Concurrent.Projection.Programs.{Follows, both_finish, program-Follows}
use seata.Saga.Concurrent.Projection.Follows.{IsSteady, turn-Follows}

-- A request on `g` is followed; one on another transaction is nothing.
data Mirrors (g : Text) : Program → Program → Type 0 where
  own : {p q : Program} → Follows g p q → Mirrors g p q
  other : {p : Program} → Avoids g p → Mirrors g p finish

data AllMirror (g : Text) : List Program → List Program → Type 0 where
  no_more : AllMirror g [] []
  and_more :
      {p q : Program} {ps qs : List Program}
      → Mirrors g p q
      → AllMirror g ps qs
      → AllMirror g (p ∷ ps) (q ∷ qs)

module _ {g : Text} where
  AllMirror-nth :
      (i : ℕ) {ps qs : List Program} → AllMirror g ps qs → Mirrors g (nth i ps) (nth i qs)
  AllMirror-nth i no_more = own both_finish
  AllMirror-nth zero (and_more m ms) = m
  AllMirror-nth (suc i) (and_more m ms) = AllMirror-nth i ms

  AllMirror-put_nth :
      (i : ℕ) {p q : Program} {ps qs : List Program}
      → Mirrors g p q
      → AllMirror g ps qs
      → AllMirror g (put_nth i p ps) (put_nth i q qs)
  AllMirror-put_nth i m no_more = no_more
  AllMirror-put_nth zero m (and_more _ ms) = and_more m ms
  AllMirror-put_nth (suc i) m (and_more m' ms) = and_more m' (AllMirror-put_nth i m ms)

  AllMirror-append :
      {p q : Program} {ps qs : List Program}
      → Mirrors g p q
      → AllMirror g ps qs
      → AllMirror g (ps ++ p ∷ []) (qs ++ q ∷ [])
  AllMirror-append m no_more = and_more m no_more
  AllMirror-append m (and_more m' ms) = and_more m' (AllMirror-append m ms)

program-Mirrors :
    (g : Text) (o : Op) → g ≢ [] → Mirrors g (program o) (local_program g (op_gid o) (program o))
program-Mirrors g o has = elim (Bool-cases (text_eq (op_gid o) g)) [
  | inl here ↦ rw here (own (program-Follows g o has here))
  | inr there ↦ rw there (other (program-Avoids g o there))
]

module _ {S : Type 0} (repo : TxnRepo S) (laws : RepoLaws repo) (answers : Answers repo) (env : Env)
    (m : SagaManager) (g : Text) (steady : IsSteady env) (fresh : (n : ℕ) → env.uuid n ≢ [])
    (no_uuid : (n : ℕ) → text_eq (env.uuid n) g ≡ false) (has : g ≢ []) where
  turn-Mirrors :
      {p q : Program} (w : World S) (s : Option GlobalTxn)
      → Mirrors g p q
      → AllWell repo laws w
      → SameFound (view repo laws w g) s
      → Mirrors g (turn repo env m p w).0 (local_turn env m q s).0
        × SameFound (view repo laws (turn repo env m p w).1 g) (local_turn env m q s).1
  turn-Mirrors w s (own f) well agrees =
      let (f', agrees') = turn-Follows repo laws answers env m steady g w s f well agrees in
      (own f', agrees')
  turn-Mirrors w s (other {p} a) well agrees =
      let (a', kept) = turn-Avoids repo laws env m g no_uuid p w a well in
      (other a', rw kept agrees)

  -- The server and the local one, after the same events.
  record Projects (s : System S) (l : Local env m) : Type 0 where
    agrees : SameFound (view repo laws s.world g) l.stored
    mirrors : AllMirror g s.requests l.requests

  happen-Projects :
      (e : Event) (s : System S) (l : Local env m)
      → SafeSystem repo laws env m s
      → Projects s l
      → Projects (happen repo env m e s) (local_happen env m g e l)
  unfolding happen
  happen-Projects (arrives o) s l safe h = record {
    agrees = h.agrees;
    mirrors = AllMirror-append (program-Mirrors g o has) h.mirrors;
  }
  happen-Projects (takes_turn i) s l safe h =
      let (mirror, agrees) =
        turn-Mirrors s.world l.stored (AllMirror-nth i h.mirrors) safe.0 h.agrees in
      record { agrees = agrees; mirrors = AllMirror-put_nth i mirror h.mirrors }
  happen-Projects (dropped i) s l safe h = record {
    agrees = h.agrees;
    mirrors = AllMirror-put_nth i (own both_finish) h.mirrors;
  }

  play-Projects :
      (es : List Event) (s : System S) (l : Local env m)
      → SafeSystem repo laws env m s
      → Projects s l
      → Projects (play repo env m es s) (local_play env m g es l)
  unfolding play
  play-Projects [] s l safe h = h
  play-Projects (e ∷ es) s l safe h =
      play-Projects es _ _ (happen-Safe repo laws env m e s fresh safe)
        (happen-Projects e s l safe h)

SameFound-refl : (f : Option GlobalTxn) → SameFound f f
SameFound-refl none = tt
SameFound-refl (some t) = refl

module _ {S : Type 0} (repo : TxnRepo S) (laws : RepoLaws repo) (answers : Answers repo) (env : Env)
    (m : SagaManager) where
  -- Over a lawful repository whose calls return and that holds well-formed transactions only, with
  -- UUIDs that are neither empty nor `g`, a gid `g` that is not empty, and a remote whose answer to
  -- a request does not depend on when it is sent: whatever requests arrive at an idle server, and
  -- however their turns interleave or are dropped, what is stored under `g` in the end is, but for
  -- the time stamps, what a server leaves that stores the transaction `g` only, treats the requests
  -- on other gids as nothing, and takes the same events in the same order.
  pub play-projects :
      (g : Text) (es : List Event) (w : World S)
      → IsSteady env
      → ((n : ℕ) → env.uuid n ≢ [])
      → ((n : ℕ) → text_eq (env.uuid n) g ≡ false)
      → g ≢ []
      → AllWell repo laws w
      → SameFound
          (view repo laws (play repo env m es (record { world = w; requests = [] })).world g)
          (local_play env m g es (record { stored = view repo laws w g; requests = [] })).stored
  play-projects g es w steady fresh no_uuid has well =
      (play-Projects repo laws answers env m g steady fresh no_uuid has es
        (record { world = w; requests = [] })
        (record { stored = view repo laws w g; requests = [] }) (well, tt)
        (record { agrees = SameFound-refl (view repo laws w g); mirrors = no_more })).agrees
