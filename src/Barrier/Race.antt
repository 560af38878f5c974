-- ===== src/Barrier/Race.antt =====
-- Two calls of `insert` with one key at the same time (seata-server/src/barrier.rs): each reads, and
-- then writes if it found nothing; the other call may come in between.
pub mod Steps
pub mod Outcome
use seata.Base.{
  ◌≡◌, ◌⊎◌, refl, sym, ap, ◌∙◌, Bool, true, false, Option, none, some, List, [], ◌∷◌, Text, Result,
  ok, Io, ◌>>=◌, pure, is_some, arith, inl, inr, Result-cases, bind_ok, text_eq_refl,
}
use seata.Kv.{Kv, KvLaws}
use seata.Domain.{BarrierPhase}
use seata.Barrier.{insert_found, insert, key}

-- Where a call is: before its read, between read and write, or returned.
pub data Call : Type 0 where
  called : Call
  has_read : Option Text → Call
  returned : Bool → Call

pub data Turn : Type 0 where
  first second : Turn

module _ {S : Type 0} (kv : Kv S) (k : Text) where
  -- The next access of a call to the store.
  unfoldable pub advance : Call → Io S Call
  advance called = do found ← kv.get k; pure (has_read found)
  advance (has_read found) = do fresh ← insert_found kv k found; pure (returned fresh)
  advance (returned fresh) = pure (returned fresh)

  -- Both calls, in the order of the turns.
  unfoldable pub interleave : List Turn → Call × Call → Io S (Call × Call)
  interleave [] calls = pure calls
  interleave (first ∷ turns) (a, b) = do a' ← advance a; interleave turns (a', b)
  interleave (second ∷ turns) (a, b) = do b' ← advance b; interleave turns (a, b')

module _ {S : Type 0} (kv : Kv S) where
  -- `insert` is one call's two turns, with no other call between them.
  pub insert_two_turns :
      (gid branch_id : Text) (phase : BarrierPhase) (other : Call) (s : S)
      → interleave kv (key gid branch_id phase) (first ∷ first ∷ []) (called, other) s
        ≡ (insert kv gid branch_id phase >>= λ fresh. pure (returned fresh, other)) s
  unfolding interleave advance insert
  insert_two_turns gid branch_id phase other s =
      let k = key gid branch_id phase in
      elim (Result-cases (kv.get k s).0) [
        | inr (x, bad) ↦ rw bad
        | inl (found, got) ↦ elim (Result-cases (insert_found kv k found (kv.get k s).1).0) [
          | inr (x, bad) ↦ rw (got, bad)
          | inl (fresh, e) ↦ rw (got, e)
        ]
      ]

module _ {S : Type 0} (kv : Kv S) (laws : KvLaws kv) (k : Text) where
  abbrev pub is_held : S → Bool
  is_held s = is_some (laws.find s k)

  -- What a call has seen or said is not more than the store holds.
  abbrev pub Honest : S → Call → Type 0
  Honest s called = Unit
  Honest s (has_read none) = Unit
  Honest s (has_read (some v)) = is_held s ≡ true
  Honest s (returned b) = is_held s ≡ true

  -- Someone has put the barrier there.
  abbrev pub Wins : Call → Type 0
  Wins c = c ≡ returned true

  record Fair (s : S) (calls : Call × Call) : Type 0 where
    honest_first : Honest s calls.0
    honest_second : Honest s calls.1
    winner : is_held s ≡ true → Wins calls.0 ⊎ Wins calls.1

  Honest-grows :
      (s s' : S) (c : Call) → (is_held s ≡ true → is_held s' ≡ true) → Honest s c → Honest s' c
  Honest-grows s s' called g h = tt
  Honest-grows s s' (has_read none) g h = tt
  Honest-grows s s' (has_read (some v)) g h = g h
  Honest-grows s s' (returned b) g h = g h

  -- One access: the call stays honest, the barrier is not lost, and it comes from this call only
  -- by winning; who has won stays so.
  pub record Advanced (s s' : S) (c c' : Call) : Type 0 where
    pub honest : Honest s' c'
    pub grows : is_held s ≡ true → is_held s' ≡ true
    pub won : is_held s' ≡ true → (is_held s ≡ true) ⊎ Wins c'
    pub keeps : Wins c → Wins c'

  read-Honest : (s : S) (found : Option Text) → laws.find s k ≡ found → Honest s (has_read found)
  read-Honest s none e = tt
  read-Honest s (some v) e = rw e

  pub advance_lem :
      (c c' : Call) (s : S)
      → Honest s c
      → (advance kv k c s).0 ≡ ok c'
      → Advanced s (advance kv k c s).1 c c'
  unfolding advance insert_found
  advance_lem called c' s h e =
      let (found, got, rest) = bind_ok (kv.get k) (λ found. pure (has_read found)) s c' e in
      let same = laws.get_keeps k s k in
      let is_read : has_read found ≡ c' = cc in
      let now = laws.get_ok k s found got in
      rw (rest, ← is_read)
        (record {
          honest = read-Honest (kv.get k s).1 found (same ∙ now);
          grows = λ held. rw same held;
          won = λ held. inl (rw same at held);
          keeps = λ wins. absurd (ground arith);
        })
  advance_lem (has_read (some v)) c' s h e =
      let is_false : returned false ≡ c' = cc in
      rw (← is_false) (record {
        honest = h;
        grows = λ x. x;
        won = λ x. inl x;
        keeps = λ wins. absurd (ground arith);
      })
  advance_lem (has_read none) c' s h e = elim (Result-cases (kv.put k [] s).0) [
    | inl (u, done) ↦
        let put : laws.find (kv.put k [] s).1 k ≡ some [] =
          laws.put_ok k [] s done k ∙ rw (text_eq_refl k) in
        let held : is_held (kv.put k [] s).1 ≡ true = rw put in
        let is_true : returned true ≡ c' = ground arith in
        rw (done, ← is_true)
          (record { honest = held; grows = λ _. held; won = λ _. inr refl; keeps = λ wins. refl })
    | inr (x, bad) ↦ absurd (ground arith)
  ]
  advance_lem (returned b) c' s h e =
      let is_same : returned b ≡ c' = cc in
      rw (← is_same) (record { honest = h; grows = λ x. x; won = λ x. inl x; keeps = λ x. x })

  Wins-moves :
      (s s' : S) (c c' d : Call)
      → Advanced s s' c c'
      → (is_held s ≡ true → Wins c ⊎ Wins d)
      → is_held s' ≡ true
      → Wins c' ⊎ Wins d
  Wins-moves s s' c c' d adv w held = elim (adv.won held) [
    | inr new ↦ inl new
    | inl before ↦ elim (w before) [ inl x ↦ inl (adv.keeps x) | inr y ↦ inr y ]
  ]

  swapped : {A B : Type 0} → A ⊎ B → B ⊎ A
  swapped (inl a) = inr a
  swapped (inr b) = inl b

  interleave-Fair :
      (turns : List Turn) (calls calls' : Call × Call) (s : S)
      → Fair s calls
      → (interleave kv k turns calls s).0 ≡ ok calls'
      → Fair (interleave kv k turns calls s).1 calls'
  unfolding interleave
  interleave-Fair [] calls calls' s f e = let same : calls ≡ calls' = cc in rw (← same) f
  interleave-Fair (first ∷ turns) (a, b) calls' s f e =
      let (a', step, rest) =
        bind_ok (advance kv k a) (λ a'. interleave kv k turns (a', b)) s calls' e in
      let s1 = (advance kv k a s).1 in
      let adv = advance_lem a a' s f.honest_first step in
      rw rest (
        interleave-Fair turns (a', b) calls' s1
          (record {
            honest_first = adv.honest;
            honest_second = Honest-grows s s1 b adv.grows f.honest_second;
            winner = Wins-moves s s1 a a' b adv f.winner;
          })
          (sym (ap (λ (p : Result (Call × Call) × S). p.0) rest) ∙ e))
  interleave-Fair (second ∷ turns) (a, b) calls' s f e =
      let (b', step, rest) =
        bind_ok (advance kv k b) (λ b'. interleave kv k turns (a, b')) s calls' e in
      let s1 = (advance kv k b s).1 in
      let adv = advance_lem b b' s f.honest_second step in
      rw rest (
        interleave-Fair turns (a, b') calls' s1
          (record {
            honest_first = Honest-grows s s1 a adv.grows f.honest_first;
            honest_second = adv.honest;
            winner = λ held. swapped (Wins-moves s s1 b b' a adv (λ x. swapped (f.winner x)) held);
          })
          (sym (ap (λ (p : Result (Call × Call) × S). p.0) rest) ∙ e))

  -- Over a lawful store that does not hold the barrier, in every order of the accesses of two calls
  -- with one key: when both have returned, the barrier is held, and at least one of them returned
  -- `true`, so the barrier is never set without a call that goes through.
  pub insert_someone_wins :
      (turns : List Turn) (s : S) (x y : Bool)
      → is_held s ≡ false
      → (interleave kv k turns (called, called) s).0 ≡ ok (returned x, returned y)
      → (is_held (interleave kv k turns (called, called) s).1 ≡ true) × ((x ≡ true) ⊎ (y ≡ true))
  insert_someone_wins turns s x y free e =
      let f =
        interleave-Fair turns (called, called) (returned x, returned y) s
          (record { honest_first = tt; honest_second = tt; winner = λ held. absurd (ground arith) })
          e in
      (f.honest_first, elim (f.winner f.honest_first) [ inl w ↦ inl cc | inr w ↦ inr cc ])

  -- Over a lawful store that does not hold the barrier, both calls may go through: if both read
  -- before either writes, and all four accesses return, both return `true`.
  insert_race :
      (s : S) (a b : Call)
      → is_held s ≡ false
      → (interleave kv k (first ∷ second ∷ first ∷ second ∷ []) (called, called) s).0 ≡ ok (a, b)
      → (a ≡ returned true) × (b ≡ returned true)
  unfolding interleave advance insert_found
  insert_race s a b free e =
      let s1 = (kv.get k s).1 in
      let same = laws.get_keeps k s k in
      elim (Result-cases (kv.get k s).0) [
        | inr (x, bad) ↦ absurd (ground arith)
        | inl (some v, e1) ↦ absurd (let found = laws.get_ok k s (some v) e1 in ground arith)
        | inl (none, e1) ↦ elim (Result-cases (kv.get k s1).0) [
          | inr (x, bad) ↦ absurd (ground arith)
          | inl (some v, e2) ↦ absurd (let found = laws.get_ok k s1 (some v) e2 in ground arith)
          | inl (none, e2) ↦
              let s2 = (kv.get k s1).1 in
              elim (Result-cases (kv.put k [] s2).0) [
                | inr (x, bad) ↦ absurd (ground arith)
                | inl (u, e3) ↦ elim (Result-cases (kv.put k [] (kv.put k [] s2).1).0) [
                  | inr (x, bad) ↦ absurd (ground arith)
                  | inl (u', e4) ↦ ground arith
                ]
              ]
        ]
      ]
