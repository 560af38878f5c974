-- ===== src/Barrier/Race/Outcome.antt =====
-- What two calls of `insert` with one key return, for every order of their accesses
-- (`insert` of seata-server/src/barrier.rs).
use seata.Base.{
  ◌≡◌, ◌⊎◌, sym, ap, ◌∙◌, Bool, true, false, ◌&&◌, ◌||◌, none, List, [], ◌∷◌, Text, ok, arith, inl,
  inr, bind_ok,
}
use seata.Kv.{Kv, KvLaws}
use seata.Barrier.Race.{
  insert_someone_wins, Call, called, has_read, returned, Turn, first, second, advance, interleave,
  is_held,
}
use seata.Barrier.Race.Steps.{
  Racing, Ahead, interleave-keeps, Racing-advance, Ahead-first, Ahead-second, reads_free, writes,
}

-- Both calls read before either writes.
abbrev pub overlap : List Turn → Bool
overlap (first ∷ second ∷ turns) = true
overlap (second ∷ first ∷ turns) = true
overlap _ = false

module _ {S : Type 0} (kv : Kv S) (laws : KvLaws kv) (k : Text) where
  -- The first call has written before the second has read, or the other way round.
  ahead_lem :
      (turns : List Turn) (s : S) (a : Call) (x y : Bool)
      → Ahead kv laws k s a called
      → (interleave kv k turns (a, called) s).0 ≡ ok (returned x, returned y)
      → (x && y) ≡ false
  ahead_lem turns s a x y ahead e =
      let (held, wins, behind) =
        interleave-keeps kv laws k (Ahead kv laws k) (Ahead-first kv laws k)
          (Ahead-second kv laws k) turns s a called (returned x) (returned y) ahead e in
      let is_behind : y ≡ false = behind in ground arith

  behind_lem :
      (turns : List Turn) (s : S) (b : Call) (x y : Bool)
      → Ahead kv laws k s b called
      → (interleave kv k turns (called, b) s).0 ≡ ok (returned x, returned y)
      → (x && y) ≡ false
  behind_lem turns s b x y ahead e =
      let (held, wins, behind) =
        interleave-keeps kv laws k (λ s a b. Ahead kv laws k s b a)
          (λ s a b. Ahead-second kv laws k s b a) (λ s a b. Ahead-first kv laws k s b a) turns s
          called b (returned x) (returned y) ahead e in
      rw behind

  racing_lem :
      (turns : List Turn) (s : S) (x y : Bool)
      → (interleave kv k turns (has_read none, has_read none) s).0 ≡ ok (returned x, returned y)
      → (x && y) ≡ true
  racing_lem turns s x y e =
      let (both_x, both_y) =
        interleave-keeps kv laws k (λ s a b. Racing a × Racing b)
          (λ s a b a' r step. (Racing-advance kv laws k a a' s r.0 step, r.1))
          (λ s a b b' r step. (r.0, Racing-advance kv laws k b b' s r.1 step)) turns s
          (has_read none) (has_read none) (returned x) (returned y) (tt, tt) e in
      rw (both_x, both_y)

  -- After the first access.
  after_first :
      (turns : List Turn) (s : S) (x y : Bool)
      → is_held kv laws k s ≡ false
      → (interleave kv k turns (has_read none, called) s).0 ≡ ok (returned x, returned y)
      → (x && y) ≡ overlap (first ∷ turns)
  unfolding interleave
  after_first [] s x y free e = absurd (cc)
  after_first (first ∷ turns) s x y free e =
      let (a, step, rest) =
        bind_ok (advance kv k (has_read none)) (λ a. interleave kv k turns (a, called)) s _ e in
      ahead_lem turns (advance kv k (has_read none) s).1 a x y (writes kv laws k s a step)
        (sym (ap (λ p. p.0) rest) ∙ e)
  after_first (second ∷ turns) s x y free e =
      let (b, step, rest) =
        bind_ok (advance kv k called) (λ b. interleave kv k turns (has_read none, b)) s _ e in
      racing_lem turns (advance kv k called s).1 x y
        (rw ((reads_free kv laws k s b free step).0) at (sym (ap (λ p. p.0) rest) ∙ e))

  after_second :
      (turns : List Turn) (s : S) (x y : Bool)
      → is_held kv laws k s ≡ false
      → (interleave kv k turns (called, has_read none) s).0 ≡ ok (returned x, returned y)
      → (x && y) ≡ overlap (second ∷ turns)
  unfolding interleave
  after_second [] s x y free e = absurd (cc)
  after_second (first ∷ turns) s x y free e =
      let (a, step, rest) =
        bind_ok (advance kv k called) (λ a. interleave kv k turns (a, has_read none)) s _ e in
      racing_lem turns (advance kv k called s).1 x y
        (rw ((reads_free kv laws k s a free step).0) at (sym (ap (λ p. p.0) rest) ∙ e))
  after_second (second ∷ turns) s x y free e =
      let (b, step, rest) =
        bind_ok (advance kv k (has_read none)) (λ b. interleave kv k turns (called, b)) s _ e in
      behind_lem turns (advance kv k (has_read none) s).1 b x y (writes kv laws k s b step)
        (sym (ap (λ p. p.0) rest) ∙ e)

  both_lem :
      (turns : List Turn) (s : S) (x y : Bool)
      → is_held kv laws k s ≡ false
      → (interleave kv k turns (called, called) s).0 ≡ ok (returned x, returned y)
      → (x && y) ≡ overlap turns
  unfolding interleave
  both_lem [] s x y free e = absurd (cc)
  both_lem (first ∷ turns) s x y free e =
      let (a, step, rest) =
        bind_ok (advance kv k called) (λ a. interleave kv k turns (a, called)) s _ e in
      let (is_read, still) = reads_free kv laws k s a free step in
      after_first turns (advance kv k called s).1 x y still
        (rw is_read at (sym (ap (λ p. p.0) rest) ∙ e))
  both_lem (second ∷ turns) s x y free e =
      let (b, step, rest) =
        bind_ok (advance kv k called) (λ b. interleave kv k turns (called, b)) s _ e in
      let (is_read, still) = reads_free kv laws k s b free step in
      after_second turns (advance kv k called s).1 x y still
        (rw is_read at (sym (ap (λ p. p.0) rest) ∙ e))

  either : {x y : Bool} → (x ≡ true) ⊎ (y ≡ true) → (x || y) ≡ true
  either (inl h) = rw h
  either {x} (inr h) = ground (arith, h)

  -- Over a lawful store that does not hold the barrier, in every order of the accesses of two calls
  -- with one key, once both have returned: the barrier is held, at least one of them returned
  -- `true`, and both did exactly if both read before either wrote.
  pub calls_race :
      (turns : List Turn) (s : S) (x y : Bool)
      → is_held kv laws k s ≡ false
      → (interleave kv k turns (called, called) s).0 ≡ ok (returned x, returned y)
      → (is_held kv laws k (interleave kv k turns (called, called) s).1 ≡ true)
        × ((x || y) ≡ true)
        × ((x && y) ≡ overlap turns)
  calls_race turns s x y free e =
      let (held, wins) = insert_someone_wins kv laws k turns s x y free e in
      (held, either wins, both_lem turns s x y free e)
