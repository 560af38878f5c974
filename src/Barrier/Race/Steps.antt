-- ===== src/Barrier/Race/Steps.antt =====
-- One access of a call of `insert`, when the other has set the barrier, or neither has
-- (seata-server/src/barrier.rs).
use seata.Base.{
  ◌≡◌, refl, sym, ap, ◌∙◌, true, false, Option, none, some, List, [], ◌∷◌, Text, ok, pure, is_some,
  arith, inl, inr, Result-cases, bind_ok, text_eq_refl,
}
use seata.Kv.{Kv, KvLaws}
use seata.Barrier.{insert_found}
use seata.Barrier.Race.{
  Call, called, has_read, returned, Turn, first, second, advance, interleave, is_held, Honest, Wins,
  advance_lem,
}

-- The call has found nothing, or has set the barrier.
abbrev pub Racing : Call → Type 0
Racing called = ⊥
Racing (has_read none) = Unit
Racing (has_read (some v)) = ⊥
Racing (returned b) = b ≡ true

-- The call has not read, or has found the barrier.
abbrev pub Behind : Call → Type 0
Behind called = Unit
Behind (has_read none) = ⊥
Behind (has_read (some v)) = Unit
Behind (returned b) = b ≡ false

Behind-read : (found : Option Text) → is_some found ≡ true → Behind (has_read found)
Behind-read none h = absurd (ground arith)
Behind-read (some v) h = tt

not_found : (found : Option Text) → is_some found ≡ false → found ≡ none
not_found none h = refl
not_found (some v) h = absurd (ground arith)

module _ {S : Type 0} (kv : Kv S) (laws : KvLaws kv) (k : Text) where
  -- What every access of either call keeps, the two of them keep.
  pub interleave-keeps :
      (P : S → Call → Call → Type 0)
      → ((s : S) (a b a' : Call)
          → P s a b
          → (advance kv k a s).0 ≡ ok a'
          → P (advance kv k a s).1 a' b)
      → ((s : S) (a b b' : Call)
          → P s a b
          → (advance kv k b s).0 ≡ ok b'
          → P (advance kv k b s).1 a b')
      → (turns : List Turn) (s : S) (a b a' b' : Call) → P s a b
      → (interleave kv k turns (a, b) s).0 ≡ ok (a', b')
      → P (interleave kv k turns (a, b) s).1 a' b'
  unfolding interleave
  interleave-keeps P f g [] s a b a' b' p e =
      let same_a : a ≡ a' = cc in let same_b : b ≡ b' = cc in rw (← same_a, ← same_b) p
  interleave-keeps P f g (first ∷ turns) s a b a' b' p e =
      let (a1, step, rest) =
        bind_ok (advance kv k a) (λ a1. interleave kv k turns (a1, b)) s (a', b') e in
      rw rest (
        interleave-keeps P f g turns (advance kv k a s).1 a1 b a' b' (f s a b a1 p step)
          (sym (ap (λ p. p.0) rest) ∙ e))
  interleave-keeps P f g (second ∷ turns) s a b a' b' p e =
      let (b1, step, rest) =
        bind_ok (advance kv k b) (λ b1. interleave kv k turns (a, b1)) s (a', b') e in
      rw rest (
        interleave-keeps P f g turns (advance kv k b s).1 a b1 a' b' (g s a b b1 p step)
          (sym (ap (λ p. p.0) rest) ∙ e))

  pub Racing-advance : (c c' : Call) (s : S) → Racing c → (advance kv k c s).0 ≡ ok c' → Racing c'
  unfolding advance insert_found
  Racing-advance called c' s r e = absurd r
  Racing-advance (has_read none) c' s r e = elim (Result-cases (kv.put k [] s).0) [
    | inl (u, put) ↦ let now : returned true ≡ c' = ground arith in rw (← now) refl
    | inr (x, bad) ↦ absurd (ground arith)
  ]
  Racing-advance (has_read (some v)) c' s r e = absurd r
  Racing-advance (returned b) c' s r e = let now : returned b ≡ c' = cc in rw (← now) r

  Behind-Honest : (c : Call) (s : S) → is_held kv laws k s ≡ true → Behind c → Honest kv laws k s c
  Behind-Honest called s held h = tt
  Behind-Honest (has_read none) s held h = tt
  Behind-Honest (has_read (some v)) s held h = held
  Behind-Honest (returned b) s held h = held

  Behind-advance :
      (c c' : Call) (s : S)
      → is_held kv laws k s ≡ true
      → Behind c
      → (advance kv k c s).0 ≡ ok c'
      → Behind c'
  unfolding advance insert_found
  Behind-advance called c' s held h e =
      let (found, got, rest) = bind_ok (kv.get k) (λ found. pure (has_read found)) s c' e in
      let now = laws.get_ok k s found got in
      let is_read : has_read found ≡ c' = cc in rw (← is_read) (Behind-read found (rw (← now) held))
  Behind-advance (has_read none) c' s held h e = absurd h
  Behind-advance (has_read (some v)) c' s held h e =
      let now : returned false ≡ c' = cc in rw (← now) refl
  Behind-advance (returned b) c' s held h e = let now : returned b ≡ c' = cc in rw (← now) h

  Wins-Honest :
      (c : Call) (s : S) → is_held kv laws k s ≡ true → Wins kv laws k c → Honest kv laws k s c
  Wins-Honest c s held wins = rw wins held

  -- One call has set the barrier, and the other has not seen it free.
  abbrev pub Ahead : S → Call → Call → Type 0
  Ahead s a b = (is_held kv laws k s ≡ true) × Wins kv laws k a × Behind b

  pub Ahead-first :
      (s : S) (a b a' : Call)
      → Ahead s a b
      → (advance kv k a s).0 ≡ ok a'
      → Ahead (advance kv k a s).1 a' b
  Ahead-first s a b a' (held, wins, behind) e =
      let adv = advance_lem kv laws k a a' s (Wins-Honest a s held wins) e in
      (adv.grows held, adv.keeps wins, behind)

  pub Ahead-second :
      (s : S) (a b b' : Call)
      → Ahead s a b
      → (advance kv k b s).0 ≡ ok b'
      → Ahead (advance kv k b s).1 a b'
  Ahead-second s a b b' (held, wins, behind) e =
      let adv = advance_lem kv laws k b b' s (Behind-Honest b s held behind) e in
      (adv.grows held, wins, Behind-advance b b' s held behind e)

  -- The first access of a call, and its second.
  pub reads_free :
      (s : S) (c : Call)
      → is_held kv laws k s ≡ false
      → (advance kv k called s).0 ≡ ok c
      → (c ≡ has_read none) × (is_held kv laws k (advance kv k called s).1 ≡ false)
  unfolding advance
  reads_free s c free e =
      let (found, got, rest) = bind_ok (kv.get k) (λ found. pure (has_read found)) s c e in
      let now = laws.get_ok k s found got in
      let same = laws.get_keeps k s k in
      let is_read : has_read found ≡ c = cc in
      let is_none : found ≡ none = not_found found (ap is_some (sym now) ∙ free) in
      rw (rest, ← is_read) (ap has_read is_none, rw same free)

  pub writes :
      (s : S) (c : Call)
      → (advance kv k (has_read none) s).0 ≡ ok c
      → Ahead (advance kv k (has_read none) s).1 c called
  unfolding advance insert_found
  writes s c e = elim (Result-cases (kv.put k [] s).0) [
    | inl (u, put) ↦
        let stored : laws.find (kv.put k [] s).1 k ≡ some [] =
          laws.put_ok k [] s put k ∙ rw (text_eq_refl k) in
        let now : returned true ≡ c = ground arith in rw put (rw stored, sym now, tt)
    | inr (x, bad) ↦ absurd (ground arith)
  ]
