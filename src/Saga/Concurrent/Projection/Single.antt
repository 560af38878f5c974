-- ===== src/Saga/Concurrent/Projection/Single.antt =====
-- The server that stores one transaction, when at most one request is on it
-- (seata-server/src/saga.rs).
use seata.Base.{
  ℕ, zero, suc, ◌≤◌, ◌≡◌, refl, sym, ap, ◌∙◌, inl, inr, Bool, true, false, not, ◌&&◌, Option, List,
  [], ◌∷◌, ◌++◌, Text, text_eq, Bool-cases, put_nth, ◌==◌, length, length-append, length-put_nth,
  All, All-append, All-nth_or, All-put_nth, arith,
}
use mathlib.Core.Path.{subst}
use seata.Domain.{GlobalTxn}
use seata.Saga.World.{Env, SagaManager}
use seata.Saga.Concurrent.{
  Program, finish, await_load, await_save, await_tasks, read_clock, make_uuid, Event, arrives,
  takes_turn, dropped, nth,
}
use seata.Saga.Concurrent.Turns.{Within, Within-zero, turns}
use seata.Saga.Concurrent.Isolation.{op_gid, spares}
use seata.Saga.Concurrent.Projection.{local_turn, Local, local_happen, local_play}

-- The requests that have arrived after the events, `n` before them.
abbrev pub arrived : ℕ → List Event → ℕ
arrived n [] = n
arrived n (arrives o ∷ es) = arrived (suc n) es
arrived n (takes_turn j ∷ es) = arrived n es
arrived n (dropped j ∷ es) = arrived n es

-- The `i`-th request is not dropped.
abbrev pub undropped : ℕ → List Event → Bool
undropped i [] = true
undropped i (arrives o ∷ es) = undropped i es
undropped i (takes_turn j ∷ es) = undropped i es
undropped i (dropped j ∷ es) = not (j == i) && undropped i es

abbrev pub AllFinish : List Program → Type 0
AllFinish ps = All (λ p. p ≡ finish) ps

-- Nothing is left of any request but the `i`-th, of which `p` is left.
pub data Only : ℕ → Program → List Program → Type 0 where
  here : {p : Program} {ps : List Program} → AllFinish ps → Only zero p (p ∷ ps)
  later : {i : ℕ} {p : Program} {ps : List Program} → Only i p ps → Only (suc i) p (finish ∷ ps)

pub Only-last : (p : Program) (ps : List Program) → AllFinish ps → Only (length ps) p (ps ++ p ∷ [])
Only-last p [] h = here tt
Only-last p (q ∷ ps) h = rw h.0 (later (Only-last p ps h.1))

pub Only-finish : {i : ℕ} {ps : List Program} → Only i finish ps → AllFinish ps
Only-finish (here h) = (refl, h)
Only-finish (later o) = (refl, Only-finish o)

module _ {p : Program} where
  Only-nth : {i : ℕ} {ps : List Program} → Only i p ps → nth i ps ≡ p
  Only-nth (here h) = refl
  Only-nth (later o) = Only-nth o

  Only-nth_other :
      {i : ℕ} {ps : List Program} (j : ℕ) → Only i p ps → (j == i) ≡ false → nth j ps ≡ finish
  Only-nth_other zero (here h) other = absurd (ground (arith, other))
  Only-nth_other (suc j) (here {ps} h) other = All-nth_or (λ q. q ≡ finish) finish j ps refl h
  Only-nth_other zero (later o) other = refl
  Only-nth_other (suc j) (later o) other = Only-nth_other j o (ground (arith, other))

  Only-put : {i : ℕ} {ps : List Program} (q : Program) → Only i p ps → Only i q (put_nth i q ps)
  Only-put q (here h) = here h
  Only-put q (later o) = later (Only-put q o)

  Only-put_other :
      {i : ℕ} {ps : List Program} (j : ℕ)
      → Only i p ps
      → (j == i) ≡ false
      → Only i p (put_nth j finish ps)
  Only-put_other zero (here h) other = absurd (ground (arith, other))
  Only-put_other (suc j) (here {ps} h) other =
      here (All-put_nth (λ q. q ≡ finish) j finish ps refl h)
  Only-put_other zero (later o) other = later o
  Only-put_other (suc j) (later o) other = later (Only-put_other j o (ground (arith, other)))

  Only-append : {i : ℕ} {ps : List Program} → Only i p ps → Only i p (ps ++ finish ∷ [])
  Only-append (here {ps} h) = here (All-append (λ q. q ≡ finish) ps (finish ∷ []) h (refl, tt))
  Only-append (later o) = later (Only-append o)

module _ (env : Env) (m : SagaManager) where
  -- `n` turns of one request.
  abbrev pub local_alone : ℕ → Program → Option GlobalTxn → Program × Option GlobalTxn
  local_alone zero p s = (p, s)
  local_alone (suc n) p s = local_alone n (local_turn env m p s).0 (local_turn env m p s).1

  local_turn-Within :
      (n : ℕ) (p : Program) (s : Option GlobalTxn)
      → Within (suc n) p
      → Within n (local_turn env m p s).0
  unfolding Within
  local_turn-Within n finish s h = tt
  local_turn-Within n (await_load gid rest) s h = h s
  local_turn-Within n (await_save tx rest) s h = h
  local_turn-Within n (await_tasks tx rest) s h = h _
  local_turn-Within n (read_clock rest) s h = h _
  local_turn-Within n (make_uuid rest) s h = h _

  local_alone-finish : (n : ℕ) (s : Option GlobalTxn) → local_alone n finish s ≡ (finish, s)
  local_alone-finish zero s = refl
  local_alone-finish (suc n) s = local_alone-finish n s

  -- Turns beyond the end of a request do nothing.
  pub local_alone-enough :
      (n k : ℕ) (p : Program) (s : Option GlobalTxn)
      → Within n p
      → n ≤ k
      → local_alone k p s ≡ (finish, (local_alone n p s).1)
  local_alone-enough zero k p s h le = rw (Within-zero p h) (local_alone-finish k s)
  local_alone-enough (suc n) zero p s h le = absurd (omega (arith, le))
  local_alone-enough (suc n) (suc k) p s h le =
      local_alone-enough n k _ _ (local_turn-Within n p s h) (omega (arith, le))

module _ (env : Env) (m : SagaManager) (g : Text) where
  pub local_play-append :
      (es es' : List Event) (l : Local env m)
      → local_play env m g (es ++ es') l ≡ local_play env m g es' (local_play env m g es l)
  local_play-append [] es' l = refl
  local_play-append (e ∷ es) es' l = local_play-append es es' (local_happen env m g e l)

  pub one_longer :
      (ps : List Program) (p : Program) (es : List Event)
      → arrived (length (ps ++ p ∷ [])) es ≡ arrived (suc (length ps)) es
  one_longer ps p es =
      let longer : length (ps ++ p ∷ []) ≡ suc (length ps) =
        omega (arith, length-append ps (p ∷ [])) in
      ap (λ n. arrived n es) longer

  as_long :
      (j : ℕ) (ps : List Program) (p : Program) (es : List Event)
      → arrived (length (put_nth j p ps)) es ≡ arrived (length ps) es
  as_long j ps p es = ap (λ n. arrived n es) (length-put_nth j p ps)

  -- Without requests on `g` nothing happens.
  pub idle_lem :
      (es : List Event) (l : Local env m)
      → spares g es ≡ true
      → AllFinish l.requests
      → let l' = local_play env m g es l in
        AllFinish l'.requests
        × (l'.stored ≡ l.stored)
        × (length l'.requests ≡ arrived (length l.requests) es)
  idle_lem [] l spared h = (h, refl, refl)
  idle_lem (arrives o ∷ es) l spared h =
      let there : text_eq (op_gid o) g ≡ false = ground (arith, spared) in
      let (all, same, longer) =
        idle_lem es (record l { requests = l.requests ++ finish ∷ [] }) (ground (arith, spared))
          (All-append (λ p. p ≡ finish) l.requests (finish ∷ []) h (refl, tt)) in
      rw (local_play, there) (all, same, longer ∙ one_longer l.requests finish es)
  idle_lem (takes_turn j ∷ es) l spared h =
      let ended : nth j l.requests ≡ finish =
        All-nth_or (λ p. p ≡ finish) finish j l.requests refl h in
      let (all, same, longer) =
        idle_lem es (record l { requests = put_nth j finish l.requests }) spared
          (All-put_nth (λ p. p ≡ finish) j finish l.requests refl h) in
      rw (local_play, ended) (all, same, longer ∙ as_long j l.requests finish es)
  idle_lem (dropped j ∷ es) l spared h =
      let (all, same, longer) =
        idle_lem es (record l { requests = put_nth j finish l.requests }) spared
          (All-put_nth (λ p. p ≡ finish) j finish l.requests refl h) in
      (all, same, longer ∙ as_long j l.requests finish es)

  -- After the events: what is left of the only request on `g`, what is stored, and how many requests
  -- have arrived.
  abbrev pub Ran : ℕ → Program → List Event → Local env m → Local env m → Type 0
  Ran i p es l l' =
      let r = local_alone env m (turns i es) p l.stored in
      Only i r.0 l'.requests
      × (l'.stored ≡ r.1)
      × (length l'.requests ≡ arrived (length l.requests) es)

  pub only_lem :
      (i : ℕ) (p : Program) (es : List Event) (l : Local env m)
      → spares g es ≡ true
      → undropped i es ≡ true
      → Only i p l.requests
      → Ran i p es l (local_play env m g es l)
  only_lem i p [] l spared kept o = (o, refl, refl)
  only_lem i p (arrives a ∷ es) l spared kept o =
      let there : text_eq (op_gid a) g ≡ false = ground (arith, spared) in
      let (left, same, longer) =
        only_lem i p es (record l { requests = l.requests ++ finish ∷ [] }) (ground (arith, spared))
          kept (Only-append o) in
      rw (local_play, there) (left, same, longer ∙ one_longer l.requests finish es)
  only_lem i p (takes_turn j ∷ es) l spared kept o = elim (Bool-cases (j == i)) [
    | inl own ↦
        let is_i : j ≡ i = ground (arith, own) in
        let at : nth j l.requests ≡ p = subst (λ k. nth k l.requests ≡ p) (sym is_i) (Only-nth o) in
        let t = local_turn env m p l.stored in
        let (left, same, longer) =
          only_lem i t.0 es (record { stored = t.1; requests = put_nth j t.0 l.requests }) spared
            kept (rw is_i (Only-put t.0 o)) in
        rw (local_play, own, at) (left, same, longer ∙ as_long j l.requests t.0 es)
    | inr other ↦
        let (left, same, longer) =
          only_lem i p es (record l { requests = put_nth j finish l.requests }) spared kept
            (Only-put_other j o other) in
        rw (local_play, other, Only-nth_other j o other)
          (left, same, longer ∙ as_long j l.requests finish es)
  ]
  only_lem i p (dropped j ∷ es) l spared kept o =
      let (left, same, longer) =
        only_lem i p es (record l { requests = put_nth j finish l.requests }) spared
          (ground (arith, kept)) (Only-put_other j o (ground (arith, kept))) in
      (left, same, longer ∙ as_long j l.requests finish es)
