-- ===== src/Saga/Permits/Completes.antt =====
-- However the tasks of a submission are scheduled (Saga/Permits.antt), their number is bounded and
-- they all come to their end (`submit` of seata-server/src/saga.rs).
use seata.Base.{
  ℕ, zero, suc, ◌+◌, ◌*◌, ◌≤◌, ◌≡◌, ◌⊎◌, inl, inr, refl, ◌∙◌, ap, Bool, Option, some, List, [], ◌∷◌,
  ◌++◌, map, length, arith,
}
use mathlib.Core.List.{append_assoc}
use seata.Domain.{GlobalTxn}
use seata.Saga.World.{SagaManager, Env, Request}
use seata.Saga.Manager.{submit_requests, submit_results}
use seata.Saga.Joined.{task_ends}
use seata.Saga.Permits.{
  Task, running, ended, Pool, max, join, ◌⟶◌, acquire, release, Run, stop, step, running_count,
  task, submit_pool,
}

running_count-append :
    (hs ks : List Task) → running_count (hs ++ ks) ≡ running_count hs + running_count ks
running_count-append [] ks = omega arith
running_count-append (running r ∷ hs) ks = omega (arith, running_count-append hs ks)
running_count-append (ended b ∷ hs) ks = running_count-append hs ks

module _ (run : Request → Option Bool) where
  -- What the handles give in the end, and then the branches that are not yet spawned.
  abbrev result : Task → Option Bool
  result (running r) = run r
  result (ended b) = some b

  abbrev results : Pool → List (Option Bool)
  results p = map result p.handles ++ map run p.waiting

  map-append : (hs ks : List Task) → map result (hs ++ ks) ≡ map result hs ++ map result ks
  map-append [] ks = refl
  map-append (h ∷ hs) ks = ap (λ l. result h ∷ l) (map-append hs ks)

  -- What no step changes, with the work that is left.
  abbrev left : Pool → ℕ
  left p = length p.waiting + length p.waiting + running_count p.handles

  ⟶-left : {p q : Pool} → ◌⟶◌ run p q → left p ≡ suc (left q)
  ⟶-left (acquire n r rs hs) = omega (arith, running_count-append hs (running r ∷ []))
  ⟶-left (release n r b rs before after e) = omega (
    arith,
    running_count-append before (running r ∷ after),
    running_count-append before (ended b ∷ after),
  )

  ⟶-permits :
      {p q : Pool}
      → ◌⟶◌ run p q
      → q.permits + running_count q.handles ≡ p.permits + running_count p.handles
  ⟶-permits (acquire n r rs hs) = omega (arith, running_count-append hs (running r ∷ []))
  ⟶-permits (release n r b rs before after e) = omega (
    arith,
    running_count-append before (running r ∷ after),
    running_count-append before (ended b ∷ after),
  )

  ⟶-results : {p q : Pool} → ◌⟶◌ run p q → results q ≡ results p
  ⟶-results (acquire n r rs hs) =
      rw map-append (append_assoc (map result hs) (run r ∷ []) (map run rs))
  ⟶-results (release n r b rs before after e) =
      rw (map-append before (ended b ∷ after), map-append before (running r ∷ after), e)

  Run-keeps :
      {k : ℕ} {p q : Pool}
      → Run run k p q
      → (k + left q ≡ left p)
        × (q.permits + running_count q.handles ≡ p.permits + running_count p.handles)
        × (results q ≡ results p)
  Run-keeps stop = (omega arith, refl, refl)
  Run-keeps (step r e) =
      let (work, permits, same) = Run-keeps r in
      (omega (arith, work, ⟶-left e), ⟶-permits e ∙ permits, ⟶-results e ∙ same)

first_running :
    (hs : List Task)
    → (running_count hs ≡ 0)
      ⊎ ((before : List Task) × (r : Request) × (after : List Task) × (hs
            ≡ before ++ running r ∷ after))
first_running [] = inl refl
first_running (running r ∷ hs) = inr ([], r, hs, refl)
first_running (ended b ∷ hs) = elim (first_running hs) [
  | inl none_running ↦ inl none_running
  | inr (before, r, after, e) ↦ inr (ended b ∷ before, r, after, ap (λ l. ended b ∷ l) e)
]

module _ (run : Request → Option Bool) where
  join-result : (hs : List Task) → running_count hs ≡ 0 → map join hs ≡ map (result run) hs ++ []
  join-result [] h = refl
  join-result (running r ∷ hs) h = absurd (omega (arith, h))
  join-result (ended b ∷ hs) h = ap (λ l. some b ∷ l) (join-result hs h)

  progress :
      (permits : ℕ) (rs : List Request) (hs : List Task)
      → ((r : Request) → (b : Bool) × (run r ≡ some b))
      → 1 ≤ permits + running_count hs
      → let p : Pool = record { permits = permits; waiting = rs; handles = hs } in
        ((q : Pool) × ◌⟶◌ run p q) ⊎ (left run p ≡ 0)
  progress permits rs hs ends h = elim (first_running hs) [
    | inr (before, r, after, e) ↦
        let (b, over) = ends r in rw e (inl (_, release permits r b rs before after over))
    | inl none_running ↦ idle permits rs none_running h
  ]
    where
      idle :
          (n : ℕ) (ws : List Request)
          → running_count hs ≡ 0
          → 1 ≤ n + running_count hs
          → let p : Pool = record { permits = n; waiting = ws; handles = hs } in
            ((q : Pool) × ◌⟶◌ run p q) ⊎ (left run p ≡ 0)
      idle n [] e k = inr (omega (arith, e))
      idle zero (w ∷ ws) e k = absurd (omega (arith, e, k))
      idle (suc n) (w ∷ ws) e k = inl (_, acquire n w ws hs)

  all_joined :
      (permits : ℕ) (rs : List Request) (hs : List Task)
      → let p : Pool = record { permits = permits; waiting = rs; handles = hs } in
        left run p ≡ 0 → map join hs ≡ results run p
  all_joined permits [] hs h = join-result hs (omega (arith, h))
  all_joined permits (r ∷ rs) hs h = absurd (omega (arith, h))

module _ (m : SagaManager) (env : Env) (epoch : ℕ) (tx : GlobalTxn) where
  -- However the tasks of a submission are scheduled, at most `branch_parallelism` of them hold a
  -- permit at once, or one, if that is zero. After `k` steps, either some next step can be taken, or
  -- all is done: two steps have been taken for each prepared branch, and the handles, joined in their
  -- order, give the result of each task in its place. More than two steps for each branch are
  -- never taken.
  pub tasks_complete :
      (k : ℕ) (p : Pool)
      → Run (task m env epoch) k (submit_pool m env tx) p
      → (running_count p.handles ≤ max m.exec.branch_parallelism 1)
        × (k ≤ 2 * length (submit_requests env tx))
        × (((q : Pool) × ◌⟶◌ (task m env epoch) p q)
            ⊎ ((k ≡ 2 * length (submit_requests env tx))
                × (map join p.handles ≡ submit_results m env epoch tx)))
  tasks_complete k p r =
      let run = task m env epoch in
      let (work, held, same) = Run-keeps run r in
      let one : 1 ≤ p.permits + running_count p.handles = ground (arith, held) in
      (
        omega (arith, held),
        omega (arith, work),
        elim (progress run p.permits p.waiting p.handles (task_ends m env epoch) one) [
          | inl next_step ↦ inl next_step
          | inr done ↦
              inr (
                omega (arith, work, done),
                all_joined run p.permits p.waiting p.handles done ∙ same,
              )
        ],
      )
