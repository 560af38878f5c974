-- ===== src/Launch/Ending.antt =====
-- The end of `main` of seata-server/src/main.rs, of a server that has registered in etcd: the
-- `select!` over the two servers and the signals, the task of the keepalive with the channel to it,
-- and the runtime that goes when `main` returns.
use mathlib.Core.Path.{subst}
use seata.Base.{sym, ℕ, Bool, true, false, ◌≡◌, refl, ◌∙◌, Text, Result, ok, err}
use seata.Launch.Etcd.{Client, cleanup}

-- What `shutdown_signal` waits for.
pub data Signal : Type 0 where
  ctrl_c : Signal
  terminate : Signal

-- The first future of the `select!` that is ready.
pub data Ended : Type 0 where
  http : Result (Unit {0}) → Ended
  signalled : Signal → Ended
  grpc : Result (Unit {0}) → Ended

-- What `main` returns.
unfoldable pub ending : Ended → Result (Unit {0})
ending (http res) = res
ending (signalled s) = ok tt
ending (grpc res) = ok tt

-- The channel of `reg_shutdown`.
pub data Channel : Type 0 where
  held sent dropped : Channel

-- What `main` leaves of it.
unfoldable pub left : Ended → Channel
left (http res) = dropped
left (signalled s) = sent
left (grpc res) = dropped

abbrev pub is_told : Channel → Bool
is_told held = false
is_told sent = true
is_told dropped = true

pub data Main : Type 0 where
  serving : Main
  returned : Result (Unit {0}) → Main
  exited : Result (Unit {0}) → Main

-- While the process lives, so do its tasks.
abbrev pub is_alive : Main → Bool
is_alive serving = true
is_alive (returned r) = true
is_alive (exited r) = false

-- Where the task of the keepalive stands: in its `select!`, at one of its three calls, at its end.
pub data Keeper : Type 0 where
  watching deleting_http deleting_grpc revoking gone : Keeper

pub record Process (E : Type 0) : Type 0 where
  pub main : Main
  pub channel : Channel
  pub keeper : Keeper
  pub etcd : E

module _ {E : Type 0} (client : Client E) (key_http key_grpc : Text) (lease : ℕ) where
  infix 40 ◌⟶◌
  -- A task that tokio has spawned may take a step at any time until the runtime is dropped, which
  -- it is once `main` has returned.
  pub data ◌⟶◌ : Process E → Process E → Type 0 where
    main_ends :
        (x : Ended) (k : Keeper) (e : E)
        → record { main = serving; channel = held; keeper = k; etcd = e }
          ⟶ record { main = returned (ending x); channel = left x; keeper = k; etcd = e }
    runtime_drops :
        (r : Result (Unit {0})) (c : Channel) (k : Keeper) (e : E)
        → record { main = returned r; channel = c; keeper = k; etcd = e }
          ⟶ record { main = exited r; channel = c; keeper = k; etcd = e }
    stream_ends :
        (m : Main) (c : Channel) (e : E)
        → is_alive m ≡ true
        → record { main = m; channel = c; keeper = watching; etcd = e }
          ⟶ record { main = m; channel = c; keeper = deleting_http; etcd = e }
    is_shut_down :
        (m : Main) (c : Channel) (e : E)
        → is_alive m ≡ true
        → is_told c ≡ true
        → record { main = m; channel = c; keeper = watching; etcd = e }
          ⟶ record { main = m; channel = c; keeper = deleting_http; etcd = e }
    deletes_http :
        (m : Main) (c : Channel) (e : E)
        → is_alive m ≡ true
        → record { main = m; channel = c; keeper = deleting_http; etcd = e } ⟶ record {
          main = m;
          channel = c;
          keeper = deleting_grpc;
          etcd = (client.delete key_http e).1;
        }
    deletes_grpc :
        (m : Main) (c : Channel) (e : E)
        → is_alive m ≡ true
        → record { main = m; channel = c; keeper = deleting_grpc; etcd = e }
          ⟶ record { main = m; channel = c; keeper = revoking; etcd = (client.delete key_grpc e).1 }
    revokes :
        (m : Main) (c : Channel) (e : E)
        → is_alive m ≡ true
        → record { main = m; channel = c; keeper = revoking; etcd = e }
          ⟶ record { main = m; channel = c; keeper = gone; etcd = (client.lease_revoke lease e).1 }

  -- Some number of steps.
  pub data Run : Process E → Process E → Type 0 where
    stop : {p : Process E} → Run p p
    step : {p q s : Process E} → Run p q → q ⟶ s → Run p s

  -- etcd when the task of the keepalive stands there.
  abbrev pub stage : Keeper → E → E
  stage watching e = e
  stage deleting_http e = e
  stage deleting_grpc e = (client.delete key_http e).1
  stage revoking e = (client.delete key_grpc (client.delete key_http e).1).1
  stage gone e = cleanup client key_http key_grpc lease e

  abbrev pub serving_at : E → Process E
  serving_at e = record { main = serving; channel = held; keeper = watching; etcd = e }

  abbrev pub returned_at : Ended → Keeper → E → Process E
  returned_at x k e = record {
    main = returned (ending x);
    channel = left x;
    keeper = k;
    etcd = stage k e;
  }

  abbrev pub exited_at : Ended → Keeper → E → Process E
  exited_at x k e = record (returned_at x k e) { main = exited (ending x) }

  is_told-left : (x : Ended) → is_told (left x) ≡ true
  unfolding left
  is_told-left (http res) = refl
  is_told-left (signalled s) = refl
  is_told-left (grpc res) = refl

  -- Once `main` has returned, its task comes as far as it may.
  reaches : (x : Ended) (k : Keeper) (e : E) → Run (serving_at e) (returned_at x k e)
  unfolding cleanup
  reaches x k e =
      let m = returned (ending x) in
      let c = left x in
      let to_watching : Run (serving_at e) (returned_at x watching e) =
        step stop (main_ends x watching e) in
      let to_http : Run (serving_at e) (returned_at x deleting_http e) =
        step to_watching (is_shut_down m c e refl (is_told-left x)) in
      let to_grpc : Run (serving_at e) (returned_at x deleting_grpc e) =
        step to_http (deletes_http m c _ refl) in
      let to_revoking : Run (serving_at e) (returned_at x revoking e) =
        step to_grpc (deletes_grpc m c _ refl) in
      elim k as (λ k. Run (serving_at e) (returned_at x k e)) [
        | watching ↦ to_watching
        | deleting_http ↦ to_http
        | deleting_grpc ↦ to_grpc
        | revoking ↦ to_revoking
        | gone ↦ step to_revoking (revokes m c _ refl)
      ]

  -- What `main` has returned, and left of the channel.
  abbrev Ends : Main → Channel → Type 0
  Ends serving c = c ≡ held
  Ends (returned r) c = (x : Ended) × (r ≡ ending x) × (c ≡ left x)
  Ends (exited r) c = (x : Ended) × (r ≡ ending x) × (c ≡ left x)

  abbrev At : E → Process E → Type 0
  At e p = (p.etcd ≡ stage p.keeper e) × Ends p.main p.channel

  Step-At : (e : E) (p q : Process E) → At e p → p ⟶ q → At e q
  unfolding cleanup
  Step-At e p q h (main_ends x k e') = (h.0, (x, refl, refl))
  Step-At e p q h (runtime_drops r c k e') = h
  Step-At e p q h (stream_ends m c e' a) = h
  Step-At e p q h (is_shut_down m c e' a t) = h
  Step-At e p q h (deletes_http m c e' a) = (rw h.0, h.1)
  Step-At e p q h (deletes_grpc m c e' a) = (rw h.0, h.1)
  Step-At e p q h (revokes m c e' a) = (rw h.0, h.1)

  Run-At : (e : E) (p q : Process E) → At e p → Run p q → At e q
  Run-At e p q h stop = h
  Run-At e p q h (step {q = r} run last) = Step-At e r q (Run-At e p r h run) last

  fails : (x : Ended) (f : Text) → ending x ≡ err f → x ≡ http (err f)
  unfolding ending
  fails (http (ok u)) f h = absurd (cc)
  fails (http (err g)) f h = cc
  fails (signalled s) f h = absurd (cc)
  fails (grpc res) f h = absurd (cc)

  -- However `main` of a registered server ends, on a signal too, its process may exit with the task
  -- of the keepalive at any point, before the first call of the cleanup included, in which case
  -- etcd still holds what it held; an exit is always at one of those points, with what the calls up
  -- to there have done, and it is with an error only if the HTTP server failed, whatever the gRPC
  -- server returned.
  main_exits :
      (e : E)
      → ((x : Ended) (k : Keeper) → Run (serving_at e) (exited_at x k e))
        × ((q : Process E) (r : Result (Unit {0}))
            → Run (serving_at e) q
            → q.main ≡ exited r
            → (x : Ended) × (q ≡ exited_at x q.keeper e)
              × ((f : Text) → r ≡ err f → x ≡ http (err f)))
  main_exits e = (
    λ x k. step (reaches x k e) (runtime_drops (ending x) (left x) k (stage k e)),
    λ q r run is_exited.
        let (same, ends) = Run-At e (serving_at e) q (refl, refl) run in
        let (x, is_r, is_left) = subst (λ m. Ends m q.channel) is_exited ends in
        (x, rw (is_exited, is_r, is_left, same), λ f h. fails x f (sym is_r ∙ h)),
  )
