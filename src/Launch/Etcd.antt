-- ===== src/Launch/Etcd.antt =====
-- `register_to_etcd` of seata-server/src/main.rs, over any etcd client.
use seata.Base.{
  Bool, true, false, Bool-cases, inl, inr, [], ◌∷◌, any, ℕ, ◌≡◌, ◌≢◌, ◌⊎◌, sym, ◌∙◌, ap, ◌||◌,
  Option, none, some, List, Text, text_eq, Result, ok, Io, pure, ◌>>=◌, ◌>>◌, bind_all,
  if◌then◌else◌, arith,
}

-- The calls of `etcd_client::Client`; a lease is known by its number.
pub record Client (E : Type 0) : Type 0 where
  pub connect : List Text → Io E (Unit {0})
  pub lease_grant : ℕ → Io E ℕ
  pub put : Text → Text → ℕ → Io E (Unit {0})  -- `put(key, value, with_lease(lease))`
  pub lease_keep_alive : ℕ → Io E (Unit {0})
  pub delete : Text → Io E (Unit {0})
  pub lease_revoke : ℕ → Io E (Unit {0})

-- etcd is a map from keys to values with their leases.
pub record ClientLaws {E : Type 0} (client : Client E) : Type 0 where
  pub value : E → Text → Option (Text × ℕ)
  pub connect_keeps :
      (es : List Text) (e : E) (j : Text) → value (client.connect es e).1 j ≡ value e j
  pub grant_keeps : (ttl : ℕ) (e : E) (j : Text) → value (client.lease_grant ttl e).1 j ≡ value e j
  -- A new lease is under no key.
  pub grant_fresh :
      (ttl lease : ℕ) (e : E)
      → (client.lease_grant ttl e).0 ≡ ok lease
      → (j v : Text) → value e j ≢ some (v, lease)
  pub put_ok :
      (k v : Text) (lease : ℕ) (e : E)
      → (client.put k v lease e).0 ≡ ok tt
      → (j : Text)
      → value (client.put k v lease e).1 j ≡ (if text_eq k j then some (v, lease) else value e j)
  pub alive_keeps :
      (lease : ℕ) (e : E) (j : Text) → value (client.lease_keep_alive lease e).1 j ≡ value e j
  pub delete_ok :
      (k : Text) (e : E)
      → (client.delete k e).0 ≡ ok tt
      → (j : Text) → value (client.delete k e).1 j ≡ (if text_eq k j then none else value e j)
  -- What a revocation removes, it removes under that lease only.
  pub revoke_either :
      (lease : ℕ) (e : E) (j : Text)
      → (value (client.lease_revoke lease e).1 j ≡ value e j)
        ⊎ ((v : Text) × (value e j ≡ some (v, lease)))

module _ {E : Type 0} (client : Client E) where
  -- "put keys with lease", and the keepalive
  unfoldable pub put_keys : Text → Text → Text → Text → ℕ → Io E ℕ
  put_keys key_http key_grpc http_url grpc_url lease = do
    client.put key_http http_url lease
    client.put key_grpc grpc_url lease
    client.lease_keep_alive lease
    pure lease

  -- up to the task of the keepalive; the lease that was granted
  unfoldable pub register_to_etcd : List Text → Text → Text → Text → Text → Io E ℕ
  register_to_etcd endpoints key_http key_grpc http_url grpc_url = do
    client.connect endpoints
    lease ← client.lease_grant 15
    put_keys key_http key_grpc http_url grpc_url lease

  -- "best-effort cleanup", when the keepalive ends or the server shuts down
  unfoldable pub cleanup : Text → Text → ℕ → E → E
  cleanup key_http key_grpc lease e =
      let e = (client.delete key_http e).1 in
      let e = (client.delete key_grpc e).1 in (client.lease_revoke lease e).1

-- What the task of the keepalive hears of: an answer to a keepalive, the end of the stream or an
-- error on it, or the shutdown of the server, whose sender sends or is dropped.
pub data Notice : Type 0 where
  kept_alive : Notice
  stream_end : Notice
  stream_error : Notice
  shutdown : Notice

abbrev pub is_last : Notice → Bool
is_last kept_alive = false
is_last stream_end = true
is_last stream_error = true
is_last shutdown = true

-- The task of the keepalive: its `select!`, and the cleanup after it.
unfoldable pub keeper : {E : Type 0} → Client E → Text → Text → ℕ → List Notice → E → E
keeper client key_http key_grpc lease [] e = e
keeper client key_http key_grpc lease (n ∷ ns) e =
    let rest = keeper client key_http key_grpc lease ns e in
    if is_last n then cleanup client key_http key_grpc lease e else rest

keeper-cleanup :
    {E : Type 0} (client : Client E) (key_http key_grpc : Text) (lease : ℕ) (ns : List Notice)
    (e : E)
    → any is_last ns ≡ true
    → keeper client key_http key_grpc lease ns e ≡ cleanup client key_http key_grpc lease e
unfolding keeper
keeper-cleanup client key_http key_grpc lease [] e h = absurd (cc)
keeper-cleanup client key_http key_grpc lease (n ∷ ns) e h = elim (Bool-cases (is_last n)) [
  | inl last ↦ rw last
  | inr later ↦
      rw later (keeper-cleanup client key_http key_grpc lease ns e (ground (arith, h, later)))
]

-- What a key holds once the two keys are put.
abbrev pub registered : Text → Text → Text → Text → ℕ → Option (Text × ℕ) → Text → Option (Text × ℕ)
registered key_http key_grpc http_url grpc_url lease before j =
    if text_eq key_grpc j
    then some (grpc_url, lease)
    else if text_eq key_http j
    then some (http_url, lease)
    else before

module _ {E : Type 0} (client : Client E) (laws : ClientLaws client)
    (key_http key_grpc http_url grpc_url : Text) where
  -- What putting the two keys under the lease `l` has done, if it returns.
  Put : ℕ → E → Result ℕ × E → Type 0
  Put l e r =
      (lease : ℕ)
      → r.0 ≡ ok lease
      → (l ≡ lease)
        × ((j : Text)
            → laws.value r.1 j
              ≡ registered key_http key_grpc http_url grpc_url l (laws.value e j) j)

  put_keys_lem : (l : ℕ) (e : E) → Put l e (put_keys client key_http key_grpc http_url grpc_url l e)
  unfolding put_keys Put
  put_keys_lem l e =
      bind_all (client.put key_http http_url l) _ e (Put l e) (λ x fail lease h. cc)
        (λ u put_http.
          let e1 = (client.put key_http http_url l e).1 in
          bind_all (client.put key_grpc grpc_url l) _ e1 (Put l e) (λ x fail lease h. cc)
            (λ u' put_grpc.
              let e2 = (client.put key_grpc grpc_url l e1).1 in
              bind_all (client.lease_keep_alive l) _ e2 (Put l e) (λ x fail lease h. cc)
                (λ u'' alive lease h. (
                  ground (arith, h),
                  λ j. ground (
                    arith,
                    laws.alive_keeps l e2 j,
                    laws.put_ok key_grpc grpc_url l e1 put_grpc j,
                    laws.put_ok key_http http_url l e put_http j,
                  ),
                ))))

  -- What a registration that returns has done: the two keys are put under a new lease.
  pub register_lem :
      (endpoints : List Text) (lease : ℕ) (e : E)
      → (register_to_etcd client endpoints key_http key_grpc http_url grpc_url e).0 ≡ ok lease
      → ((j : Text)
          → laws.value (register_to_etcd client endpoints key_http key_grpc http_url grpc_url e).1 j
            ≡ registered key_http key_grpc http_url grpc_url lease (laws.value e j) j)
        × ((j v : Text) → laws.value e j ≢ some (v, lease))
  unfolding register_to_etcd Put
  register_lem endpoints lease e =
      let Done = λ (r : Result ℕ × E).
        r.0 ≡ ok lease
        → ((j : Text)
            → laws.value r.1 j
              ≡ registered key_http key_grpc http_url grpc_url lease (laws.value e j) j)
          × ((j v : Text) → laws.value e j ≢ some (v, lease)) in
      bind_all (client.connect endpoints) _ e Done (λ x fail h. cc)
        (λ u connected.
          let e1 = (client.connect endpoints e).1 in
          bind_all (client.lease_grant 15) _ e1 Done (λ x fail h. cc)
            (λ l granted h.
              let e2 = (client.lease_grant 15 e1).1 in
              let (is_l, put) = put_keys_lem l e2 lease h in
              (
                λ j. rw (← is_l) (
                    put j
                    ∙ ap (λ before. registered key_http key_grpc http_url grpc_url l before j)
                        (laws.grant_keeps 15 e1 j ∙ laws.connect_keeps endpoints e j)),
                λ j v held.
                    laws.grant_fresh 15 l e1 granted j v
                      (laws.connect_keeps endpoints e j ∙ held ∙ rw is_l),
              )))

  cleanup_lem :
      (lease : ℕ) (e e' : E) (j : Text)
      → laws.value e' j ≡ registered key_http key_grpc http_url grpc_url lease (laws.value e j) j
      → ((v : Text) → laws.value e j ≢ some (v, lease))
      → (client.delete key_http e').0 ≡ ok tt
      → (client.delete key_grpc (client.delete key_http e').1).0 ≡ ok tt
      → laws.value (cleanup client key_http key_grpc lease e') j
        ≡ (if text_eq key_grpc j || text_eq key_http j then none else laws.value e j)
  unfolding cleanup
  cleanup_lem lease e e' j put fresh gone_http gone_grpc =
      let e1 = (client.delete key_http e').1 in
      let e2 = (client.delete key_grpc e1).1 in
      let first = laws.delete_ok key_http e' gone_http j in
      let second = laws.delete_ok key_grpc e1 gone_grpc j in
      elim (laws.revoke_either lease e2 j) [
        | inl same ↦ ground (arith, put, first, second)
        | inr (v, held) ↦ absurd (ground (arith, put, first, second, fresh v))
      ]

  -- Once a registration has returned, and then its keepalive has ended, on whatever side, or the
  -- server shuts down, every key is as it was before, if the deletions return, but the two keys of
  -- the server, which are gone.
  pub register-cleanup :
      (endpoints : List Text) (lease : ℕ) (ns : List Notice) (e e' : E) (j : Text)
      → register_to_etcd client endpoints key_http key_grpc http_url grpc_url e ≡ (ok lease, e')
      → any is_last ns ≡ true
      → (client.delete key_http e').0 ≡ ok tt
      → (client.delete key_grpc (client.delete key_http e').1).0 ≡ ok tt
      → laws.value (keeper client key_http key_grpc lease ns e') j
        ≡ (if text_eq key_grpc j || text_eq key_http j then none else laws.value e j)
  register-cleanup endpoints lease ns e e' j h last gone_http gone_grpc =
      let (put, fresh) = register_lem endpoints lease e (ap (λ (p : Result ℕ × E). p.0) h) in
      let put_j = ap (λ (p : Result ℕ × E). laws.value p.1 j) (sym h) ∙ put j in
      ap (λ s. laws.value s j) (keeper-cleanup client key_http key_grpc lease ns e' last)
      ∙ cleanup_lem lease e e' j put_j (fresh j) gone_http gone_grpc
