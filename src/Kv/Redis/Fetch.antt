-- ===== src/Kv/Redis/Fetch.antt =====
-- One round of the scan of the Redis store (`RedisKv::scan_prefix` of
-- seata-server/src/storage/redis_kv.rs): the pipelines of its chunks of keys, and the limit.
use seata.Base.{
  ℕ, suc, ◌-◌, ◌≤◌, ◌<◌, ◌≡◌, ◌≢◌, refl, sym, ap, ◌∙◌, Option, none, some, text_eq, if◌then◌else◌,
  List, [], ◌∷◌, ◌++◌, Bytes, Result, ok, err, Io, leb, length, length-append, somes, arith,
  Bool-cases, inl, inr, bind_ok, leb_false→lt,
}
use seata.Kv.Redis.{
  Timed, replied, elapsed, Client, in_time, timed_or, go_on, Flow, more, done, push_values, fetch,
}

-- What Redis documents: a full iteration of `SCAN` ends, since at every cursor there is less left,
-- and reading values leaves the iteration where it is; a command on one key that has been replied to
-- has read, written or removed it.
pub record ClientLaws {S : Type 0} (client : Client S) : Type 0 where
  pub find : S → Bytes → Option Bytes
  pub left : ℕ → S → ℕ
  pub connect_keeps : (s : S) (j : Bytes) → find (client.connect s).1 j ≡ find s j
  pub get_value :
      (k : Bytes) (s : S) (v : Option Bytes)
      → (client.cmd_get k s).0 ≡ replied (ok v)
      → v ≡ find s k
  pub get_keeps : (k : Bytes) (s : S) (j : Bytes) → find (client.cmd_get k s).1 j ≡ find s j
  pub set_ok :
      (k v : Bytes) (s : S)
      → (client.cmd_set k v s).0 ≡ replied (ok tt)
      → (j : Bytes) → find (client.cmd_set k v s).1 j ≡ (if text_eq k j then some v else find s j)
  pub del_ok :
      (k : Bytes) (s : S)
      → (client.cmd_del k s).0 ≡ replied (ok tt)
      → (j : Bytes) → find (client.cmd_del k s).1 j ≡ (if text_eq k j then none else find s j)
  pub scan_left :
      (c : ℕ) (p : Bytes) (s : S) (next : ℕ) (ks : List Bytes)
      → (client.cmd_scan c p s).0 ≡ replied (ok (next, ks))
      → next ≢ 0
      → left next (client.cmd_scan c p s).1 < left c s
  pub pipe_left : (ks : List Bytes) (c : ℕ) (s : S) → left c (client.pipe_mget ks s).1 ≡ left c s

-- A flow that goes on has room for one value more; one that returns has at most one too many.
abbrev pub IsBounded : ℕ → Flow → Type 0
IsBounded limit (more out) = length out ≤ limit - 1
IsBounded limit (done out) = length out ≤ suc (limit - 1)

push_values-IsBounded :
    (limit : ℕ) (out vs : List Bytes)
    → length out ≤ limit - 1
    → IsBounded limit (push_values limit out vs)
unfolding push_values
push_values-IsBounded limit out [] h = h
push_values-IsBounded limit out (v ∷ vs) h =
    let longer = length-append out (v ∷ []) in
    elim (Bool-cases (leb limit (length (out ++ v ∷ [])))) [
      | inl full ↦ rw full (omega (arith, longer))
      | inr room ↦ rw room (
          push_values-IsBounded limit (out ++ v ∷ []) vs
            (let lt = leb_false→lt _ _ room in omega arith))
    ]

pub in_time_ok : {A : Type 0} (t : Timed A) (a : A) → in_time t ≡ ok a → t ≡ replied (ok a)
in_time_ok (replied (ok b)) a h = cc
in_time_ok (replied (err e)) a h = absurd (ground arith)
in_time_ok elapsed a h = absurd (ground arith)

module _ {S : Type 0} (client : Client S) (laws : ClientLaws client) (limit : ℕ) where
  -- What a fetch that returns has gathered, and that it leaves the iteration as far as it was.
  pub record Fetched (flow : Flow) (s s' : S) : Type 0 where
    pub bounded : IsBounded limit flow
    pub left : (c : ℕ) → laws.left c s' ≡ laws.left c s

  go_on_lem :
      (rest : List Bytes → Io S Flow) (pushed : Flow) (s s1 : S) (flow : Flow)
      → IsBounded limit pushed
      → ((c : ℕ) → laws.left c s1 ≡ laws.left c s)
      → ((out : List Bytes)
          → length out ≤ limit - 1
          → (rest out s1).0 ≡ ok flow
          → Fetched flow s1 (rest out s1).1)
      → (go_on client rest pushed s1).0 ≡ ok flow
      → Fetched flow s (go_on client rest pushed s1).1
  go_on_lem rest (done out) s s1 flow b l k e =
      let is_done : done out ≡ flow = cc in rw (← is_done) (record { bounded = b; left = l })
  go_on_lem rest (more out) s s1 flow b l k e =
      let r = k out b e in record { bounded = r.bounded; left = λ c. r.left c ∙ l c }

  pub fetch_lem :
      (out : List Bytes) (css : List (List Bytes)) (s : S) (flow : Flow)
      → length out ≤ limit - 1
      → (fetch client limit out css s).0 ≡ ok flow
      → Fetched flow s (fetch client limit out css s).1
  unfolding fetch
  fetch_lem out [] s flow b e =
      let is_more : more out ≡ flow = cc in
      rw (← is_more) (record { bounded = b; left = λ c. refl })
  fetch_lem out (ks ∷ css) s flow b e =
      let pipe = timed_or [] (client.pipe_mget ks) in
      let (values, good, rest) =
        bind_ok pipe
          (λ values.
            go_on client (λ o. fetch client limit o css) (push_values limit out (somes values)))
          s flow e in
      let pushed = push_values limit out (somes values) in
      let h : (go_on client (λ o. fetch client limit o css) pushed (pipe s).1).0 ≡ ok flow =
        sym (ap (λ (p : Result Flow × S). p.0) rest) ∙ e in
      rw rest (
        go_on_lem (λ o. fetch client limit o css) pushed s (pipe s).1 flow
          (push_values-IsBounded limit out (somes values) b) (λ c. laws.pipe_left ks c s)
          (λ o b' e'. fetch_lem o css (pipe s).1 flow b' e') h)
