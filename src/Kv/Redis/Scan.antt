-- ===== src/Kv/Redis/Scan.antt =====
-- The scan of the Redis store (`RedisKv::scan_prefix` of seata-server/src/storage/redis_kv.rs): it
-- ends, and its result is bounded.
use seata.Base.{
  ℕ, zero, suc, ◌-◌, ◌≤◌, ◌<◌, ◌≡◌, ◌≢◌, refl, sym, ap, ◌∙◌, ◌||◌, Option, none, some, List, [],
  ◌∷◌, ◌++◌, Bytes, bytes, Result, ok, Io, leb, ◌==◌, length, arith, Bool-cases, inl, inr, bind_ok,
}
use seata.Kv.Redis.{
  Client, timed, chunks, Flow, more, done, fetch, after_fetch, after_scan, scan_loop, scan_prefix,
}
use seata.Kv.Redis.Fetch.{ClientLaws, in_time_ok, fetch_lem, Fetched}

module _ {S : Type 0} (client : Client S) (laws : ClientLaws client) (pattern : Bytes)
    (limit : ℕ) where
  -- A round: the loop has not run out of fuel, and what it gives is within the limit.
  abbrev pub Ends : Option (List Bytes) → Type 0
  Ends none = ⊥
  Ends (some vs) = length vs ≤ suc (limit - 1)

  after_fetch_lem :
      (rest : List Bytes → Io S (Option (List Bytes))) (next : ℕ) (flow : Flow) (s s1 : S)
      (r : Option (List Bytes))
      → Fetched client laws limit flow s s1
      → ((out : List Bytes) → next ≢ 0 → length out ≤ limit - 1 → (rest out s1).0 ≡ ok r → Ends r)
      → (after_fetch client rest limit next flow s1).0 ≡ ok r
      → Ends r
  after_fetch_lem rest next (done out) s s1 r f k e =
      let is_out : some out ≡ r = cc in rw (← is_out) f.bounded
  after_fetch_lem rest next (more out) s s1 r f k e =
      elim (Bool-cases (next == 0 || leb limit (length out))) [
        | inl stop ↦
            let is_out : some out ≡ r = ground arith in rw (← is_out) (omega (arith, f.bounded))
        | inr go ↦ k out (ground arith) f.bounded (rw go at e)
      ]

  after_scan_lem :
      (rest : List Bytes → Io S (Option (List Bytes))) (next : ℕ) (ks : List Bytes)
      (out : List Bytes) (s1 : S) (r : Option (List Bytes))
      → length out ≤ limit - 1
      → ((out : List Bytes) (s2 : S)
          → next ≢ 0
          → length out ≤ limit - 1
          → laws.left next s2 ≡ laws.left next s1
          → (rest out s2).0 ≡ ok r
          → Ends r)
      → (after_scan client rest limit out (next, ks) s1).0 ≡ ok r
      → Ends r
  unfolding after_scan
  after_scan_lem rest next [] out s1 r b k e = elim (Bool-cases (next == 0)) [
    | inl stop ↦ let is_out : some out ≡ r = ground arith in rw (← is_out) (omega arith)
    | inr go ↦ k out s1 (ground arith) b refl (rw go at e)
  ]
  after_scan_lem rest next (x ∷ ks) out s1 r b k e =
      let fetching = fetch client limit out (chunks 256 (x ∷ ks)) in
      let (flow, good, same_rest) = bind_ok fetching (after_fetch client rest limit next) s1 r e in
      let fetched = fetch_lem client laws limit out (chunks 256 (x ∷ ks)) s1 flow b good in
      let s2 = (fetching s1).1 in
      let e' : (after_fetch client rest limit next flow s2).0 ≡ ok r =
        sym (ap (λ (p : Result (Option (List Bytes)) × S). p.0) same_rest) ∙ e in
      after_fetch_lem rest next flow s1 s2 r fetched (λ o n b' h. k o s2 n b' (fetched.left next) h)
        e'

  pub scan_loop_lem :
      (fuel cursor : ℕ) (out : List Bytes) (s : S) (r : Option (List Bytes))
      → laws.left cursor s < fuel
      → length out ≤ limit - 1
      → (scan_loop client fuel pattern limit cursor out s).0 ≡ ok r
      → Ends r
  unfolding scan_loop
  scan_loop_lem zero cursor out s r l b e = absurd (omega (arith, l))
  scan_loop_lem (suc fuel) cursor out s r l b e =
      let scan = timed (client.cmd_scan cursor pattern) in
      let step = λ (reply : ℕ × List Bytes).
        after_scan client (scan_loop client fuel pattern limit reply.0) limit out reply in
      let ((next, ks), good, rest) = bind_ok scan step s r e in
      let reply = in_time_ok (client.cmd_scan cursor pattern s).0 (next, ks) good in
      let s1 = (scan s).1 in
      let e' : (step (next, ks) s1).0 ≡ ok r =
        sym (ap (λ (p : Result (Option (List Bytes)) × S). p.0) rest) ∙ e in
      after_scan_lem (scan_loop client fuel pattern limit next) next ks out s1 r b
        (λ o s2 n b' l' h.
          scan_loop_lem fuel next o s2 r
            (let less = laws.scan_left cursor pattern s next ks reply n in omega arith) b' h)
        e'

ended :
    {S : Type 0} (client : Client S) (laws : ClientLaws client) (pattern : Bytes) (limit : ℕ)
    (r : Option (List Bytes))
    → Ends client laws pattern limit r
    → (vs : List Bytes) × (r ≡ some vs) × (length vs ≤ suc (limit - 1))
ended client laws pattern limit (some vs) h = (vs, refl, h)
ended client laws pattern limit none h = absurd h

-- Over a Redis whose `SCAN` ends, whatever the replies to the pipelines give, and with more fuel than
-- a full iteration has rounds: a scan that does not fail comes to its end, with at most `limit`
-- values, or one if the limit is 0.
pub scan_prefix_ends :
    {S : Type 0} (client : Client S) (laws : ClientLaws client) (prefix : Bytes) (limit fuel : ℕ)
    (s : S) (r : Option (List Bytes))
    → laws.left 0 (client.connect s).1 < fuel
    → (scan_prefix client fuel prefix limit s).0 ≡ ok r
    → (vs : List Bytes) × (r ≡ some vs) × (length vs ≤ suc (limit - 1))
unfolding scan_prefix
scan_prefix_ends client laws prefix limit fuel s r enough e =
    let pattern = prefix ++ bytes "*" in
    let loop = scan_loop client fuel pattern limit 0 [] in
    let (u, good, rest) = bind_ok client.connect (λ _. loop) s r e in
    let e' : (loop (client.connect s).1).0 ≡ ok r =
      sym (ap (λ (p : Result (Option (List Bytes)) × _). p.0) rest) ∙ e in
    ended client laws pattern limit r (
      scan_loop_lem client laws pattern limit fuel 0 [] (client.connect s).1 r enough (omega arith)
        e')
