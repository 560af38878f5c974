-- ===== src/Kv/Redis/Pipeline.antt =====
-- The pipelines of the scan of the Redis store (`RedisKv::scan_prefix` of
-- seata-server/src/storage/redis_kv.rs): what one of them can give.
use seata.Base.{
  ◌+◌, ℕ, zero, suc, ◌≤◌, ◌≡◌, refl, sym, ap, ◌∙◌, Option, none, some, List, [], ◌∷◌, ◌++◌, Bytes,
  bytes, Result, ok, err, Io, leb, length, length-append, somes, arith, Bool-cases, inl, inr,
  bind_ok,
}
use mathlib.Core.List.{append_assoc, append-nil}
use mathlib.Core.Path.{subst}
use seata.Kv.Redis.{
  Timed, replied, elapsed, Client, timed, timed_or, in_time_or, go_on, chunks_from, chunks, Flow,
  more, done, push_values, fetch, after_fetch, after_scan, scan_loop, scan_prefix,
}
use seata.Kv.Redis.Fetch.{in_time_ok}

-- Keys for which there is room are one chunk.
chunks_from_short :
    (size room : ℕ) (cur ks : List Bytes)
    → length ks ≤ room
    → chunks_from size room cur ks ≡ (cur ++ ks) ∷ []
unfolding chunks_from
chunks_from_short size room cur [] h = rw (append-nil cur) refl
chunks_from_short size zero cur (k ∷ ks) h = absurd (omega (arith, h))
chunks_from_short size (suc room) cur (k ∷ ks) h =
    chunks_from_short size room (cur ++ k ∷ []) ks (omega (arith, h))
    ∙ ap (λ l. l ∷ []) (append_assoc cur (k ∷ []) ks)

somes-le : (vs : List (Option Bytes)) → length (somes vs) ≤ length vs
somes-le [] = omega arith
somes-le (none ∷ vs) = omega (arith, somes-le vs)
somes-le (some v ∷ vs) = omega (arith, somes-le vs)

-- What a flow holds is at most so many values.
abbrev Holds : ℕ → Flow → Type 0
Holds n (more out) = length out ≤ n
Holds n (done out) = length out ≤ n

push_values-Holds :
    (limit : ℕ) (out vs : List Bytes) → Holds (length out + length vs) (push_values limit out vs)
unfolding push_values
push_values-Holds limit out [] = omega arith
push_values-Holds limit out (v ∷ vs) = elim (Bool-cases (leb limit (length (out ++ v ∷ [])))) [
  | inl full ↦ rw full (omega (arith, length-append out (v ∷ [])))
  | inr room ↦
      let longer : length (out ++ v ∷ []) + length vs ≡ length out + suc (length vs) =
        omega (arith, length-append out (v ∷ [])) in
      let rest = push_values-Holds limit (out ++ v ∷ []) vs in
      rw room (subst (λ n. Holds n (push_values limit (out ++ v ∷ []) vs)) longer rest)
]

Holds-le : {n m : ℕ} (flow : Flow) → n ≤ m → Holds n flow → Holds m flow
Holds-le (more out) le h = omega (arith, le, h)
Holds-le (done out) le h = omega (arith, le, h)

-- redis-rs documents that the reply to a pipeline has one item for each of its commands.
abbrev pub OnePerCommand : {S : Type 0} → Client S → Type 0
OnePerCommand {S} client =
    (ks : List Bytes) (s : S) (vs : List (Option Bytes))
    → (client.pipe_mget ks s).0 ≡ replied (ok vs)
    → length vs ≡ 1

in_time_or-le :
    (t : Timed (List (Option Bytes))) (values : List (Option Bytes))
    → ((vs : List (Option Bytes)) → t ≡ replied (ok vs) → length vs ≡ 1)
    → in_time_or [] t ≡ ok values
    → length values ≤ 1
in_time_or-le (replied (ok vs)) values one e =
    let same : vs ≡ values = cc in rw (← same) (omega (arith, one vs refl))
in_time_or-le (replied (err x)) values one e = absurd (ground arith)
in_time_or-le elapsed values one e = let nil : [] ≡ values = cc in rw (← nil) (omega arith)

module _ {S : Type 0} (client : Client S) (one : OnePerCommand client) (limit : ℕ) where
  go_on_last :
      (pushed : Flow) (s : S)
      → (go_on client (λ out. fetch client limit out []) pushed s).0 ≡ ok pushed
  unfolding fetch
  go_on_last (done out) s = refl
  go_on_last (more out) s = refl

  fetch-Holds :
      (chunk : List Bytes) (s : S) (flow : Flow)
      → (fetch client limit [] (chunk ∷ []) s).0 ≡ ok flow
      → Holds 1 flow
  unfolding fetch
  fetch-Holds chunk s flow e =
      let pipe = timed_or [] (client.pipe_mget chunk) in
      let (values, good, rest) =
        bind_ok pipe
          (λ values.
            go_on client (λ o. fetch client limit o []) (push_values limit [] (somes values)))
          s flow e in
      let few = in_time_or-le (client.pipe_mget chunk s).0 values (λ vs. one chunk s vs) good in
      let pushed = push_values limit [] (somes values) in
      let last : (go_on client (λ o. fetch client limit o []) pushed (pipe s).1).0 ≡ ok flow =
        sym (ap (λ (p : Result Flow × S). p.0) rest) ∙ e in
      let same : pushed ≡ flow = let found = go_on_last pushed (pipe s).1 in cc in
      rw (← same) (
        Holds-le pushed (omega (arith, few, somes-le values))
          (push_values-Holds limit [] (somes values)))

  after_fetch_last :
      (rest : List Bytes → Io S (Option (List Bytes))) (flow : Flow) (s : S)
      (r : Option (List Bytes))
      → Holds 1 flow
      → (after_fetch client rest limit 0 flow s).0 ≡ ok r
      → (vs : List Bytes) × (r ≡ some vs) × (length vs ≤ 1)
  after_fetch_last rest (done out) s r h e = (out, ground arith, h)
  after_fetch_last rest (more out) s r h e = (out, ground arith, h)

  after_scan_last :
      (rest : List Bytes → Io S (Option (List Bytes))) (ks : List Bytes) (s : S)
      (r : Option (List Bytes))
      → length ks ≤ 256
      → (after_scan client rest limit [] (0, ks) s).0 ≡ ok r
      → (vs : List Bytes) × (r ≡ some vs) × (length vs ≤ 1)
  unfolding after_scan
  after_scan_last rest [] s r short e = ([], ground arith, omega arith)
  after_scan_last rest (k ∷ ks) s r short e =
      let whole = chunks_from_short 256 255 (k ∷ []) ks (omega (arith, short)) in
      let fetching = fetch client limit [] (chunks 256 (k ∷ ks)) in
      let (flow, good, same_rest) = bind_ok fetching (after_fetch client rest limit 0) s r e in
      let holds = fetch-Holds (k ∷ ks) s flow (rw whole at good) in
      let e' : (after_fetch client rest limit 0 flow (fetching s).1).0 ≡ ok r =
        sym (ap (λ (p : Result (Option (List Bytes)) × S). p.0) same_rest) ∙ e in
      after_fetch_last rest flow (fetching s).1 r holds e'

-- If the reply to a pipeline has one item for each of its commands, as the client documents, a scan
-- for which Redis has at most 256 keys, all in the first reply, gives one value at most when it does
-- not fail, however many of the keys have values and whatever the limit is.
pub scan_prefix_loses :
    {S : Type 0} (client : Client S) (prefix : Bytes) (limit fuel : ℕ) (s : S) (ks : List Bytes)
    (r : Option (List Bytes))
    → OnePerCommand client
    → (client.cmd_scan 0 (prefix ++ bytes "*") (client.connect s).1).0 ≡ replied (ok (0, ks))
    → length ks ≤ 256
    → (scan_prefix client (suc fuel) prefix limit s).0 ≡ ok r
    → (vs : List Bytes) × (r ≡ some vs) × (length vs ≤ 1)
unfolding scan_prefix scan_loop
scan_prefix_loses client prefix limit fuel s ks r one scanned short e =
    let pattern = prefix ++ bytes "*" in
    let s1 = (client.connect s).1 in
    let loop = scan_loop client (suc fuel) pattern limit 0 [] in
    let (u, good, rest) = bind_ok client.connect (λ _. loop) s r e in
    let e' : (loop s1).0 ≡ ok r =
      sym (ap (λ (p : Result (Option (List Bytes)) × _). p.0) rest) ∙ e in
    let scan = timed (client.cmd_scan 0 pattern) in
    let step = λ (reply : ℕ × List Bytes).
      after_scan client (scan_loop client fuel pattern limit reply.0) limit [] reply in
    let (reply, read, rest') = bind_ok scan step s1 r e' in
    let replied_so = in_time_ok (client.cmd_scan 0 pattern s1).0 reply read in
    let same : reply ≡ (0, ks) = ground (arith, scanned, replied_so) in
    let e2 : (step reply (scan s1).1).0 ≡ ok r =
      sym (ap (λ (p : Result (Option (List Bytes)) × _). p.0) rest') ∙ e' in
    let e3 = subst (λ y. (step y (scan s1).1).0 ≡ ok r) same e2 in
    after_scan_last client one limit (scan_loop client fuel pattern limit 0) ks (scan s1).1 r short
      e3
