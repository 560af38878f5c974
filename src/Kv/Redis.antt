-- ===== src/Kv/Redis.antt =====
-- seata-server/src/storage/redis_kv.rs: the store on Redis, over a parameter for the client. The
-- prefix of a scan is UTF-8, which `String::from_utf8_lossy` leaves as it is; the keys come back as
-- strings, or the command fails.
pub mod Fetch
pub mod Scan
pub mod Pipeline
use seata.Base.{
  ℕ, zero, suc, Bool, true, false, ◌||◌, Option, none, some, List, [], ◌∷◌, ◌++◌, Text, Bytes,
  bytes, Result, ok, err, Io, ◌>>=◌, ◌>>◌, pure, if◌then◌else◌, leb, ◌==◌, length, somes, is_empty,
  ◌-◌,
}

-- A command under `tokio::time::timeout`: its reply, or the time ran out.
pub data Timed (A : Type 0) : Type 0 where
  replied : Result A → Timed A
  elapsed : Timed A

-- The client's commands on a connection; `SCAN` has a cursor and a pattern. `pipe_mget` is a pipeline
-- of one `MGET`, whose reply the caller decodes as a list of optional byte strings: what a
-- pipeline's reply gives when it is read so is the client's.
pub record Client (S : Type 0) : Type 0 where
  pub connect : Io S (Unit {0})
  pub cmd_get : Bytes → S → Timed (Option Bytes) × S
  pub cmd_set : Bytes → Bytes → S → Timed (Unit {0}) × S
  pub cmd_del : Bytes → S → Timed (Unit {0}) × S
  pub cmd_scan : ℕ → Bytes → S → Timed (ℕ × List Bytes) × S
  pub pipe_mget : List Bytes → S → Timed (List (Option Bytes)) × S

module _ {A : Type 0} where
  -- `.await??`
  abbrev pub in_time : Timed A → Result A
  in_time (replied r) = r
  in_time elapsed = err (bytes "deadline has elapsed")

  -- `.await.unwrap_or(Ok(…))?`
  abbrev pub in_time_or : A → Timed A → Result A
  in_time_or a (replied r) = r
  in_time_or a elapsed = ok a

  abbrev pub timed : {S : Type 0} → (S → Timed A × S) → Io S A
  timed cmd s = let (t, s') = cmd s in (in_time t, s')

  abbrev pub timed_or : {S : Type 0} → A → (S → Timed A × S) → Io S A
  timed_or a cmd s = let (t, s') = cmd s in (in_time_or a t, s')

-- `keys.chunks(size)`, with room for `room` more keys in the chunk `cur`
unfoldable pub chunks_from : ℕ → ℕ → List Bytes → List Bytes → List (List Bytes)
chunks_from size room cur [] = cur ∷ []
chunks_from size zero cur (k ∷ ks) = cur ∷ chunks_from size (size - 1) (k ∷ []) ks
chunks_from size (suc room) cur (k ∷ ks) = chunks_from size room (cur ++ k ∷ []) ks

abbrev pub chunks : ℕ → List Bytes → List (List Bytes)
chunks size [] = []
chunks size (k ∷ ks) = chunks_from size (size - 1) (k ∷ []) ks

-- Where a loop goes on from, or what it returns at once.
pub data Flow : Type 0 where
  more : List Bytes → Flow
  done : List Bytes → Flow

-- `for v in values.into_iter().flatten() { out.push(v); if out.len() >= limit { return Ok(out); } }`
unfoldable pub push_values : ℕ → List Bytes → List Bytes → Flow
push_values limit out [] = more out
push_values limit out (v ∷ vs) =
    let out' = out ++ v ∷ [] in
    let rest = push_values limit out' vs in if leb limit (length out') then done out' else rest

module _ {S : Type 0} (client : Client S) where
  unfoldable pub get : Bytes → Io S (Option Bytes)
  get k = do client.connect; timed (client.cmd_get k)

  unfoldable pub put : Bytes → Bytes → Io S (Unit {0})
  put k v = do client.connect; timed (client.cmd_set k v)

  unfoldable pub delete : Bytes → Io S (Unit {0})
  delete k = do client.connect; timed (client.cmd_del k)

  abbrev pub go_on : (List Bytes → Io S Flow) → Flow → Io S Flow
  go_on rest (done out) = pure (done out)
  go_on rest (more out) = rest out

  -- the loop over the chunks
  unfoldable pub fetch : ℕ → List Bytes → List (List Bytes) → Io S Flow
  fetch limit out [] = pure (more out)
  fetch limit out (chunk ∷ rest) = do
    values ← timed_or [] (client.pipe_mget chunk)
    go_on (λ out'. fetch limit out' rest) (push_values limit out (somes values))

  -- what follows the pipelines of one round, where `rest` is the next round
  abbrev pub after_fetch :
      (List Bytes → Io S (Option (List Bytes))) → ℕ → ℕ → Flow → Io S (Option (List Bytes))
  after_fetch rest limit next (done out) = pure (some out)
  after_fetch rest limit next (more out) =
      if next == 0 || leb limit (length out) then pure (some out) else rest out

  -- what follows the `SCAN` of one round
  unfoldable pub after_scan :
      (List Bytes → Io S (Option (List Bytes)))
      → ℕ
      → List Bytes
      → ℕ × List Bytes
      → Io S (Option (List Bytes))
  after_scan rest limit out (next, []) = if next == 0 then pure (some out) else rest out
  after_scan rest limit out (next, k ∷ ks) = do
    flow ← fetch limit out (chunks 256 (k ∷ ks))
    after_fetch rest limit next flow

  -- The loop over the cursor. `none` says that the fuel ran out: the loop is still running.
  unfoldable pub scan_loop : ℕ → Bytes → ℕ → ℕ → List Bytes → Io S (Option (List Bytes))
  scan_loop zero pattern limit cursor out = pure none
  scan_loop (suc fuel) pattern limit cursor out = do
    reply ← timed (client.cmd_scan cursor pattern)
    after_scan (scan_loop fuel pattern limit reply.0) limit out reply

  unfoldable pub scan_prefix : ℕ → Bytes → ℕ → Io S (Option (List Bytes))
  scan_prefix fuel prefix limit = do client.connect; scan_loop fuel (prefix ++ bytes "*") limit 0 []
