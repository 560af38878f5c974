-- ===== src/Tests/RedisServer.antt =====
-- A small server in the place of Redis, over the map of Kv/Mem.antt: it answers every command, gives
-- all keys in one round, and keeps the contract of the client.
use seata.Base.{length, none, Bool-cases, inl, inr}
use seata.Kv.Redis.Pipeline.{OnePerCommand}
use seata.Base.{some, err, leb, ◌&&◌, ◌-◌}
use seata.Base.{
  ◌<◌, ℕ, ◌≡◌, ◌≢◌, refl, Option, List, [], ◌∷◌, Bytes, bytes, ok, starts_with, if◌then◌else◌,
  arith, map,
}
use seata.Kv.Mem.{MemMap, Entries, IsUnique, lookup, insert, put, get, put_ok, put_either, later}
use seata.Kv.Mem
use seata.Kv.Redis.{Client, Timed, replied}
use seata.Kv.Redis.Fetch.{ClientLaws}
use seata.Tests.Servers.{find}

drop_last : Bytes → Bytes
drop_last [] = []
drop_last (b ∷ []) = []
drop_last (b ∷ c ∷ t) = b ∷ drop_last (c ∷ t)

keys_under : Bytes → Entries → List Bytes
keys_under prefix [] = []
keys_under prefix ((k, v) ∷ l) =
    let rest = keys_under prefix l in if starts_with k prefix then k ∷ rest else rest

unfoldable pub scan : ℕ → Bytes → MemMap → Timed (ℕ × List Bytes) × MemMap
unfolding keys_under drop_last
scan cursor pattern s = (replied (ok (0, keys_under (drop_last pattern) s.entries)), s)

-- The reply to a pipeline of one `MGET`, the list of its values, read as a list of optional byte
-- strings: its one item is the list, which is a byte string only if each value is the text of a
-- byte. Here that is one digit.
abbrev reply_of : List (Option Bytes) → Timed (List (Option Bytes))
reply_of [] = replied (ok (some [] ∷ []))
reply_of (some (d ∷ []) ∷ []) =
    if leb b'0' d && leb d b'9'
    then replied (ok (some ((d - b'0') ∷ []) ∷ []))
    else replied (err (bytes "not convertible"))
reply_of vs = replied (err (bytes "not convertible"))

abbrev pub client : Client MemMap
client = record {
  connect = λ s. (ok tt, s);
  cmd_get = λ k s. (replied (ok (find s k)), s);
  cmd_set = λ k v s. (replied (ok tt), (put k v s).1);
  cmd_del = λ k s. (replied (ok tt), (Mem.delete k s).1);
  cmd_scan = scan;
  pipe_mget = λ ks s. (reply_of (map (find s) ks), s);
}

pub scan_left :
    (c : ℕ) (p : Bytes) (s : MemMap) (next : ℕ) (ks : List Bytes)
    → (scan c p s).0 ≡ replied (ok (next, ks))
    → next ≢ 0
    → 0 < 0
unfolding scan
scan_left c p s next ks e n = absurd (n (ground arith))

pub put_returns : (k v : Bytes) (s : MemMap) → (put k v s).0 ≡ ok tt
unfolding put
put_returns k v s = refl

pub delete_returns : (k : Bytes) (s : MemMap) → (Mem.delete k s).0 ≡ ok tt
unfolding Mem.delete
delete_returns k s = refl

pub get_value :
    (k : Bytes) (s : MemMap) (v : Option Bytes)
    → replied (ok (find s k)) ≡ replied (ok v)
    → v ≡ find s k
get_value k s v e = cc

abbrev pub client_laws : ClientLaws client
client_laws = record {
  find = find;
  left = λ c s. 0;
  connect_keeps = λ s j. refl;
  get_value = get_value;
  get_keeps = λ k s j. refl;
  set_ok = λ k v s e. put_ok k v s (put_returns k v s);
  del_ok = λ k s e. Mem.delete_ok k s (delete_returns k s);
  scan_left = scan_left;
  pipe_left = λ ks c s. refl;
}

reply_of-one : (values vs : List (Option Bytes)) → reply_of values ≡ replied (ok vs) → length vs ≡ 1
reply_of-one [] vs e = let same : some [] ∷ [] ≡ vs = cc in rw (← same) refl
reply_of-one (some (d ∷ []) ∷ []) vs e = elim (Bool-cases (leb b'0' d && leb d b'9')) [
  | inl digit ↦ let same : some ((d - b'0') ∷ []) ∷ [] ≡ vs = ground arith in rw (← same) refl
  | inr other ↦ absurd (ground arith)
]
reply_of-one (none ∷ values) vs e = absurd (ground arith)
reply_of-one (some [] ∷ values) vs e = absurd (ground arith)
reply_of-one (some (d ∷ []) ∷ v ∷ values) vs e = absurd (ground arith)
reply_of-one (some (d ∷ c ∷ ds) ∷ values) vs e = absurd (ground arith)

pub client-OnePerCommand : OnePerCommand client
client-OnePerCommand ks s vs e = reply_of-one (map (find s) ks) vs e
