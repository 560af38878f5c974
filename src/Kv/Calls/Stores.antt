-- ===== src/Kv/Calls/Stores.antt =====
-- The stores of seata-server/src/storage/ and of the tests as maps.
use seata.Base.{
  ◌≡◌, sym, ap, ◌∙◌, Option, none, some, List, Bytes, ok, ◌>>◌, text_eq, if◌then◌else◌, inl, inr,
  Result-cases, bind_ok,
}
use seata.Kv.Mem.{MemMap, lookup, mem_kv}
use seata.Kv.Mem
use seata.Kv.Sea
use seata.Kv.Sea.{Table, TableLaws}
use seata.Kv.Sled.{Db, DbLaws}
use seata.Kv.Redis
use seata.Kv.Redis.{Client, Timed, replied, elapsed, timed}
use seata.Kv.Redis.Fetch.{ClientLaws, in_time_ok}
use seata.Kv.Calls.{Cells, KvCall, answers, Map, map_answers, map_after, MapLaws, calls_refine}

abbrev pub sea_cells : {S : Type 0} → Table S → Cells S
sea_cells db = record { get = Sea.get db; put = Sea.put db; delete = Sea.delete db }

abbrev pub sled_cells : {S : Type 0} → Db S → Cells S
sled_cells db = record { get = db.db_get; put = db.db_insert; delete = db.db_remove }

abbrev pub redis_cells : {S : Type 0} → Client S → Cells S
redis_cells client = record {
  get = Redis.get client;
  put = Redis.put client;
  delete = Redis.delete client;
}

abbrev pub mem_cells : Cells MemMap
mem_cells = record { get = Mem.get; put = Mem.put; delete = Mem.delete }

module _ {S : Type 0} (client : Client S) (laws : ClientLaws client) where
  -- A command that returned was replied to, on a connection.
  command_lem :
      {A : Type 0} (cmd : S → Timed A × S) (s : S) (a : A)
      → let io = client.connect >> timed cmd in
        let s1 = (client.connect s).1 in
        (io s).0 ≡ ok a → ((cmd s1).0 ≡ replied (ok a)) × ((io s).1 ≡ (cmd s1).1)
  command_lem cmd s a h =
      let (u, connected, end) = bind_ok client.connect (λ _. timed cmd) s a h in
      let s1 = (client.connect s).1 in
      (in_time_ok (cmd s1).0 a (sym (ap (λ p. p.0) end) ∙ h), ap (λ p. p.1) end)

  redis_get_ok :
      (k : Bytes) (s : S) (v : Option Bytes) → (Redis.get client k s).0 ≡ ok v → laws.find s k ≡ v
  unfolding Redis.get
  redis_get_ok k s v h =
      let (got, _) = command_lem (client.cmd_get k) s v h in
      sym (laws.connect_keeps s k) ∙ sym (laws.get_value k _ v got)

  -- A read keeps the store, also one that fails: the connection or the time limit may.
  redis_get_keeps :
      (k : Bytes) (s : S) (j : Bytes) → laws.find (Redis.get client k s).1 j ≡ laws.find s j
  unfolding Redis.get
  redis_get_keeps k s j = elim (Result-cases (client.connect s).0) [
    | inl (u, e) ↦ rw e (laws.get_keeps k (client.connect s).1 j ∙ laws.connect_keeps s j)
    | inr (x, e) ↦ rw e (laws.connect_keeps s j)
  ]

  redis_put_ok :
      (k v : Bytes) (s : S)
      → (Redis.put client k v s).0 ≡ ok tt
      → (j : Bytes)
      → laws.find (Redis.put client k v s).1 j ≡ (if text_eq k j then some v else laws.find s j)
  unfolding Redis.put
  redis_put_ok k v s h j =
      let (set, end) = command_lem (client.cmd_set k v) s tt h in
      ap (λ s'. laws.find s' j) end
      ∙ laws.set_ok k v (client.connect s).1 set j
      ∙ rw (laws.connect_keeps s j)

  redis_delete_ok :
      (k : Bytes) (s : S)
      → (Redis.delete client k s).0 ≡ ok tt
      → (j : Bytes)
      → laws.find (Redis.delete client k s).1 j ≡ (if text_eq k j then none else laws.find s j)
  unfolding Redis.delete
  redis_delete_ok k s h j =
      let (deleted, end) = command_lem (client.cmd_del k) s tt h in
      ap (λ s'. laws.find s' j) end
      ∙ laws.del_ok k (client.connect s).1 deleted j
      ∙ rw (laws.connect_keeps s j)

-- One of the stores, over a table, a database or a server that keeps its contract.
pub data Stored : Type 1 where
  sea : {S : Type 0} (db : Table S) → TableLaws db → Stored
  sled : {S : Type 0} (db : Db S) → DbLaws db → Stored
  redis : {S : Type 0} (client : Client S) → ClientLaws client → Stored
  memory : Stored

abbrev pub State : Stored → Type 0
State (sea {S} db laws) = S
State (sled {S} db laws) = S
State (redis {S} client laws) = S
State memory = MemMap

abbrev pub cells_of : (store : Stored) → Cells (State store)
cells_of (sea db laws) = sea_cells db
cells_of (sled db laws) = sled_cells db
cells_of (redis client laws) = redis_cells client
cells_of memory = mem_cells

-- The rows of the table, the entries of the database, the keys of the server, or those of the map.
abbrev pub find_in : (store : Stored) → State store → Map
find_in (sea db laws) = laws.find
find_in (sled db laws) = laws.find
find_in (redis client laws) = laws.find
find_in memory = λ s k. lookup k s.entries

Stored-MapLaws : (store : Stored) → MapLaws (cells_of store) (find_in store)
Stored-MapLaws (sea db laws) = record {
  get_ok = Sea.get_ok db laws;
  get_keeps = Sea.get_keeps db laws;
  put_ok = Sea.put_lem db laws;
  delete_ok = Sea.delete_lem db laws;
}
Stored-MapLaws (sled db laws) = record {
  get_ok = laws.read;
  get_keeps = laws.read_keeps;
  put_ok = laws.inserted;
  delete_ok = laws.removed;
}
Stored-MapLaws (redis client laws) = record {
  get_ok = redis_get_ok client laws;
  get_keeps = redis_get_keeps client laws;
  put_ok = redis_put_ok client laws;
  delete_ok = redis_delete_ok client laws;
}
Stored-MapLaws memory = record {
  get_ok = Mem.get_ok;
  get_keeps = Mem.get_keeps;
  put_ok = Mem.put_ok;
  delete_ok = Mem.delete_ok;
}

-- Calls of `get`, `put` and `delete` on any of the four stores, one after the other, over a table, a
-- database or a server that keeps its contract, if all of them return: what they answer is what a
-- map answers to them, and what stands under each key afterwards is what the map holds.
pub stores_refine_map :
    (store : Stored) (cs : List KvCall) (s : State store) (said : List (Option Bytes))
    → (answers (cells_of store) cs s).0 ≡ ok said
    → (said ≡ map_answers cs (find_in store s))
      × ((j : Bytes)
          → find_in store (answers (cells_of store) cs s).1 j ≡ map_after cs (find_in store s) j)
stores_refine_map store cs s said h =
    calls_refine (cells_of store) (find_in store) (Stored-MapLaws store) cs s said h
