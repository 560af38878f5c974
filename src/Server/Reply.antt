-- ===== src/Server/Reply.antt =====
-- The replies of the front ends of seata-server/src/main.rs, and the plumbing that the handlers
-- share. A handler always replies; an error of the manager or the barrier becomes a reply.
use seata.Base.{ℕ, Bool, true, false, List, Text, Result, ok, err, Io}
use seata.Domain.{GlobalTxn}
use seata.Saga.World.{World}

-- The body of an HTTP reply: `""`, `e.to_string()`, `{"gid": …}`, a transaction or a list of them.
pub data Content : Type 0 where
  empty : Content
  text : Text → Content
  gid : Text → Content
  txn : GlobalTxn → Content
  txns : List GlobalTxn → Content

pub record HttpReply : Type 0 where
  pub status : ℕ
  pub content : Content

-- `StatusCode::OK`, `NOT_FOUND` and `INTERNAL_SERVER_ERROR`
abbrev pub ok_200 : Content → HttpReply
ok_200 c = record { status = 200; content = c }

abbrev pub not_found_404 : HttpReply
not_found_404 = record { status = 404; content = empty }

abbrev pub internal_500 : Text → HttpReply
internal_500 e = record { status = 500; content = text e }

-- `Result<tonic::Response<A>, tonic::Status>`
pub data GrpcReply (A : Type 0) : Type 0 where
  response : A → GrpcReply A
  internal not_found : Text → GrpcReply A

abbrev pub Handler : Type 0 → Type 0 → Type 0
Handler S R = World S → R × World S

module _ {R : Type 0} where
  abbrev pub replied : {A : Type 0} → (A → R) → (Text → R) → Result A → R
  replied on_ok on_err (ok a) = on_ok a
  replied on_ok on_err (err e) = on_err e

module _ {S R : Type 0} where
  -- `match call.await { Ok(a) => …, Err(e) => … }`
  abbrev pub reply_by : {A : Type 0} → (A → R) → (Text → R) → Io (World S) A → Handler S R
  reply_by on_ok on_err call w = let (r, w') = call w in (replied on_ok on_err r, w')

  -- The reply of a call of the barrier, or what follows it.
  abbrev pub passed : Result Bool → R → (Text → R) → Handler S R → Handler S R
  passed (ok false) seen on_err rest w = (seen, w)
  passed (err e) seen on_err rest w = (on_err e, w)
  passed (ok true) seen on_err rest w = rest w

  -- `match barrier.insert(…).await { Ok(false) => return …, Err(e) => return …, Ok(true) => {} }`
  abbrev pub behind : Io (World S) Bool → R → (Text → R) → Handler S R → Handler S R
  behind check seen on_err rest w = let (r, w') = check w in passed r seen on_err rest w'
