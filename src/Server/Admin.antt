-- ===== src/Server/Admin.antt =====
-- The pages of the HTTP server that are not about transactions: `admin_proxy` and `metrics` of
-- seata-server/src/main.rs, over the HTTP client and the encoder of the metrics.
use seata.Base.{
  ℕ, ◌&&◌, Option, some, ◌++◌, Text, Bytes, bytes, starts_with, leb, unwrap_or, Result, ok, err,
  if◌then◌else◌, [],
}

-- A response of the remote: its body fails to arrive, or is there.
pub record Response : Type 0 where
  pub status : ℕ
  pub content_type : Option Bytes
  pub body : Result Bytes

-- What the server answers.
pub record Answer : Type 0 where
  pub status : ℕ
  pub content_type : Option Bytes
  pub body : Bytes

-- `lang` is `std::env::var("LANG").ok()`
unfoldable pub admin_url : Option Text → Text → Text
admin_url lang path =
    let lang = unwrap_or [] lang in
    let host =
      if starts_with lang (bytes "zh_CN")
      then bytes "cn-admin.dtm.pub"
      else bytes "admin.dtm.pub" in
    bytes "http://" ++ (host ++ path)

-- `StatusCode::from_u16(status).unwrap_or(StatusCode::OK)`
abbrev pub status_or_ok : ℕ → ℕ
status_or_ok status = if leb 100 status && leb status 999 then status else 200

-- `send url secs` is `client.get(&url).timeout(secs).send()`.
unfoldable pub admin_proxy : (Text → ℕ → Result Response) → Option Text → Text → Answer
admin_proxy send lang path = elim (send (admin_url lang path) 3) [
  | ok resp ↦ record {
    status = status_or_ok resp.status;
    content_type = resp.content_type;
    body = elim resp.body [ ok b ↦ b | err e ↦ [] ];
  }
  | err e ↦ record {
    status = 502;
    content_type = some (bytes "text/plain; charset=utf-8");
    body = e;
  }
]

-- `encode` writes what `gather` gives; `utf8` is `String::from_utf8`.
unfoldable pub metrics : Result Bytes → (Bytes → Option Text) → Answer
metrics encode utf8 = elim encode [
  | err e ↦ record {
    status = 500;
    content_type = some (bytes "text/plain; charset=utf-8");
    body = e;
  }
  | ok buffer ↦ record {
    status = 200;
    content_type = some (bytes "text/plain; charset=utf-8");
    body = unwrap_or [] (utf8 buffer);
  }
]
