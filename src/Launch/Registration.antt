-- ===== src/Launch/Registration.antt =====
-- Whether and where the server registers itself (`main` of seata-server/src/main.rs): the endpoints
-- of etcd, the keys, and the addresses that are put there.
pub mod Csv
pub mod Addresses
use seata.Base.{
  ℕ, zero, suc, ◌+◌, Bool, true, false, not, ◌&&◌, Option, none, some, List, [], ◌∷◌, ◌++◌, map,
  Text, Bytes, bytes, text_eq, is_empty, starts_with, drop, keep, length, leb, ◌==◌, unwrap_or,
  if◌then◌else◌,
}
use mathlib.Core.List.{reverse}
use seata.Settings.{Settings, Registry}
use seata.Launch.{port_text}

-- `str::split(',')`: the first piece, and the others
unfoldable pub split_comma : Text → Text × List Text
split_comma [] = ([], [])
split_comma (c ∷ t) =
    let (piece, pieces) = split_comma t in
    if c == b',' then ([], piece ∷ pieces) else (c ∷ piece, pieces)

-- The white space of Unicode, in UTF-8: `char::is_whitespace`.
abbrev pub white_spaces : List Bytes
white_spaces =
    (9 ∷ [])
    ∷ (10 ∷ [])
    ∷ (11 ∷ [])
    ∷ (12 ∷ [])
    ∷ (13 ∷ [])
    ∷ (32 ∷ [])
    ∷ (194 ∷ 133 ∷ [])
    ∷ (194 ∷ 160 ∷ [])
    ∷ (225 ∷ 154 ∷ 128 ∷ [])
    ∷ (226 ∷ 128 ∷ 128 ∷ [])
    ∷ (226 ∷ 128 ∷ 129 ∷ [])
    ∷ (226 ∷ 128 ∷ 130 ∷ [])
    ∷ (226 ∷ 128 ∷ 131 ∷ [])
    ∷ (226 ∷ 128 ∷ 132 ∷ [])
    ∷ (226 ∷ 128 ∷ 133 ∷ [])
    ∷ (226 ∷ 128 ∷ 134 ∷ [])
    ∷ (226 ∷ 128 ∷ 135 ∷ [])
    ∷ (226 ∷ 128 ∷ 136 ∷ [])
    ∷ (226 ∷ 128 ∷ 137 ∷ [])
    ∷ (226 ∷ 128 ∷ 138 ∷ [])
    ∷ (226 ∷ 128 ∷ 168 ∷ [])
    ∷ (226 ∷ 128 ∷ 169 ∷ [])
    ∷ (226 ∷ 128 ∷ 175 ∷ [])
    ∷ (226 ∷ 129 ∷ 159 ∷ [])
    ∷ (227 ∷ 128 ∷ 128 ∷ [])
    ∷ []

-- The length of the first of `spaces` that the text begins with, or zero.
unfoldable pub space_before : List Bytes → Text → ℕ
space_before [] t = 0
space_before (w ∷ ws) t = let rest = space_before ws t in if starts_with t w then length w else rest

-- Every round but the last takes a byte at least, so that the text's length is fuel enough.
unfoldable pub trim_front : List Bytes → ℕ → Text → Text
trim_front spaces zero t = t
trim_front spaces (suc fuel) t =
    let n = space_before spaces t in
    let rest = trim_front spaces fuel (drop n t) in if n == 0 then t else rest

-- `str::trim`
unfoldable pub trim : Text → Text
trim t =
    let front = trim_front white_spaces (length t) t in
    reverse (trim_front (map reverse white_spaces) (length front) (reverse front))

-- `csv.split(',').map(|s| s.trim().to_string()).filter(|s| !s.is_empty()).collect()`
unfoldable pub endpoints_of : Text → List Text
endpoints_of csv =
    let (piece, pieces) = split_comma csv in
    keep (λ s. not (is_empty s)) (map trim (piece ∷ pieces))

-- An ASCII letter in lower case. No other character has an ASCII lower case but `K` (Kelvin), which
-- does not occur in what is compared.
abbrev pub lowercase : ℕ → ℕ
lowercase c = if leb b'A' c && leb c b'Z' then c + 32 else c

-- `reg.driver.to_lowercase() == "etcd"`
abbrev pub is_etcd : Text → Bool
is_etcd driver = text_eq (map lowercase driver) (bytes "etcd")

-- Where to register, the namespace and the instance.
pub record Target : Type 0 where
  pub endpoints : List Text
  pub ns : Text
  pub instance_id : Text

module _ (var : Text → Option Text) (cfg : Settings) (uuid : Text) where
  -- `uuid` is `uuid::Uuid::new_v4().to_string()`
  unfoldable pub env_target : Text → Target
  env_target csv = record {
    endpoints = endpoints_of csv;
    ns = unwrap_or (bytes "/seata") (var (bytes "SEATA_ETCD_NS"));
    instance_id = unwrap_or uuid (var (bytes "SEATA_INSTANCE_ID"));
  }

  unfoldable pub cfg_target : Registry → Option Target
  cfg_target reg =
      if is_etcd reg.driver && not (length reg.endpoints == 0)
      then some (record {
        endpoints = reg.endpoints;
        ns = unwrap_or (bytes "/seata") reg.namespace;
        instance_id = unwrap_or uuid reg.instance_id;
      })
      else none

  -- `endpoints_opt`, with `ns` and `instance_id`
  unfoldable pub target : Option Target
  target = elim (var (bytes "SEATA_ETCD_ENDPOINTS")) [
    | some csv ↦ some (env_target csv)
    | none ↦ elim cfg.registry [ none ↦ none | some reg ↦ cfg_target reg ]
  ]

-- `format!("{}/endpoints/http/{}", ns, instance_id)`, and the same for gRPC
abbrev pub ns_http : Target → Text
ns_http t = t.ns ++ (bytes "/endpoints/http/" ++ t.instance_id)

abbrev pub ns_grpc : Target → Text
ns_grpc t = t.ns ++ (bytes "/endpoints/grpc/" ++ t.instance_id)

-- `SocketAddr::from(([0, 0, 0, 0], port)).to_string()`
abbrev pub any_addr : ℕ → Text
any_addr port = bytes "0.0.0.0:" ++ port_text port

-- `http_url`, for the port in `http_listener.local_addr()`, and `grpc_url`
abbrev pub http_url : ℕ → Text
http_url local_port = bytes "http://" ++ any_addr local_port

abbrev pub grpc_url : Settings → Text
grpc_url cfg = bytes "grpc://" ++ any_addr cfg.grpc_port
