-- ===== src/Settings/Override.antt =====
-- What SEATA_HTTP_PORT does (`load` of seata-server/src/settings.rs, called by `main`).
use seata.Base.{
  ℕ, ◌^◌, ◌<◌, ◌≡◌, refl, Option, some, Text, bytes, Result, ok, err, decimal,
  parse_unsigned-decimal, arith,
}
use seata.Settings.{Settings, default_settings, load, loaded_settings}

-- A port that the environment gives in decimal is the HTTP port, with everything else as it is
-- configured, but only if the configuration can be read: if it cannot, the settings are the defaults
-- and the port of the environment is lost with the rest.
pub http_port_override :
    (configured : Result Settings) (var : Text → Option Text) (port : ℕ)
    → port < 2 ^ 16
    → var (bytes "SEATA_HTTP_PORT") ≡ some (decimal 5 port)
    → loaded_settings configured var
      ≡ (elim configured [ ok s ↦ record s { http_port = port } | err e ↦ default_settings ])
unfolding load loaded_settings
http_port_override (err e) var port h set = refl
http_port_override (ok s) var port h set = rw (
  loaded_settings,
  load,
  set,
  parse_unsigned-decimal (2 ^ 16) 5 port (omega (arith, h)) h (omega arith),
)
