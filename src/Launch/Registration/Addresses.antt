-- ===== src/Launch/Registration/Addresses.antt =====
-- What the server registers about itself (`main` of seata-server/src/main.rs).
use seata.Base.{
  ℕ, ◌≡◌, ◌≢◌, ◌∙◌, some, ◌++◌, Text, bytes, ok, Io, text_eq_refl, text_eq_ne, append_cancel,
  decimal, arith,
}
use seata.Settings.{Settings}
use seata.Launch.Registration.{Target, ns_http, ns_grpc, http_url, grpc_url}
use seata.Launch.Etcd.{Client, ClientLaws, register_to_etcd, register_lem}

-- The call that `main` spawns, with the port that the HTTP listener is bound to.
unfoldable pub register_self : {E : Type 0} → Client E → Settings → ℕ → Target → Io E ℕ
register_self client cfg local_port t =
    register_to_etcd client t.endpoints (ns_http t) (ns_grpc t) (http_url local_port) (grpc_url cfg)

ns_grpc-ne-ns_http : (t : Target) → ns_grpc t ≢ ns_http t
ns_grpc-ne-ns_http t e =
    let rest = append_cancel t.ns _ _ e in
    let name = append_cancel (bytes "/endpoints/") _ _ rest in ground arith

module _ {E : Type 0} (client : Client E) (laws : ClientLaws client) where
  -- A registration that returns has put the server's two addresses under its two keys, which
  -- differ, with a lease that no key had before. The addresses are those that the sockets are
  -- bound to, 0.0.0.0 with their ports, which name no host.
  pub register_self_lem :
      (cfg : Settings) (local_port : ℕ) (t : Target) (lease : ℕ) (e : E)
      → (register_self client cfg local_port t e).0 ≡ ok lease
      → (laws.value (register_self client cfg local_port t e).1 (ns_http t)
          ≡ some (bytes "http://0.0.0.0:" ++ decimal 5 local_port, lease))
        × (laws.value (register_self client cfg local_port t e).1 (ns_grpc t)
            ≡ some (bytes "grpc://0.0.0.0:" ++ decimal 5 cfg.grpc_port, lease))
        × ((j v : Text) → laws.value e j ≢ some (v, lease))
  unfolding register_self
  register_self_lem cfg local_port t lease e h =
      let (put, fresh) =
        register_lem client laws (ns_http t) (ns_grpc t) (http_url local_port) (grpc_url cfg)
          t.endpoints lease e h in
      (
        put (ns_http t)
            ∙ rw (
              text_eq_ne (ns_grpc t) (ns_http t) (ns_grpc-ne-ns_http t),
              text_eq_refl (ns_http t),
            ),
        put (ns_grpc t) ∙ rw (text_eq_refl (ns_grpc t)),
        fresh,
      )
