-- ===== src/Main/Laws.antt =====
-- Which command lines `initFlags` accepts.
use rescue_proxy.Cache.{address_eq}
use rescue_proxy.Prelude.{
  codes, Bool, some, [], ◌≡◌, ◌≢◌, ◌⊎◌, arith, nat_eq, list_eq, list_beq_iff, Option-cases, inl,
  inr,
}
use rescue_proxy.Main.{Flags, Parsers, Config, half_tls, with_window, with_urls, init_flags}

-- The flags can be used, and the configuration is what they say.
pub record IsUsable (p : Parsers) (f : Flags) (cfg : Config) : Type 0 where
  pub beacon : p.parse_url f.bn_url ≡ some cfg.beacon_url
  pub execution : p.parse_url f.ec_url ≡ some cfg.execution_url
  pub beacon_scheme :
      (cfg.beacon_url.scheme ≡ codes "http") ⊎ (cfg.beacon_url.scheme ≡ codes "https")
  pub execution_scheme : cfg.execution_url.scheme ≡ codes "ws"
  pub window : p.parse_duration f.auth_valid_for ≡ some cfg.auth_validity_window
  pub listens : cfg.listen_addr ≢ []
  pub api_listens : cfg.api_listen_addr ≢ []
  pub admin_listens : cfg.admin_listen_addr ≢ []
  pub has_secret : cfg.credential_secret ≢ []
  pub has_secret_flag : cfg.credential_secret ≡ f.hmac_secret
  pub both_or_neither :
      ((cfg.grpc_tls_cert_file ≡ []) × (cfg.grpc_tls_key_file ≡ []))
      ⊎ ((cfg.grpc_tls_cert_file ≢ []) × (cfg.grpc_tls_key_file ≢ []))

-- The configuration that initFlags returns has a beacon node at an http or https URL and an execution
-- client at a ws URL, the flags' own URLs, validity window and secret, addresses to listen on and a
-- secret that are not empty, and both TLS files for gRPC or neither.
pub init_flags-IsUsable :
    (p : Parsers) (logger_built : Bool) (f : Flags) (cfg : Config)
    → init_flags p logger_built f ≡ some cfg
    → IsUsable p f cfg
unfolding init_flags with_urls with_window half_tls
init_flags-IsUsable p logger_built f cfg h = elim (Option-cases (p.parse_url f.bn_url)) [
  | inl bad ↦ absurd (ground arith)
  | inr (beacon, b) ↦ elim (Option-cases (p.parse_url f.ec_url)) [
    | inl bad ↦ absurd (ground arith)
    | inr (execution, e) ↦ elim (Option-cases (p.parse_duration f.auth_valid_for)) [
      | inl bad ↦ absurd (ground arith)
      | inr (window, w) ↦
          let http = list_beq_iff beacon.scheme (codes "http") in
          let https = list_beq_iff beacon.scheme (codes "https") in
          let ws = list_beq_iff execution.scheme (codes "ws") in
          record {
            beacon = ground arith;
            execution = ground arith;
            beacon_scheme = ground (arith, http, https);
            execution_scheme = ground (arith, ws);
            window = ground arith;
            listens = ground arith;
            api_listens = ground arith;
            admin_listens = ground arith;
            has_secret = ground arith;
            has_secret_flag = ground arith;
            both_or_neither = ground arith;
          }
    ]
  ]
]
