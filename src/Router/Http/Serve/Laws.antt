-- ===== src/Router/Http/Serve/Laws.antt =====
-- What a request has passed when it reaches the beacon node.
use rescue_proxy.Prelude.{
  codes, Bytes, Bool, false, some, ◌∷◌, ◌≡◌, refl, arith, inl, inr, Option-cases, Bool-cases, ◌==◌,
  nat_eq, list_eq, eq_of_beq, beq_refl, ◌∙◌, ap, sym, ◌≢◌,
}
use rescue_proxy.Prelude.Tests.{list_beq}
use rescue_proxy.Prelude.Int.{ℤ, pos, ◌≤ℤ◌, ◌<ℤ◌}
use rescue_proxy.Prelude.Exec.{Result-cases, ok}
use rescue_proxy.Cache.{address_eq, CacheLaws}
use rescue_proxy.Router.Auth.{authenticate, Credential, max_duration}
use rescue_proxy.Router.Auth.Laws.{IsAdmitted, authenticate_iff}
use rescue_proxy.Router.World.{World, Services}
use rescue_proxy.Router.Entitled.{IsHexString}
use rescue_proxy.Router.Http.{Request, Codec, prepare_beacon_proposer, register_validator}
use rescue_proxy.Router.Http.Endpoints.{
  IsGuarded, IsGuardedRegistration, prepare_beacon_proposer-IsGuarded, register_validator-IsGuarded,
}
use rescue_proxy.Router.Http.Serve.{
  status_path, prepare_path, register_path, has_prefix, proxied, route, authentication_middleware,
  serve,
}

differs : (s t : Bytes) → s ≡ t → (s == t) ≡ false → ⊥
differs s t e d = cc (beq_refl t)

paths_differ : prepare_path ≢ register_path
unfolding list_beq
paths_differ e = differs prepare_path register_path e refl

module _ {S B : Type 0} (x : Services S B) (l : CacheLaws x.cache)
    (law : IsHexString x.address_string) (codec : Codec) (sent : Bool) (now : ℤ)
    (path : Bytes) where
  -- What the route of a request has checked: the two guarded paths their guard, the others nothing.
  pub record IsChecked (r : Request) (w : World S B) (r' : Request) : Type 0 where
    pub unchanged : r' ≡ r
    pub proposals : path ≡ prepare_path → IsGuarded x l law codec r w r'
    pub registrations : path ≡ register_path → IsGuardedRegistration x l law codec r w r'

  route-IsChecked :
      (r r' : Request) (w : World S B)
      → (route x codec sent path r w).0 ≡ ok (proxied r')
      → IsChecked r w r'
  unfolding route
  route-IsChecked r r' w h = elim (Bool-cases (path == status_path)) [
    | inl status ↦ absurd (ground arith)
    | inr other ↦ elim (Bool-cases (path == prepare_path)) [
      | inl preparing ↦ elim (Result-cases (prepare_beacon_proposer x codec r w).0) [
        | inr (e, stopped) ↦ absurd (ground arith)
        | inl (r'', done) ↦
            let same : r'' ≡ r' = ground arith in
            let guard =
              prepare_beacon_proposer-IsGuarded x l law codec r w r' (done ∙ ap ok same) in
            record {
              unchanged = guard.unchanged;
              proposals = λ _. guard;
              registrations =
                  λ p. absurd (paths_differ (sym (eq_of_beq path prepare_path preparing) ∙ p));
            }
      ]
      | inr not_preparing ↦ elim (Bool-cases (path == register_path)) [
        | inl registering ↦ elim (Result-cases (register_validator x codec r w).0) [
          | inr (e, stopped) ↦ absurd (ground arith)
          | inl (r'', done) ↦
              let same : r'' ≡ r' = ground arith in
              let guard = register_validator-IsGuarded x l law codec r w r' (done ∙ ap ok same) in
              record {
                unchanged = guard.unchanged;
                proposals =
                    λ p. absurd (paths_differ (sym p ∙ eq_of_beq path register_path registering));
                registrations = λ _. guard;
              }
        ]
        | inr not_registering ↦ record {
          unchanged = ground arith;
          proposals = λ p. absurd (differs path prepare_path p not_preparing);
          registrations = λ p. absurd (differs path register_path p not_registering);
        }
      ]
    ]
  ]

  -- A request from outside the internal paths that reaches the beacon node: its credential is admitted,
  -- and stands on the request as the node's identity; then its route has checked it.
  pub record IsAuthorised (r : Request) (w : World S B) (r' : Request) : Type 0 where
    pub username : Bytes
    pub password : Bytes
    pub basic_auth : r.basic_auth ≡ some (username, password)
    pub credential : Credential
    pub admitted : IsAdmitted x.auth now username password credential
    pub w' : World S B
    pub same_el : w'.el ≡ w.el
    pub same_cl : w'.cl ≡ w.cl
    pub checked : IsChecked (record r { node = some credential.node_id }) w' r'

  module _
      (sane : (pos 0 ≤ℤ x.auth.validity_window)
        × (x.auth.validity_window <ℤ pos max_duration)) where
    -- A request whose URI lies outside "/_/" and that is proxied carried Basic Auth with an
    -- admitted credential, and is the request itself with the credential's node put into its
    -- context. On the two guarded paths it has passed the guard of its endpoint for that node. This
    -- is for a validity window that is neither negative nor the longest duration, and whatever
    -- faults the cache's storage has, if each shows as an error.
    pub serve-IsAuthorised :
        (r r' : Request) (w : World S B)
        → has_prefix r.request_uri (codes "/_/") ≡ false
        → (serve x codec sent now path r w).0 ≡ ok (proxied r')
        → IsAuthorised r w r'
    unfolding serve authentication_middleware
    serve-IsAuthorised r r' w outside h = elim (Option-cases r.basic_auth) [
      | inl missing ↦ absurd (ground arith)
      | inr ((username, password), given) ↦
          elim (Result-cases (authenticate x.auth now username password w.auth).0) [
            | inr (e, refused) ↦ absurd (ground arith)
            | inl (ac, accepted) ↦
                let w' = record w {
                  m = "auth_ok" ∷ w.m;
                  auth = (authenticate x.auth now username password w.auth).1;
                } in
                record {
                  username = username;
                  password = password;
                  basic_auth = given;
                  credential = ac;
                  admitted =
                      (authenticate_iff x.auth sane now username password w.auth ac).0 accepted;
                  w' = w';
                  same_el = refl;
                  same_cl = refl;
                  checked =
                      route-IsChecked (record r { node = some ac.node_id }) r' w' (ground arith);
                }
          ]
    ]
