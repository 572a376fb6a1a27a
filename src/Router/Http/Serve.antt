-- ===== src/Router/Http/Serve.antt =====
-- router/router.go, `authenticationMiddleware` and `Init`: which handler a request meets. The router of
-- gorilla/mux tries the routes in order, a `Path` by equality, and its middleware runs before a handler.
-- The prefix route "/" takes every path, so there is always a handler.
pub mod Laws
use rescue_proxy.Cache.{address_eq}
use rescue_proxy.Prelude.{
  codes, ℕ, Bytes, Bool, true, false, Option, none, some, List, [], ◌∷◌, String, ◌==◌, ◌&&◌, nat_eq,
  list_eq, if◌then◌else◌,
}
use rescue_proxy.Prelude.Int.{ℤ}
use rescue_proxy.Prelude.Exec.{Exec, Result, ok, err, pure, raise, ◌>>=◌, ◌>>◌}
use rescue_proxy.Router.Auth.{
  unauthorized_401, internal_500, ok_200, authenticate, AuthenticationError, Credential,
}
use rescue_proxy.Router.World.{World, Services, count, on_cl, or_stop}
use rescue_proxy.Router.Http.{
  Request, Codec, Stop, reply, H, prepare_beacon_proposer, register_validator,
}

abbrev pub status_path : Bytes
status_path = codes "/_/status"

abbrev pub prepare_path : Bytes
prepare_path = codes "/eth/v1/validator/prepare_beacon_proposer"

abbrev pub register_path : Bytes
register_path = codes "/eth/v1/validator/register_validator"

-- strings.HasPrefix
unfoldable pub has_prefix : Bytes → Bytes → Bool
has_prefix s [] = true
has_prefix [] (p ∷ ps) = false
has_prefix (c ∷ s) (p ∷ ps) = c == p && has_prefix s ps

-- What a handler does with a request: it hands it to the reverse proxy, or answers "OK".
pub data Served : Type 0 where
  proxied : Request → Served
  healthy : Served

module _ {S B : Type 0} (x : Services S B) (codec : Codec) where
  -- `sent` is whether the connection takes the body; the status after a failed write is 500.
  unfoldable pub status_handler : Bool → H x codec Served
  status_handler sent =
      if sent then (do count "status"; pure healthy) else raise (reply internal_500)

  unfoldable pub route : Bool → Bytes → Request → H x codec Served
  unfolding status_handler
  route sent path r =
      if path == status_path
      then status_handler sent
      else if path == prepare_path
      then (do r' ← prepare_beacon_proposer x codec r; pure (proxied r'))
      else if path == register_path
      then (do r' ← register_validator x codec r; pure (proxied r'))
      else pure (proxied r)

  -- authenticate(username, password), whose counts are the authentication's own
  abbrev pub authenticated : ℤ → Bytes → Bytes → H x codec (Result AuthenticationError Credential)
  authenticated now username password w = (
    ok (authenticate x.auth now username password w.auth).0,
    record w { auth = (authenticate x.auth now username password w.auth).1 },
  )

  unfoldable pub authentication_middleware :
      (Request → H x codec Served) → ℤ → Request → H x codec Served
  authentication_middleware next now r =
      if has_prefix r.request_uri (codes "/_/") then next r else elim r.basic_auth [
        | none ↦ do count "missing_credentials"; raise (reply unauthorized_401)
        | some (username, password) ↦ do
          answer ← authenticated now username password
          elim answer [
            | err e ↦ do count "unauthed"; raise (reply e.http_status)
            | ok ac ↦ do count "auth_ok"; next (record r { node = some ac.node_id })
          ]
      ]

  unfoldable pub serve : Bool → ℤ → Bytes → Request → H x codec Served
  serve sent now path r = authentication_middleware (route sent path) now r
