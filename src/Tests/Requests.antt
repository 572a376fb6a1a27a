-- ===== src/Tests/Requests.antt =====
-- The guarded requests at the small deployment.
use rescue_proxy.Router.Auth.{unix_seconds}
use rescue_proxy.Prelude.Int.{int64_of_big, ◌+ℤ◌}
use rescue_proxy.Prelude.{codes, Bool, true, false, Option, some, [], ◌∷◌, ◌≡◌, ◌↔◌, refl, arith}
use rescue_proxy.Prelude.Tests.{list_beq}
use rescue_proxy.Prelude.Map
use rescue_proxy.Prelude.Decimal.{parse_uint, format_uint, parse_from, format_fuel}
use rescue_proxy.Prelude.Hex.{equal_fold, hex, to_lower, hex_digit}
use rescue_proxy.Prelude.Int.{pos, ◌-ℤ◌}
use rescue_proxy.Prelude.Exec.{ok}
use rescue_proxy.Cache.{address_eq, Address}
use rescue_proxy.Cache.Maps.{maps_cache, get_minipool_node, get_node_info}
use rescue_proxy.Cache.Maps.Laws.{maps_laws}
use rescue_proxy.Execution.Recipient.{validator_fee_recipient, owned_by_another, recipient_of}
use rescue_proxy.Execution.Recipient.Laws.{
  Answers, validator_fee_recipient-Answers, validator_fee_recipient_sound,
}
use rescue_proxy.Consensus.{get_validator_pubkey, check_all, check_cache, add_all}
use rescue_proxy.Router.Auth.{authenticate, time_sub}
use rescue_proxy.Router.Auth.Laws.{IsAdmitted, authenticate_iff, Counted, authenticate-Counted}
use rescue_proxy.Router.World.{for_each}
use rescue_proxy.Router.Http.{
  clone_request_body, check_proposer, check_registration, prepare_beacon_proposer,
  register_validator, trim_0x,
}
use rescue_proxy.Router.Http.Endpoints.{
  IsGuarded, IsGuardedRegistration, prepare_beacon_proposer-IsGuarded, register_validator-IsGuarded,
}
use rescue_proxy.Router.Http.Answers.{prepare_beacon_proposer_iff, register_validator_iff}
use rescue_proxy.Router.Http.Serve.{
  has_prefix, proxied, prepare_path, route, authentication_middleware, serve,
}
use rescue_proxy.Router.Http.Serve.Laws.{IsAuthorised, serve-IsAuthorised}
use rescue_proxy.Tests.Fixtures.{
  services, codec, world, request, authed_request, address_string-IsHexString, contracts, el,
  pubkey, alice, pool, auth, credential,
}

healthy : (maps_laws.healthy el.cache) ≡ true
unfolding maps_laws
healthy = refl

outside : has_prefix request.request_uri (codes "/_/") ≡ false
unfolding has_prefix
outside = refl

proxied_request :
    (serve services codec true (pos 2000000000000) prepare_path request world).0
    ≡ ok (proxied authed_request)
unfolding serve route authentication_middleware has_prefix authenticate time_sub unix_seconds
    int64_of_big ◌+ℤ◌ ◌-ℤ◌ prepare_beacon_proposer clone_request_body get_validator_pubkey check_all
    check_cache add_all format_uint format_fuel parse_uint parse_from Map.get Map.put list_beq
    for_each check_proposer validator_fee_recipient owned_by_another maps_cache get_minipool_node
    get_node_info equal_fold hex hex_digit to_lower
proxied_request = refl

serve-IsAuthorised_example :
    IsAuthorised services maps_laws address_string-IsHexString codec true
      (pos 2000000000000)
      prepare_path
      request
      world
      authed_request
serve-IsAuthorised_example =
    serve-IsAuthorised services maps_laws address_string-IsHexString codec true (pos 2000000000000)
      prepare_path (omega arith) request authed_request world outside proxied_request

prepared : (prepare_beacon_proposer services codec authed_request world).0 ≡ ok authed_request
unfolding prepare_beacon_proposer clone_request_body get_validator_pubkey check_all check_cache
    add_all format_uint format_fuel parse_uint parse_from Map.get Map.put list_beq for_each
    check_proposer validator_fee_recipient owned_by_another maps_cache get_minipool_node
    get_node_info equal_fold hex hex_digit to_lower
prepared = refl

registered : (register_validator services codec authed_request world).0 ≡ ok authed_request
unfolding register_validator clone_request_body Map.get list_beq for_each check_registration
    validator_fee_recipient owned_by_another maps_cache get_minipool_node get_node_info equal_fold
    hex hex_digit to_lower trim_0x
registered = refl

prepare_beacon_proposer-IsGuarded_example :
    IsGuarded services maps_laws address_string-IsHexString codec authed_request world
      authed_request
prepare_beacon_proposer-IsGuarded_example =
    prepare_beacon_proposer-IsGuarded services maps_laws address_string-IsHexString codec
      authed_request world authed_request prepared

register_validator-IsGuarded_example :
    IsGuardedRegistration services maps_laws address_string-IsHexString codec authed_request world
      authed_request
register_validator-IsGuarded_example =
    register_validator-IsGuarded services maps_laws address_string-IsHexString codec authed_request
      world authed_request registered

prepare_beacon_proposer_iff_example :
    ((prepare_beacon_proposer services codec authed_request world).0 ≡ ok authed_request)
    ↔ IsGuarded services maps_laws address_string-IsHexString codec authed_request world
        authed_request
prepare_beacon_proposer_iff_example =
    prepare_beacon_proposer_iff services codec maps_laws authed_request world healthy
      address_string-IsHexString

register_validator_iff_example :
    ((register_validator services codec authed_request world).0 ≡ ok authed_request)
    ↔ IsGuardedRegistration services maps_laws address_string-IsHexString codec authed_request world
        authed_request
register_validator_iff_example =
    register_validator_iff services codec maps_laws authed_request world healthy
      address_string-IsHexString

validator_fee_recipient-Answers_example :
    Answers maps_laws contracts el
      (ok (recipient_of contracts (maps_laws.contents el.cache) pubkey (some alice)))
      (validator_fee_recipient maps_cache contracts pubkey (some alice) el)
validator_fee_recipient-Answers_example =
    validator_fee_recipient-Answers maps_laws contracts pubkey (some alice) el healthy

answered :
    (validator_fee_recipient maps_cache contracts pubkey (some alice) el).0 ≡ ok (some pool, false)
unfolding validator_fee_recipient owned_by_another maps_cache get_minipool_node get_node_info
    Map.get list_beq
answered = refl

validator_fee_recipient_sound_example :
    (◌≡◌ {A = Option Address × Bool}
      (some pool, false)
      (recipient_of contracts (maps_laws.contents el.cache) pubkey (some alice)))
    × (maps_laws.contents
          (validator_fee_recipient maps_cache contracts pubkey (some alice) el).1.cache
        ≡ maps_laws.contents el.cache)
validator_fee_recipient_sound_example =
    validator_fee_recipient_sound maps_laws contracts pubkey (some alice) el (some pool, false)
      answered

authenticate_iff_example :
    ((authenticate auth (pos 2000000000000) (b'u' ∷ []) (b'p' ∷ []) []).0 ≡ ok credential)
    ↔ IsAdmitted auth (pos 2000000000000) (b'u' ∷ []) (b'p' ∷ []) credential
authenticate_iff_example =
    authenticate_iff auth (omega arith) (pos 2000000000000) (b'u' ∷ []) (b'p' ∷ []) [] credential

authenticate-Counted_example :
    let call = authenticate auth (pos 5000000000000) (b'u' ∷ []) (b'p' ∷ []) [] in
    Counted auth (pos 5000000000000) (b'u' ∷ []) (b'p' ∷ []) [] call.1 call.0
authenticate-Counted_example =
    authenticate-Counted auth (pos 5000000000000) (b'u' ∷ []) (b'p' ∷ []) []
