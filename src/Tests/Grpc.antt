-- ===== src/Tests/Grpc.antt =====
-- The gRPC proxy at the small deployment.
use rescue_proxy.Router.Auth.{unix_seconds}
use rescue_proxy.Prelude.Int.{int64_of_big, ◌+ℤ◌}
use rescue_proxy.Router.Agreed.{check_proposer-check_container}
use rescue_proxy.Router.Entitled.{Names}
use rescue_proxy.Router.Http.{check_proposer}
use rescue_proxy.Cache.{address_eq, Address}
use rescue_proxy.Prelude.{◌↔◌, true, Bytes, codes, Option, some, List, [], ◌∷◌, ◌≡◌, refl, arith}
use rescue_proxy.Prelude.Tests.{list_beq}
use rescue_proxy.Prelude.Map
use rescue_proxy.Prelude.Map.{Map}
use rescue_proxy.Prelude.Decimal.{parse_uint, format_uint, parse_from, format_fuel}
use rescue_proxy.Prelude.Int.{pos, ◌-ℤ◌}
use rescue_proxy.Prelude.Exec.{Result, ok, err}
use rescue_proxy.Cache.Maps.{MapsCache, maps_cache, get_minipool_node, get_node_info}
use rescue_proxy.Cache.Maps.Laws.{maps_laws}
use rescue_proxy.Execution.Recipient.{validator_fee_recipient, owned_by_another}
use rescue_proxy.Consensus.{get_validator_pubkey, check_all, check_cache, add_all}
use rescue_proxy.Router.Auth.{authenticate, time_sub, internal}
use rescue_proxy.Router.World.{World, for_each}
use rescue_proxy.Router.Grpc.{
  FeeRecipientContainer, ValidatorRegistration, Protobuf, Stop, status, as_pubkey, check_container,
  check_signed, validate_prepare_beacon_proposer, validate_register_validators,
}
use rescue_proxy.Router.Grpc.Validated.{
  IsValidated, IsValidatedRegistration, validate_prepare_beacon_proposer-IsValidated,
  validate_register_validators-IsValidated,
}
use rescue_proxy.Router.Grpc.Interceptor.{
  prepare_beacon_proposer_cb, guarded, Transport, Target, split, is_service, is_exempt, run_cb,
  recv_msg, node_of_header, stream_for, caller, payload_interceptor,
}
use rescue_proxy.Router.Grpc.Stream.{
  DecodesEmpty, Receives, begins, receives, AllButLast, Receives-AllButLast,
  first_message_unchecked,
}
use rescue_proxy.Router.Grpc.Opened.{IsOpened, payload_interceptor-IsOpened}
use rescue_proxy.Tests.Fixtures.{
  services, world, pubkey, alice, pool, codec, address_string, address_string-IsHexString,
}

abbrev recipients : Bytes → List FeeRecipientContainer
recipients [] = []
recipients (b ∷ bs) = record { validator_index = 7; fee_recipient = pool.bytes } ∷ []

abbrev registrations : Bytes → List (Option ValidatorRegistration)
registrations [] = []
registrations (b ∷ bs) = some (record { pubkey = pubkey; fee_recipient = pool.bytes }) ∷ []

abbrev proto : Protobuf
proto = record {
  unmarshal_recipients = λ b. some (recipients b);
  unmarshal_registrations = λ b. some (registrations b);
}

-- A stream of messages, which ends with an error.
abbrev next : List Bytes → Result Stop Target × List Bytes
next [] = (err (status internal), [])
next (m ∷ ms) = (ok (some m), ms)

abbrev transport : Transport (List Bytes)
transport = record { recv_msg = next }

abbrev message : Bytes
message = 1 ∷ []

abbrev full_method : Bytes
full_method = codes "/ethereum.eth.v1alpha1.BeaconNodeValidator/PrepareBeaconProposer"

abbrev metadata : Map Bytes (List Bytes)
metadata = (codes "rprnauth", codes "u:p" ∷ []) ∷ []

validated : (validate_prepare_beacon_proposer services proto message alice world).0 ≡ ok tt
unfolding validate_prepare_beacon_proposer get_validator_pubkey check_all check_cache add_all
    format_uint format_fuel parse_uint parse_from Map.get Map.put list_beq for_each check_container
    validator_fee_recipient owned_by_another maps_cache get_minipool_node get_node_info
validated = refl

registered : (validate_register_validators services proto message alice world).0 ≡ ok tt
unfolding validate_register_validators Map.get list_beq for_each check_signed as_pubkey
    validator_fee_recipient owned_by_another maps_cache get_minipool_node get_node_info
registered = refl

validate_prepare_beacon_proposer-IsValidated_example :
    IsValidated services maps_laws proto alice message world
validate_prepare_beacon_proposer-IsValidated_example =
    validate_prepare_beacon_proposer-IsValidated services maps_laws proto alice message world
      validated

validate_register_validators-IsValidated_example :
    IsValidatedRegistration services maps_laws proto alice message world
validate_register_validators-IsValidated_example =
    validate_register_validators-IsValidated services maps_laws proto alice message world registered

decodes_empty : DecodesEmpty proto
decodes_empty = record { no_recipients = refl; no_registrations = refl }

first_message_unchecked_example :
    (recv_msg services proto transport prepare_beacon_proposer_cb alice
      (some [])
      (world, message ∷ [])).0
    ≡ ok (some message)
first_message_unchecked_example =
    first_message_unchecked services proto transport prepare_beacon_proposer_cb alice decodes_empty
      (world, message ∷ [])

received :
    (recv_msg services proto transport prepare_beacon_proposer_cb alice
      (some message)
      (world, message ∷ [])).0
    ≡ ok (some message)
unfolding recv_msg run_cb validate_prepare_beacon_proposer get_validator_pubkey check_all
    check_cache add_all format_uint format_fuel parse_uint parse_from Map.get Map.put list_beq
    for_each check_container validator_fee_recipient owned_by_another maps_cache get_minipool_node
    get_node_info
received = refl

abbrev after_one : World MapsCache (Map Bytes Bytes) × List Bytes
after_one =
    (recv_msg services proto transport prepare_beacon_proposer_cb alice (some message)
      (world, message ∷ [])).1

one_call :
    Receives services proto transport prepare_beacon_proposer_cb alice
      (world, message ∷ [])
      (some message ∷ some message ∷ [])
      after_one
one_call =
    receives (some message) (some message) [] (world, message ∷ []) (begins (some message)) received

Receives-AllButLast_example :
    AllButLast services proto transport prepare_beacon_proposer_cb alice
      (world, message ∷ [])
      after_one
      (some message ∷ some message ∷ [])
      one_call
Receives-AllButLast_example =
    Receives-AllButLast services proto transport prepare_beacon_proposer_cb alice
      (world, message ∷ []) after_one (some message ∷ some message ∷ []) one_call

opened :
    (payload_interceptor services proto (pos 2000000000000) (some metadata) full_method world).0
    ≡ ok (guarded prepare_beacon_proposer_cb alice)
unfolding payload_interceptor split is_service caller is_exempt node_of_header stream_for Map.get
    list_beq authenticate time_sub unix_seconds int64_of_big ◌+ℤ◌ ◌-ℤ◌
opened = refl

payload_interceptor-IsOpened_example :
    IsOpened services
      (pos 2000000000000)
      (some metadata)
      full_method
      (guarded prepare_beacon_proposer_cb alice)
payload_interceptor-IsOpened_example =
    payload_interceptor-IsOpened services (pos 2000000000000) proto (omega arith) (some metadata)
      full_method world (guarded prepare_beacon_proposer_cb alice) opened

healthy_world : maps_laws.healthy world.el.cache ≡ true
unfolding maps_laws
healthy_world = refl

check_proposer-check_container_example :
    ((check_proposer services codec
        ((b'7' ∷ [], pubkey) ∷ [])
        alice
        (record { validator_index = format_uint 7; fee_recipient = address_string pool })
        world).0
      ≡ ok tt)
    ↔ ((a : Address) × Names (address_string pool) a
        × ((check_container services proto
              ((b'7' ∷ [], pubkey) ∷ [])
              alice
              (record { validator_index = 7; fee_recipient = a.bytes })
              world).0
            ≡ ok tt))
check_proposer-check_container_example =
    check_proposer-check_container services maps_laws codec proto address_string-IsHexString
      ((b'7' ∷ [], pubkey) ∷ []) alice 7 (address_string pool) world healthy_world
