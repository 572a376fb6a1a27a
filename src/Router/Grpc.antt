-- ===== src/Router/Grpc.antt =====
-- router/grpc.go: the guard of the gRPC proxy. Protocol buffers are a parameter: `unmarshal_*` decode the
-- fields that a message does not know, none on an error.
pub mod Validated
pub mod Interceptor
pub mod Stream
pub mod Opened
pub mod Serving
use rescue_proxy.Prelude.{
  ℕ, zero, suc, Bytes, codes, Bool, true, false, Option, none, some, List, [], ◌∷◌, String, map,
  length, ◌==◌, ◌&&◌, ◌||◌, not, ltb, nat_eq, list_eq, if◌then◌else◌, get_elem?,
}
use rescue_proxy.Prelude.Map
use rescue_proxy.Prelude.Map.{Map}
use rescue_proxy.Prelude.Int.{ℤ}
use rescue_proxy.Prelude.Decimal.{format_uint}
use rescue_proxy.Prelude.Exec.{Exec, Result, ok, err, pure, raise, ◌>>=◌, ◌>>◌}
use rescue_proxy.Cache.{address_eq, Address, Pubkey}
use rescue_proxy.Execution.{Panic, index_out_of_range}
use rescue_proxy.Execution.Recipient.{validator_fee_recipient}
use rescue_proxy.Consensus.{get_validator_pubkey}
use rescue_proxy.Router.Auth.{
  GrpcCode, unimplemented, unauthenticated, permission_denied, internal, authenticate,
  AuthenticationError, Credential,
}
use rescue_proxy.Router.World.{World, Services, count, observe, on_el, on_cl, or_stop, for_each}

-- prysm's PrepareBeaconProposerRequest_FeeRecipientContainer; the index has 64 bits.
pub record FeeRecipientContainer : Type 0 where
  pub validator_index : ℕ
  pub fee_recipient : Bytes

-- prysm's ValidatorRegistrationV1; a SignedValidatorRegistrationV1 is one that can be missing.
pub record ValidatorRegistration : Type 0 where
  pub pubkey : Bytes
  pub fee_recipient : Bytes

pub record Protobuf : Type 0 where
  pub unmarshal_recipients : Bytes → Option (List FeeRecipientContainer)
  pub unmarshal_registrations : Bytes → Option (List (Option ValidatorRegistration))

-- A status that a handler returns, or a panic.
pub data Stop : Type 0 where
  status : GrpcCode → Stop
  panicked : Panic → Stop
  nil_dereference : Stop
  short_slice : Stop

abbrev pub first_bytes : ℕ → Bytes → Bytes
first_bytes zero bs = []
first_bytes (suc n) [] = []
first_bytes (suc n) (b ∷ bs) = b ∷ first_bytes n bs

-- (*rptypes.ValidatorPubkey)(slice), which panics on a slice that is too short.
unfoldable pub as_pubkey : Bytes → Option Pubkey
as_pubkey slice = if ltb (length slice) 48 then none else some (first_bytes 48 slice)

module _ {S B : Type 0} (x : Services S B) (proto : Protobuf) where
  abbrev pub G : Type 0 → Type 0
  G T = Exec (World S B) Stop T

  -- The body of the loop in validatePrepareBeaconProposer.
  unfoldable pub check_container : Map Bytes Pubkey → Address → FeeRecipientContainer → G (Unit {0})
  check_container pubkey_map node_addr proposer =
      elim (Map.get (format_uint proposer.validator_index) pubkey_map) [
        | none ↦ raise (status permission_denied)
        | some pubkey ↦ do
          (expected, unowned) ←
              on_el panicked (validator_fee_recipient x.cache x.contracts pubkey (some node_addr))
          elim expected [
            | none ↦ do count "prepare_beacon_proposer_unowned"; raise (status permission_denied)
            | some address ↦
                if address.bytes == proposer.fee_recipient
                then (do observe node_addr pubkey; count "prepare_beacon_correct_fee_recipient")
                else (do
                  count "prepare_beacon_incorrect_fee_recipient"
                  raise (status permission_denied))
          ]
      ]

  unfoldable pub validate_prepare_beacon_proposer : Bytes → Address → G (Unit {0})
  validate_prepare_beacon_proposer unknown node_addr = do
    count "prepare_beacon_proposer"
    recipients ← or_stop (status internal) (proto.unmarshal_recipients unknown)
    let indices = map (λ (p : FeeRecipientContainer). format_uint p.validator_index) recipients
    answer ← on_cl (get_validator_pubkey x.pubkeys x.node indices)
    pubkey_map ← or_stop (status internal) answer
    for_each (check_container pubkey_map node_addr) recipients

  -- The body of the loop in validateRegisterValidators.
  unfoldable pub check_signed : Address → Option ValidatorRegistration → G (Unit {0})
  check_signed node_addr registration = do
    message ← or_stop nil_dereference registration
    pubkey ← or_stop short_slice (as_pubkey message.pubkey)
    (expected, unowned) ←
        on_el panicked (validator_fee_recipient x.cache x.contracts pubkey (some node_addr))
    elim expected [
      | none ↦
          if not unowned
          then (do count "register_validator_not_minipool"; observe node_addr pubkey)
          else raise (status permission_denied)
      | some address ↦
          if address.bytes == message.fee_recipient
          then (do observe node_addr pubkey; count "register_validator_correct_fee_recipient")
          else (do
            count "register_validator_incorrect_fee_recipient"
            raise (status permission_denied))
    ]

  unfoldable pub validate_register_validators : Bytes → Address → G (Unit {0})
  validate_register_validators unknown node_addr = do
    count "register_validator"
    messages ← or_stop (status internal) (proto.unmarshal_registrations unknown)
    for_each (check_signed node_addr) messages
