-- ===== src/Router/Http.antt =====
-- router/router.go: the guarded endpoints of the HTTP proxy and its authentication. A handler's `ok` is
-- the request that it hands to the reverse proxy. JSON decoding is a parameter, none on an error, and so
-- is the parsing of a public key.
pub mod Verdict
pub mod Guarded
pub mod Endpoints
pub mod Answers
pub mod Serve
use rescue_proxy.Prelude.{
  ℕ, Bytes, Bool, true, false, Option, none, some, List, [], ◌∷◌, String, map, ◌==◌, nat_eq,
  list_eq, if◌then◌else◌,
}
use rescue_proxy.Prelude.Map
use rescue_proxy.Prelude.Map.{Map}
use rescue_proxy.Prelude.Hex.{equal_fold}
use rescue_proxy.Prelude.Exec.{Exec, Result, ok, err, pure, raise, ◌>>=◌, ◌>>◌}
use rescue_proxy.Cache.{address_eq, Address, Pubkey}
use rescue_proxy.Execution.{Panic}
use rescue_proxy.Execution.Recipient.{validator_fee_recipient}
use rescue_proxy.Consensus.{get_validator_pubkey}
use rescue_proxy.Router.Auth.{
  HttpStatus, bad_request_400, unauthorized_401, forbidden_403, conflict_409, internal_500,
  authenticate,
}
use rescue_proxy.Router.World.{World, Services, count, observe, on_el, on_cl, or_stop, for_each}

-- consensuslayer/types.go
pub record Proposer : Type 0 where
  pub validator_index : Bytes
  pub fee_recipient : Bytes

pub record RegisterValidatorMessage : Type 0 where
  pub fee_recipient : Bytes
  pub pubkey : Bytes

pub record Codec : Type 0 where
  pub decode_proposers : Bytes → Option (List Proposer)
  pub decode_validators : Bytes → Option (List RegisterValidatorMessage)
  pub hex_to_validator_pubkey : Bytes → Option Pubkey

-- A request's body, which a read uses up; a read can fail.
pub data Body : Type 0 where
  content : Bytes → Body
  broken : Body

-- `node` is what `authenticationMiddleware` puts into the context.
pub record Request : Type 0 where
  pub request_uri : Bytes
  pub basic_auth : Option (Bytes × Bytes)
  pub body : Body
  pub node : Option Bytes

-- A status that a handler writes before it returns, or a panic.
pub data Stop : Type 0 where
  reply : HttpStatus → Stop
  panicked : Panic → Stop

-- io.ReadAll
abbrev pub read_all : Body → Option Bytes × Body
read_all (content b) = (some b, content [])
read_all broken = (none, broken)

abbrev pub both_copies : Option Bytes → Request → Option (Bytes × Request)
both_copies none r = none
both_copies (some buf) r = some (buf, record r { body = content buf })

-- The bytes of the body, and the request with its body restored.
unfoldable pub clone_request_body : Request → Option (Bytes × Request)
clone_request_body r =
    let (buf, rest) = read_all r.body in both_copies buf (record r { body = rest })

-- strings.TrimPrefix(s, "0x")
unfoldable pub trim_0x : Bytes → Bytes
trim_0x [] = []
trim_0x (a ∷ []) = a ∷ []
trim_0x (a ∷ b ∷ s) = if a == b'0' then (if b == b'x' then s else a ∷ b ∷ s) else a ∷ b ∷ s

module _ {S B : Type 0} (x : Services S B) (codec : Codec) where
  abbrev pub H : Type 0 → Type 0
  H A = Exec (World S B) Stop A

  -- The body of the loop in prepareBeaconProposer.
  unfoldable pub check_proposer : Map Bytes Pubkey → Address → Proposer → H (Unit {0})
  check_proposer pubkey_map authed_node_addr proposer =
      elim (Map.get proposer.validator_index pubkey_map) [
        | none ↦ raise (reply bad_request_400)
        | some pubkey ↦ do
          (expected, unowned) ←
              on_el panicked
                (validator_fee_recipient x.cache x.contracts pubkey (some authed_node_addr))
          elim expected [
            | none ↦ do count "prepare_beacon_proposer_unowned"; raise (reply forbidden_403)
            | some address ↦
                if equal_fold (x.address_string address) proposer.fee_recipient
                then (do
                  count "prepare_beacon_correct_fee_recipient"
                  observe authed_node_addr pubkey)
                else (do count "prepare_beacon_incorrect_fee_recipient"; raise (reply conflict_409))
          ]
      ]

  unfoldable pub prepare_beacon_proposer : Request → H Request
  prepare_beacon_proposer r = do
    count "prepare_beacon_proposer"
    (buf, r') ← or_stop (reply internal_500) (clone_request_body r)
    proposers ← or_stop (reply bad_request_400) (codec.decode_proposers buf)
    let indices = map (λ (p : Proposer). p.validator_index) proposers
    answer ← on_cl (get_validator_pubkey x.pubkeys x.node indices)
    pubkey_map ← or_stop (reply internal_500) answer
    authed_node ← or_stop (reply internal_500) r'.node
    for_each (check_proposer pubkey_map (x.bytes_to_address authed_node)) proposers
    pure r'

  -- The body of the loop in registerValidator.
  unfoldable pub check_registration : Address → RegisterValidatorMessage → H (Unit {0})
  check_registration authed_node_addr message = do
    pubkey ← or_stop (reply internal_500) (codec.hex_to_validator_pubkey (trim_0x message.pubkey))
    (expected, unowned) ←
        on_el panicked (validator_fee_recipient x.cache x.contracts pubkey (some authed_node_addr))
    elim expected [
      | none ↦
          if unowned
          then raise (reply forbidden_403)
          else (do count "register_validator_not_minipool"; observe authed_node_addr pubkey)
      | some address ↦
          if equal_fold (x.address_string address) message.fee_recipient
          then (do
            count "register_validator_correct_fee_recipient"
            observe authed_node_addr pubkey)
          else (do count "register_validator_incorrect_fee_recipient"; raise (reply conflict_409))
    ]

  unfoldable pub register_validator : Request → H Request
  register_validator r = do
    count "register_validator"
    (buf, r') ← or_stop (reply internal_500) (clone_request_body r)
    validators ← or_stop (reply bad_request_400) (codec.decode_validators buf)
    authed_node ← or_stop (reply internal_500) r'.node
    for_each (check_registration (x.bytes_to_address authed_node)) validators
    pure r'
