-- ===== src/Tests/Fixtures.antt =====
-- A small deployment: one node in the smoothing pool with one minipool, in a cache in memory.
use rescue_proxy.Prelude.{
  ℕ, Bytes, true, false, none, some, [], ◌∷◌, ◌≡◌, refl, arith, map, replicate, nat_eq, list_eq, ap,
}
use rescue_proxy.Prelude.Map
use rescue_proxy.Prelude.Hex.{hex, hex_digit, to_lower}
use rescue_proxy.Prelude.Int.{pos}
use rescue_proxy.Prelude.Exec.{ok}
use rescue_proxy.Tests.Padding.{to_address}
use rescue_proxy.Cache.{of_bytes, address_eq, Address, Pubkey}
use rescue_proxy.Cache.Maps.{MapsCache, maps_cache}
use rescue_proxy.Execution.{El, Contracts, Chain}
use rescue_proxy.Consensus.{PubkeyCache, BeaconNode}
use rescue_proxy.Router.Auth.{Config, Credential}
use rescue_proxy.Router.World.{World, Services}
use rescue_proxy.Router.Entitled.{IsHexString}
use rescue_proxy.Router.Http.{Request, content, Codec}
use rescue_proxy.Router.Http.Serve.{prepare_path}

abbrev pub alice : Address
alice = of_bytes (replicate 20 0x11) tt

abbrev pub pool : Address
pool = of_bytes (replicate 20 0xab) tt

abbrev pub distributor : Address
distributor = of_bytes (replicate 20 0xcd) tt

abbrev pub pubkey : Pubkey
pubkey = replicate 48 0x77

abbrev pub contracts : Contracts
contracts = record {
  node_manager = of_bytes (replicate 20 1) tt;
  minipool_manager = of_bytes (replicate 20 2) tt;
  smoothing_pool = pool;
  node_registered = 11 ∷ [];
  smoothing_pool_status_changed = 12 ∷ [];
  minipool_launched = 13 ∷ [];
}

abbrev pub chain : Chain
chain = record {
  bytes_to_address = to_address;
  distributor_address = λ a. (distributor, false);
  minipool_pubkey = λ a. some pubkey;
}

abbrev pub warm : MapsCache
warm = record {
  minipool_index = (pubkey, alice) ∷ [];
  node_index = (alice, record { in_smoothing_pool = true; fee_distributor = distributor }) ∷ [];
  highest_block = pos 100;
}

abbrev pub el : El MapsCache
el = record { cache = warm; m = [] }

-- bigcache, as one that never drops an entry.
abbrev pub entries : PubkeyCache (Map.Map Bytes Bytes)
entries = record { get = λ k m. (Map.get k m, m); set = Map.put }

-- The beacon node knows the validator 7.
abbrev pub beacon : BeaconNode
beacon indices = some ((7, pubkey) ∷ [])

abbrev pub address_string : Address → Bytes
address_string a = b'0' ∷ b'x' ∷ hex a.bytes

to_lower-hex_digit : (n : ℕ) → to_lower (hex_digit n) ≡ hex_digit n
unfolding to_lower hex_digit
to_lower-hex_digit n = ground arith

to_lower-hex : (bs : Bytes) → map to_lower (hex bs) ≡ hex bs
unfolding hex
to_lower-hex [] = refl
to_lower-hex (b ∷ bs) = simp (to_lower-hex_digit, to_lower-hex bs)

pub address_string-IsHexString : IsHexString address_string
unfolding to_lower
address_string-IsHexString = record {
  names = λ a. ap (λ t. b'0' ∷ b'x' ∷ t) (to_lower-hex a.bytes);
}

-- The timestamp is 1000 seconds, and the window an hour.
abbrev pub credential : Credential
credential = record { node_id = alice.bytes; timestamp = pos 1000; mac = [] }

abbrev pub auth : Config
auth = record {
  manager = record { base64_url_decode = λ u p. ok credential; verify = λ c. ok tt };
  validity_window = pos 3600000000000;
}

abbrev pub services : Services MapsCache (Map.Map Bytes Bytes)
services = record {
  cache = maps_cache;
  contracts = contracts;
  pubkeys = entries;
  node = beacon;
  auth = auth;
  bytes_to_address = to_address;
  address_string = address_string;
}

abbrev pub world : World MapsCache (Map.Map Bytes Bytes)
world = record {
  el = el;
  cl = record { pubkey_cache = []; m = []; slots_per_epoch = 32 };
  epochs = record { current_idx = 0; epochs = λ i. []; registry = [] };
  m = [];
  auth = [];
}

abbrev pub codec : Codec
codec = record {
  decode_proposers =
      λ b. some (record { validator_index = b'7' ∷ []; fee_recipient = address_string pool } ∷ []);
  decode_validators = λ b. some (record { fee_recipient = address_string pool; pubkey = [] } ∷ []);
  hex_to_validator_pubkey = λ s. some pubkey;
}

-- A request before and behind the authentication.
abbrev pub request : Request
request = record {
  request_uri = prepare_path;
  basic_auth = some (b'u' ∷ [], b'p' ∷ []);
  body = content (b'[' ∷ []);
  node = none;
}

abbrev pub authed_request : Request
authed_request = record request { node = some alice.bytes }
