-- ===== src/Consensus.antt =====
-- consensuslayer/: from validator indices to public keys, through a cache. The bigcache library and
-- the beacon node's client are parameters.
pub mod Sound
pub mod Complete
pub mod Connect
use rescue_proxy.Prelude.{
  ℕ, Bytes, Option, none, some, List, [], ◌∷◌, ◌++◌, String, length, ◌==◌, nat_eq, list_eq,
  if◌then◌else◌,
}
use rescue_proxy.Prelude.Map
use rescue_proxy.Prelude.Map.{Map}
use rescue_proxy.Prelude.Decimal.{parse_uint, format_uint}
use rescue_proxy.Cache.{address_eq, Pubkey}

-- bigcache: `Get` returns none for its error. An entry can be dropped at any call.
pub record PubkeyCache (B : Type 0) : Type 0 where
  pub get : Bytes → B → Option Bytes × B
  pub set : Bytes → Bytes → B → B

-- `(*http.Service).Validators` at "head": the validators that it knows among the given indices, in the
-- order in which the loop over its map meets them, or none on an error.
abbrev pub BeaconNode : Type 0
BeaconNode = List ℕ → Option (List (ℕ × Pubkey))

pub record ConsensusLayer (B : Type 0) : Type 0 where
  pub pubkey_cache : B
  pub m : List String
  pub slots_per_epoch : ℕ

abbrev pub pubkey_bytes : ℕ
pubkey_bytes = 48

-- The loop's variables.
pub record Lookup : Type 0 where
  pub out : Map Bytes Pubkey
  pub missing : List ℕ

module _ {B : Type 0} (cache : PubkeyCache B) where
  abbrev pub hit : Bytes → Bytes → Lookup → ConsensusLayer B → Lookup × ConsensusLayer B
  hit index pubkey acc cl =
      if length pubkey == pubkey_bytes
      then (record acc { out = Map.put index pubkey acc.out }, record cl { m = "cache_hit" ∷ cl.m })
      else (acc, cl)

  -- An index that is no number is looked up too, as the value beside `ParseUint`'s error.
  abbrev pub miss : Bytes → Lookup → ConsensusLayer B → Lookup × ConsensusLayer B
  miss index acc cl = (
    record acc { missing = acc.missing ++ (parse_uint index).0 ∷ [] },
    record cl { m = "cache_miss" ∷ cl.m },
  )

  abbrev pub hit_or_miss :
      Bytes → Option Bytes → Lookup → ConsensusLayer B → Lookup × ConsensusLayer B
  hit_or_miss index none acc cl = miss index acc cl
  hit_or_miss index (some pubkey) acc cl = hit index pubkey acc cl

  -- One round of the first loop.
  unfoldable pub check_cache : Bytes → Lookup → ConsensusLayer B → Lookup × ConsensusLayer B
  check_cache index acc cl =
      let (found, after) = cache.get index cl.pubkey_cache in
      hit_or_miss index found acc (record cl { pubkey_cache = after })

  unfoldable pub check_all : List Bytes → Lookup → ConsensusLayer B → Lookup × ConsensusLayer B
  check_all [] acc cl = (acc, cl)
  check_all (index ∷ rest) acc cl =
      let (acc', cl') = check_cache index acc cl in check_all rest acc' cl'

  -- The loop over the beacon node's answer.
  unfoldable pub add_all :
      List (ℕ × Pubkey) → Map Bytes Pubkey → ConsensusLayer B → Map Bytes Pubkey × ConsensusLayer B
  add_all [] out cl = (out, cl)
  add_all ((index, pubkey) ∷ rest) out cl =
      add_all rest (Map.put (format_uint index) pubkey out) (record cl {
        pubkey_cache = cache.set (format_uint index) pubkey cl.pubkey_cache;
        m = "cache_add" ∷ cl.m;
      })

  abbrev pub fetched :
      Option (List (ℕ × Pubkey))
      → Map Bytes Pubkey
      → ConsensusLayer B
      → Option (Map Bytes Pubkey) × ConsensusLayer B
  fetched none out cl = (none, cl)
  fetched (some resp) out cl = let (out', cl') = add_all resp out cl in (some out', cl')

  abbrev pub fetch_missing :
      BeaconNode
      → List ℕ
      → Map Bytes Pubkey
      → ConsensusLayer B
      → Option (Map Bytes Pubkey) × ConsensusLayer B
  fetch_missing node [] out cl = (some out, record cl { m = "all_keys_cache_hit" ∷ cl.m })
  fetch_missing node (i ∷ more) out cl = fetched (node (i ∷ more)) out cl

  -- none is the error of the beacon node's client.
  unfoldable pub get_validator_pubkey :
      BeaconNode → List Bytes → ConsensusLayer B → Option (Map Bytes Pubkey) × ConsensusLayer B
  get_validator_pubkey node validator_indices cl =
      let (acc, cl') = check_all validator_indices (record { out = []; missing = [] }) cl in
      fetch_missing node acc.missing acc.out cl'
