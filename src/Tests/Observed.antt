-- ===== src/Tests/Observed.antt =====
-- The consensus layer and the epoch metrics at the small deployment.
use rescue_proxy.Prelude.{
  ℕ, ◌<◌, ◌^◌, subst, Bytes, Option, some, [], ◌∷◌, ◌≡◌, ◌⊎◌, refl, arith, inl, inr, Bool-cases,
  ◌==◌, nat_eq, list_eq, eq_of_beq, All, length, sym, ap, ◌∙◌,
}
use rescue_proxy.Prelude.Tests.{list_beq}
use rescue_proxy.Prelude.Map
use rescue_proxy.Prelude.Map.{Map}
use rescue_proxy.Prelude.Decimal.{parse_uint, format_uint, parse_from, format_fuel}
use rescue_proxy.Cache.{address_eq, Pubkey}
use rescue_proxy.Consensus.{ConsensusLayer, get_validator_pubkey, check_all, check_cache, add_all}
use rescue_proxy.Consensus.Sound.{
  PubkeyCacheLaws, IsTruthful, IsWarm, Sound, get_validator_pubkey-Sound,
}
use rescue_proxy.Consensus.Complete.{In, Answers, IsRegister, get_validator_pubkey_complete}
use rescue_proxy.Metrics.Epoch.{
  Epochs, on_head, observe_validator, previous_epoch_nodes, previous_epoch_validators,
}
use rescue_proxy.Metrics.Epoch.Counting.{Observations, distinct_nodes, distinct_validators}
use rescue_proxy.Metrics.Epoch.Seen.{Since, entered, observed, previous_epoch_counts}
use rescue_proxy.Tests.Fixtures.{entries, beacon, pubkey, alice}

kept :
    (k v j u : Bytes) (b : Map Bytes Bytes)
    → Map.get j (Map.put k v b) ≡ some u
    → ((k ≡ j) × (v ≡ u)) ⊎ (Map.get j b ≡ some u)
kept k v j u b h = elim (Bool-cases (k == j)) [
  | inl same ↦ inl (eq_of_beq k j same, ground (arith, Map.get-put k j v b))
  | inr differs ↦ inr (ground (arith, Map.get-put k j v b))
]

entries_laws : PubkeyCacheLaws entries
entries_laws = record {
  contents = λ b k. Map.get k b;
  get_found = λ k v b h. h;
  get_kept = λ k j v b h. h;
  set_kept = kept;
}

-- The validator 7 has the key.
abbrev IsKeyOf : ℕ → Pubkey → Type 0
IsKeyOf n p = (n ≡ 7) × (p ≡ pubkey)

beacon-IsTruthful : IsTruthful IsKeyOf beacon
beacon-IsTruthful asked resp h =
    let e : (7, pubkey) ∷ [] ≡ resp = cc in
    subst (All (λ e. (e.0 < 2 ^ 64) × IsKeyOf e.0 e.1)) e ((omega arith, (refl, refl)), tt)

abbrev layer : ConsensusLayer (Map Bytes Bytes)
layer = record { pubkey_cache = []; m = []; slots_per_epoch = 32 }

looked_up :
    ◌≡◌ {A = Option (Map Bytes Pubkey)}
      (get_validator_pubkey entries beacon ((b'7' ∷ []) ∷ []) layer).0
      (some ((b'7' ∷ [], pubkey) ∷ []))
unfolding get_validator_pubkey check_all check_cache add_all format_uint format_fuel parse_uint
    parse_from Map.get Map.put list_beq
looked_up = refl

cold : IsWarm IsKeyOf entries_laws layer.pubkey_cache
unfolding Map.get entries_laws
cold text p h = absurd (ground arith)

get_validator_pubkey-Sound_example :
    Sound IsKeyOf entries_laws
      ((b'7' ∷ [], pubkey) ∷ [])
      (get_validator_pubkey entries beacon ((b'7' ∷ []) ∷ []) layer).1.pubkey_cache
get_validator_pubkey-Sound_example =
    get_validator_pubkey-Sound IsKeyOf entries_laws beacon beacon-IsTruthful ((b'7' ∷ []) ∷ [])
      layer ((b'7' ∷ [], pubkey) ∷ []) cold looked_up

-- Two observations of the same validator.
abbrev seen : Observations
seen = (alice, pubkey) ∷ (alice, pubkey) ∷ []

abbrev idle : Epochs
idle = record { current_idx = 0; epochs = λ i. []; registry = [] }

abbrev busy : Epochs
busy = observe_validator alice pubkey (observe_validator alice pubkey (on_head 2 idle))

during : Since (on_head 2 idle) seen busy
during =
    observed alice pubkey ((alice, pubkey) ∷ []) _
      (observed alice pubkey [] (on_head 2 idle) entered)

previous_epoch_counts_example :
    (previous_epoch_nodes (on_head 4 busy) ≡ distinct_nodes seen)
    × (previous_epoch_validators (on_head 4 busy) ≡ distinct_validators seen)
previous_epoch_counts_example =
    previous_epoch_counts 2 4 idle busy seen (omega arith) during (omega arith)

beacon-Answers : Answers IsKeyOf beacon
beacon-Answers asked resp h n p asked_for key =
    let e : (7, pubkey) ∷ [] ≡ resp = cc in
    subst (In (n, p)) e (inl (λ i. (sym key.0 i, sym key.1 i)))

register : IsRegister IsKeyOf
register = record { unique = λ n p q h h'. h.1 ∙ sym h'.1; sized = λ n p h. ap length h.1 }

asked_for : In (format_uint 7) ((b'7' ∷ []) ∷ [])
unfolding format_uint format_fuel
asked_for = inl refl

get_validator_pubkey_complete_example :
    ◌≡◌ {A = Option Pubkey} (Map.get (format_uint 7) ((b'7' ∷ [], pubkey) ∷ [])) (some pubkey)
get_validator_pubkey_complete_example =
    get_validator_pubkey_complete IsKeyOf entries_laws register 7 (omega arith) beacon
      beacon-IsTruthful beacon-Answers pubkey (refl, refl) ((b'7' ∷ []) ∷ []) layer
      ((b'7' ∷ [], pubkey) ∷ []) cold asked_for looked_up
