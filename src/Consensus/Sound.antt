-- ===== src/Consensus/Sound.antt =====
-- consensuslayer/consensus-layer.go, `GetValidatorPubkey`: the keys that it answers are those of the
-- validators that were asked for, as long as the beacon node tells the truth.
use rescue_proxy.Prelude.{
  ℕ, ◌<◌, ◌^◌, Bytes, false, Option, some, List, [], ◌∷◌, ◌≡◌, ◌⊎◌, refl, arith, Option-cases,
  Bool-cases, inl, inr, nat_eq, list_eq, All, subst, ◌==◌, eq_of_beq, length,
}
use rescue_proxy.Prelude.Map
use rescue_proxy.Prelude.Map.{Map}
use rescue_proxy.Prelude.Decimal.{parse_uint, format_uint, parse_uint-format_uint}
use rescue_proxy.Cache.{address_eq, Pubkey}
use rescue_proxy.Consensus.{
  PubkeyCache, BeaconNode, ConsensusLayer, Lookup, pubkey_bytes, check_cache, check_all, add_all,
  get_validator_pubkey, fetch_missing,
}

-- What bigcache documents: `Get` returns what the last `Set` of the key stored, if it still has it, and
-- an entry can be gone after any call.
pub record PubkeyCacheLaws {B : Type 0} (cache : PubkeyCache B) : Type 0 where
  pub contents : B → Bytes → Option Bytes
  pub get_found : (k v : Bytes) (b : B) → (cache.get k b).0 ≡ some v → contents b k ≡ some v
  pub get_kept :
      (k j v : Bytes) (b : B) → contents (cache.get k b).1 j ≡ some v → contents b j ≡ some v
  pub set_kept :
      (k v j u : Bytes) (b : B)
      → contents (cache.set k v b) j ≡ some u
      → ((k ≡ j) × (v ≡ u)) ⊎ (contents b j ≡ some u)

empty_map :
    (text : Bytes) (pubkey : Pubkey) → ◌≡◌ {A = Option Pubkey} (Map.get text []) (some pubkey) → ⊥
unfolding Map.get
empty_map text pubkey e = ground arith

module _ (IsKeyOf : ℕ → Pubkey → Type 0) where
  -- A text is the number of a validator that has the key.
  pub record IsIndexOf (text : Bytes) (pubkey : Pubkey) : Type 0 where
    pub index : ℕ
    pub canonical : text ≡ format_uint index
    pub parsed : parse_uint text ≡ (index, false)
    pub has_key : IsKeyOf index pubkey

  -- The beacon node answers with validators and their keys; an index has 64 bits.
  abbrev pub IsTruthful : BeaconNode → Type 0
  IsTruthful node =
      (asked : List ℕ) (resp : List (ℕ × Pubkey))
      → node asked ≡ some resp
      → All (λ e. (e.0 < 2 ^ 64) × IsKeyOf e.0 e.1) resp

  abbrev pub AllIndexed : Map Bytes Pubkey → Type 0
  AllIndexed out =
      (text : Bytes) (pubkey : Pubkey) → Map.get text out ≡ some pubkey → IsIndexOf text pubkey

  module _ {B : Type 0} {cache : PubkeyCache B} (l : PubkeyCacheLaws cache) where
    -- Every entry of the cache is the key of the validator that it is under.
    abbrev pub IsWarm : B → Type 0
    IsWarm b =
        (text : Bytes) (pubkey : Bytes) → l.contents b text ≡ some pubkey → IsIndexOf text pubkey

    pub record Sound (out : Map Bytes Pubkey) (b : B) : Type 0 where
      pub indexed : AllIndexed out
      pub warm : IsWarm b

    put-AllIndexed :
        (text : Bytes) (pubkey : Pubkey) (out : Map Bytes Pubkey)
        → IsIndexOf text pubkey
        → AllIndexed out
        → AllIndexed (Map.put text pubkey out)
    put-AllIndexed text pubkey out new old other p h = elim (Bool-cases (text == other)) [
      | inl same ↦
          let e : text ≡ other = eq_of_beq text other same in
          let q : pubkey ≡ p = ground (arith, Map.get-put text other pubkey out) in
          subst (λ t. IsIndexOf t p) e (subst (λ k. IsIndexOf text k) q new)
      | inr differs ↦ old other p (ground (arith, Map.get-put text other pubkey out))
    ]

    check_cache-Sound :
        (index : Bytes) (acc : Lookup) (cl : ConsensusLayer B)
        → Sound acc.out cl.pubkey_cache
        → Sound
            (check_cache cache index acc cl).0.out
            (check_cache cache index acc cl).1.pubkey_cache
    unfolding check_cache
    check_cache-Sound index acc cl s =
        let warm : IsWarm (cache.get index cl.pubkey_cache).1 =
          λ text p h. s.warm text p (l.get_kept index text p cl.pubkey_cache h) in
        elim (Option-cases (cache.get index cl.pubkey_cache).0) [
          | inl missed ↦ rw missed (record { indexed = s.indexed; warm = warm })
          | inr (p, found) ↦ elim (Bool-cases (length p == pubkey_bytes)) [
            | inr short ↦ rw (found, short) (record { indexed = s.indexed; warm = warm })
            | inl right ↦
                rw (found, right)
                  (record {
                    indexed =
                        put-AllIndexed index p acc.out
                          (s.warm index p (l.get_found index p cl.pubkey_cache found)) s.indexed;
                    warm = warm;
                  })
          ]
        ]

    check_all-Sound :
        (indices : List Bytes) (acc : Lookup) (cl : ConsensusLayer B)
        → Sound acc.out cl.pubkey_cache
        → Sound
            (check_all cache indices acc cl).0.out
            (check_all cache indices acc cl).1.pubkey_cache
    unfolding check_all
    check_all-Sound [] acc cl s = s
    check_all-Sound (index ∷ rest) acc cl s =
        check_all-Sound rest (check_cache cache index acc cl).0 (check_cache cache index acc cl).1
          (check_cache-Sound index acc cl s)

    set-IsWarm :
        (text : Bytes) (pubkey : Pubkey) (b : B)
        → IsIndexOf text pubkey
        → IsWarm b
        → IsWarm (cache.set text pubkey b)
    set-IsWarm text pubkey b new old other p h = elim (l.set_kept text pubkey other p b h) [
      | inl (e, q) ↦ subst (λ t. IsIndexOf t p) e (subst (λ k. IsIndexOf text k) q new)
      | inr before ↦ old other p before
    ]

    add_all-Sound :
        (resp : List (ℕ × Pubkey)) (out : Map Bytes Pubkey) (cl : ConsensusLayer B)
        → All (λ e. (e.0 < 2 ^ 64) × IsKeyOf e.0 e.1) resp
        → Sound out cl.pubkey_cache
        → Sound (add_all cache resp out cl).0 (add_all cache resp out cl).1.pubkey_cache
    unfolding add_all
    add_all-Sound [] out cl truth s = s
    add_all-Sound ((index, pubkey) ∷ rest) out cl (here, later) s =
        let new : IsIndexOf (format_uint index) pubkey = record {
          index = index;
          canonical = refl;
          parsed = parse_uint-format_uint index here.0;
          has_key = here.1;
        } in
        add_all-Sound rest _ _ later (record {
          indexed = put-AllIndexed (format_uint index) pubkey out new s.indexed;
          warm = set-IsWarm (format_uint index) pubkey cl.pubkey_cache new s.warm;
        })

    fetch_missing-Sound :
        (node : BeaconNode)
        → IsTruthful node
        → (missing : List ℕ) (out' out : Map Bytes Pubkey) (cl : ConsensusLayer B)
        → Sound out' cl.pubkey_cache
        → (fetch_missing cache node missing out' cl).0 ≡ some out
        → Sound out (fetch_missing cache node missing out' cl).1.pubkey_cache
    fetch_missing-Sound node truth [] out' out cl s h =
        subst (λ o. Sound o cl.pubkey_cache) (ground arith) s
    fetch_missing-Sound node truth (i ∷ more) out' out cl s h =
        elim (Option-cases (node (i ∷ more))) [
          | inl failed ↦ absurd (ground arith)
          | inr (resp, answered) ↦
              let out_eq : (add_all cache resp out' cl).0 ≡ out = ground arith in
              rw answered (
                subst (λ o. Sound o (add_all cache resp out' cl).1.pubkey_cache) out_eq
                  (add_all-Sound resp out' cl (truth (i ∷ more) resp answered) s))
        ]

    -- With a beacon node that tells the truth, and a cache whose entries are true: whatever indices are
    -- asked for, each entry of the answer is under the decimal text of a validator, without sign or
    -- leading zeros, with that validator's key; and the cache's entries are true afterwards.
    pub get_validator_pubkey-Sound :
        (node : BeaconNode)
        → IsTruthful node
        → (indices : List Bytes) (cl : ConsensusLayer B) (out : Map Bytes Pubkey)
        → IsWarm cl.pubkey_cache
        → (get_validator_pubkey cache node indices cl).0 ≡ some out
        → Sound out (get_validator_pubkey cache node indices cl).1.pubkey_cache
    unfolding get_validator_pubkey
    get_validator_pubkey-Sound node truth indices cl out warm h =
        let start : Lookup = record { out = []; missing = [] } in
        let first =
          check_all-Sound indices start cl
            (record { indexed = λ text p e. absurd (empty_map text p e); warm = warm }) in
        fetch_missing-Sound node truth (check_all cache indices start cl).0.missing _ out
          (check_all cache indices start cl).1 first h
