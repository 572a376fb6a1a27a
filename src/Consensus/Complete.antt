-- ===== src/Consensus/Complete.antt =====
-- consensuslayer/consensus-layer.go, `GetValidatorPubkey`: every validator that is asked for and that the
-- beacon node knows is in the answer.
use rescue_proxy.Prelude.{
  ℕ, ◌<◌, ◌^◌, Bytes, true, some, List, [], ◌∷◌, ◌++◌, ◌≡◌, ◌⊎◌, refl, arith, Option-cases,
  Bool-cases, inl, inr, nat_eq, list_eq, ◌∙◌, sym, ap, subst, ◌==◌, length,
}
use rescue_proxy.Prelude.Map
use rescue_proxy.Prelude.Map.{Map}
use rescue_proxy.Prelude.Decimal.{parse_uint, format_uint, parse_uint-format_uint}
use rescue_proxy.Cache.{address_eq, Pubkey}
use rescue_proxy.Consensus.{
  PubkeyCache, BeaconNode, ConsensusLayer, Lookup, pubkey_bytes, check_cache, check_all, add_all,
  get_validator_pubkey, fetch_missing,
}
use rescue_proxy.Consensus.Sound.{PubkeyCacheLaws, IsTruthful, IsWarm, get_validator_pubkey-Sound}

abbrev pub In : {A : Type 0} → A → List A → Type 0
In a [] = ⊥
In a (b ∷ bs) = (b ≡ a) ⊎ In a bs

In-append : (n m : ℕ) (ns : List ℕ) → In n ns → In n (ns ++ m ∷ [])
In-append n m [] i = absurd i
In-append n m (x ∷ ns) (inl e) = inl e
In-append n m (x ∷ ns) (inr i) = inr (In-append n m ns i)

In-last : (n : ℕ) (ns : List ℕ) → In n (ns ++ n ∷ [])
In-last n [] = inl refl
In-last n (x ∷ ns) = inr (In-last n ns)

-- The map has an entry under the text.
abbrev Has : Bytes → Map Bytes Pubkey → Type 0
Has text out = (p : Pubkey) × (Map.get text out ≡ some p)

put-Has :
    (text key : Bytes) (p : Pubkey) (out : Map Bytes Pubkey)
    → Has text out
    → Has text (Map.put key p out)
put-Has text key p out (q, h) = elim (Bool-cases (key == text)) [
  | inl same ↦ (p, ground (arith, Map.get-put key text p out))
  | inr differs ↦ (q, ground (arith, Map.get-put key text p out))
]

module _ (IsKeyOf : ℕ → Pubkey → Type 0) where
  -- The beacon node's answer holds every validator that was asked for and that has a key.
  abbrev pub Answers : BeaconNode → Type 0
  Answers node =
      (asked : List ℕ) (resp : List (ℕ × Pubkey))
      → node asked ≡ some resp
      → (n : ℕ) (p : Pubkey) → In n asked
      → IsKeyOf n p
      → In (n, p) resp

  -- A validator has one key, of 48 bytes.
  pub record IsRegister : Type 0 where
    pub unique : (n : ℕ) (p q : Pubkey) → IsKeyOf n p → IsKeyOf n q → p ≡ q
    pub sized : (n : ℕ) (p : Pubkey) → IsKeyOf n p → length p ≡ 48

  module _ {B : Type 0} {cache : PubkeyCache B} (l : PubkeyCacheLaws cache) (register : IsRegister)
      (n : ℕ) (fits : n < 2 ^ 64) where
    -- The validator's text is answered already, or is to be asked for.
    abbrev Pending : Lookup → Type 0
    Pending acc = Has (format_uint n) acc.out ⊎ In n acc.missing

    stays-Pending :
        (index : Bytes) (acc : Lookup) (cl : ConsensusLayer B)
        → Pending acc
        → Pending (check_cache cache index acc cl).0
    unfolding check_cache
    stays-Pending index acc cl pending = elim (Option-cases (cache.get index cl.pubkey_cache).0) [
      | inl missed ↦ rw missed (elim pending [
        | inl has ↦ inl has
        | inr asked ↦ inr (In-append n (parse_uint index).0 acc.missing asked)
      ])
      | inr (p, found) ↦ elim (Bool-cases (length p == pubkey_bytes)) [
        | inr short ↦ rw (found, short) pending
        | inl right ↦
            rw (found, right)
              (elim pending [
                | inl has ↦ inl (put-Has (format_uint n) index p acc.out has)
                | inr asked ↦ inr asked
              ])
      ]
    ]

    becomes-Pending :
        (acc : Lookup) (cl : ConsensusLayer B)
        → IsWarm IsKeyOf l cl.pubkey_cache
        → Pending (check_cache cache (format_uint n) acc cl).0
    unfolding check_cache
    becomes-Pending acc cl warm =
        let text = format_uint n in
        elim (Option-cases (cache.get text cl.pubkey_cache).0) [
          | inl missed ↦ rw (missed, parse_uint-format_uint n fits) (inr (In-last n acc.missing))
          | inr (p, found) ↦
              let entry = warm text p (l.get_found text p cl.pubkey_cache found) in
              let right : (length p == pubkey_bytes) ≡ true =
                ground (arith, register.sized entry.index p entry.has_key) in
              rw (found, right) (inl (p, Map.get-put_self text p acc.out))
        ]

    warm_after :
        (index : Bytes) (acc : Lookup) (cl : ConsensusLayer B)
        → IsWarm IsKeyOf l cl.pubkey_cache
        → IsWarm IsKeyOf l (check_cache cache index acc cl).1.pubkey_cache
    unfolding check_cache
    warm_after index acc cl warm =
        let after : IsWarm IsKeyOf l (cache.get index cl.pubkey_cache).1 =
          λ text p h. warm text p (l.get_kept index text p cl.pubkey_cache h) in
        elim (Option-cases (cache.get index cl.pubkey_cache).0) [
          | inl missed ↦ rw missed after
          | inr (p, found) ↦ elim (Bool-cases (length p == pubkey_bytes)) [
            | inr short ↦ rw (found, short) after
            | inl right ↦ rw (found, right) after
          ]
        ]

    check_all_stays :
        (indices : List Bytes) (acc : Lookup) (cl : ConsensusLayer B)
        → Pending acc
        → Pending (check_all cache indices acc cl).0
    unfolding check_all
    check_all_stays [] acc cl pending = pending
    check_all_stays (index ∷ rest) acc cl pending =
        check_all_stays rest (check_cache cache index acc cl).0 (check_cache cache index acc cl).1
          (stays-Pending index acc cl pending)

    check_all-Pending :
        (indices : List Bytes) (acc : Lookup) (cl : ConsensusLayer B)
        → IsWarm IsKeyOf l cl.pubkey_cache
        → In (format_uint n) indices
        → Pending (check_all cache indices acc cl).0
    unfolding check_all
    check_all-Pending [] acc cl warm i = absurd i
    check_all-Pending (index ∷ rest) acc cl warm (inl e) =
        check_all_stays rest (check_cache cache index acc cl).0 (check_cache cache index acc cl).1 (
          subst (λ t. Pending (check_cache cache t acc cl).0) (sym e) (becomes-Pending acc cl warm))
    check_all-Pending (index ∷ rest) acc cl warm (inr i) =
        check_all-Pending rest (check_cache cache index acc cl).0 (check_cache cache index acc cl).1
          (warm_after index acc cl warm) i

    add_all_keeps :
        (resp : List (ℕ × Pubkey)) (out : Map Bytes Pubkey) (cl : ConsensusLayer B)
        → Has (format_uint n) out
        → Has (format_uint n) (add_all cache resp out cl).0
    unfolding add_all
    add_all_keeps [] out cl has = has
    add_all_keeps ((m, q) ∷ rest) out cl has =
        add_all_keeps rest _ _ (put-Has (format_uint n) (format_uint m) q out has)

    add_all-Has :
        (p : Pubkey) (resp : List (ℕ × Pubkey)) (out : Map Bytes Pubkey) (cl : ConsensusLayer B)
        → In (n, p) resp
        → Has (format_uint n) (add_all cache resp out cl).0
    unfolding add_all
    add_all-Has p [] out cl i = absurd i
    add_all-Has p ((m, q) ∷ rest) out cl (inl e) =
        let here : Has (format_uint n) (Map.put (format_uint m) q out) =
          subst (λ (u : ℕ × Pubkey). Has (format_uint n) (Map.put (format_uint u.0) u.1 out))
            (sym e) (p, Map.get-put_self (format_uint n) p out) in
        add_all_keeps rest _ _ here
    add_all-Has p ((m, q) ∷ rest) out cl (inr i) = add_all-Has p rest _ _ i

    fetch_missing-Has :
        (node : BeaconNode)
        → Answers node
        → (p : Pubkey) → IsKeyOf n p
        → (missing : List ℕ) (out' out : Map Bytes Pubkey) (cl : ConsensusLayer B)
        → Has (format_uint n) out' ⊎ In n missing
        → (fetch_missing cache node missing out' cl).0 ≡ some out
        → Has (format_uint n) out
    fetch_missing-Has node answers p key [] out' out cl (inl has) h =
        subst (Has (format_uint n)) (ground arith) has
    fetch_missing-Has node answers p key [] out' out cl (inr i) h = absurd i
    fetch_missing-Has node answers p key (i ∷ more) out' out cl pending h =
        elim (Option-cases (node (i ∷ more))) [
          | inl failed ↦ absurd (ground arith)
          | inr (resp, answered) ↦
              let e : (add_all cache resp out' cl).0 ≡ out = ground arith in
              subst (Has (format_uint n)) e (elim pending [
                | inl has ↦ add_all_keeps resp out' cl has
                | inr asked ↦
                    add_all-Has p resp out' cl (answers (i ∷ more) resp answered n p asked key)
              ])
        ]

    -- With a beacon node that answers all that it is asked and tells the truth, a cache whose entries
    -- are true, and one key of 48 bytes to a validator: if the decimal text of a validator's 64-bit
    -- index is among the texts that are asked for, the answer holds the validator's key under it.
    pub get_validator_pubkey_complete :
        (node : BeaconNode)
        → IsTruthful IsKeyOf node
        → Answers node
        → (p : Pubkey) → IsKeyOf n p
        → (indices : List Bytes) (cl : ConsensusLayer B) (out : Map Bytes Pubkey)
        → IsWarm IsKeyOf l cl.pubkey_cache
        → In (format_uint n) indices
        → (get_validator_pubkey cache node indices cl).0 ≡ some out
        → Map.get (format_uint n) out ≡ some p
    unfolding get_validator_pubkey
    get_validator_pubkey_complete node truth answers p key indices cl out warm i h =
        let begin : Lookup = record { out = []; missing = [] } in
        let pending = check_all-Pending indices begin cl warm i in
        let (q, has) =
          fetch_missing-Has node answers p key (check_all cache indices begin cl).0.missing _ out
            (check_all cache indices begin cl).1 pending h in
        let sound = get_validator_pubkey-Sound IsKeyOf l node truth indices cl out warm h in
        let entry = sound.indexed (format_uint n) q has in
        let parsed = parse_uint-format_uint n fits in
        let same : entry.index ≡ n = ground (arith, entry.parsed, parsed) in
        let right : q ≡ p =
          register.unique n q p (subst (λ k. IsKeyOf k q) same entry.has_key) key in
        has ∙ ap some right
