-- ===== src/Metrics/Epoch/Counting.antt =====
-- metrics/epoch.go: a bucket as the observations that were stored into it, and how many distinct ones
-- there are.
use rescue_proxy.Prelude.{
  ℕ, suc, ◌+◌, Bool, true, false, Option, none, some, List, [], ◌∷◌, ◌≡◌, refl, arith, length, ◌==◌,
  ◌&&◌, ◌||◌, nat_eq, list_eq, if◌then◌else◌, Option-cases, Bool-cases, inl, inr, Comparable,
  eq_of_beq, ◌∙◌, sym, ap,
}
use rescue_proxy.Prelude.Map
use rescue_proxy.Prelude.Map.{Map}
use rescue_proxy.Cache.{address_eq, Address, Pubkey}
use rescue_proxy.Metrics.Epoch.{
  Bucket, load_or_store, loaded_or_stored, observe_in, count_validators,
}

-- Observations, the last one first.
abbrev pub Observations : Type 0
Observations = List (Address × Pubkey)

unfoldable pub saw_node : Address → Observations → Bool
saw_node n [] = false
saw_node n ((m, p) ∷ h) = m == n || saw_node n h

unfoldable pub saw : Address → Pubkey → Observations → Bool
saw n p [] = false
saw n p ((m, q) ∷ h) = (m == n && q == p) || saw n p h

-- How many distinct nodes, and how many distinct validators of a node.
unfoldable pub distinct_nodes : Observations → ℕ
distinct_nodes [] = 0
distinct_nodes ((n, p) ∷ h) = if saw_node n h then distinct_nodes h else suc (distinct_nodes h)

unfoldable pub distinct_validators : Observations → ℕ
distinct_validators [] = 0
distinct_validators ((n, p) ∷ h) =
    if saw n p h then distinct_validators h else suc (distinct_validators h)

unfoldable pub bucket_of : Observations → Bucket
bucket_of [] = []
bucket_of ((n, p) ∷ h) = observe_in n p (bucket_of h)

abbrev is_some {ℓ} : {V : Type ℓ} → Option V → Bool
is_some none = false
is_some (some v) = true

abbrev or_empty {ℓ} : {K V : Type ℓ} → Option (Map K V) → Map K V
or_empty none = []
or_empty (some m) = m

module _ {ℓ} {K V : Type ℓ} ⦃c : Comparable K⦄ where
  length-put :
      (k : K) (v : V) (m : Map K V)
      → length (Map.put k v m) ≡ (if is_some (Map.get k m) then length m else suc (length m))
  unfolding Map.put Map.get
  length-put k v [] = refl
  length-put k v (e ∷ m) = ground (arith, length-put k v m)

count-put :
    (n : Address) (v : Map Pubkey (Unit {0})) (b : Bucket)
    → count_validators (Map.put n v b) + length (or_empty (Map.get n b))
      ≡ count_validators b + length v
unfolding count_validators Map.put Map.get
count-put n v [] = omega arith
count-put n v ((m, w) ∷ b) = elim (Bool-cases (m == n)) [
  | inl same ↦ rw same (omega arith)
  | inr differs ↦ rw differs (omega (arith, count-put n v b))
]

abbrev add_pubkey : Pubkey → Map Pubkey (Unit {0}) → Map Pubkey (Unit {0})
add_pubkey p m = (load_or_store p tt m).1

observe_new :
    (n : Address) (p : Pubkey) (b : Bucket)
    → ◌≡◌ {A = Option (Map Pubkey (Unit {0}))} (Map.get n b) none
    → observe_in n p b ≡ Map.put n (add_pubkey p []) (Map.put n [] b)
unfolding observe_in
observe_new n p b new = rw (observe_in, new) refl

observe_old :
    (n : Address) (p : Pubkey) (b : Bucket) (m : Map Pubkey (Unit {0}))
    → Map.get n b ≡ some m
    → observe_in n p b ≡ Map.put n (add_pubkey p m) b
unfolding observe_in
observe_old n p b m old = rw (observe_in, old) refl

get-observe_in :
    (n j : Address) (p : Pubkey) (b : Bucket)
    → ◌≡◌ {A = Option (Map Pubkey (Unit {0}))}
        (Map.get j (observe_in n p b))
        (if n == j then some (add_pubkey p (or_empty (Map.get n b))) else Map.get j b)
get-observe_in n j p b = elim (Option-cases (Map.get n b)) [
  | inl new ↦
      let last = Map.get-put n j (add_pubkey p []) (Map.put n [] b) in
      let nobody : Map Pubkey (Unit {0}) = [] in
      let first = Map.get-put n j nobody b in
      elim (Bool-cases (n == j)) [
        | inl same ↦ rw (observe_new n p b new, last, new, same) refl
        | inr differs ↦ rw (observe_new n p b new, last, first, differs) refl
      ]
  | inr (m, old) ↦ rw (observe_old n p b m old, Map.get-put n j (add_pubkey p m) b, old) refl
]

add_new :
    (p : Pubkey) (m : Map Pubkey (Unit {0}))
    → ◌≡◌ {A = Option (Unit {0})} (Map.get p m) none
    → add_pubkey p m ≡ Map.put p tt m
add_new p m new = ap (λ o. (loaded_or_stored o p tt m).1) new

add_old :
    (p : Pubkey) (u : Unit {0}) (m : Map Pubkey (Unit {0}))
    → Map.get p m ≡ some u
    → add_pubkey p m ≡ m
add_old p u m old = ap (λ o. (loaded_or_stored o p tt m).1) old

get-add_pubkey :
    (p q : Pubkey) (m : Map Pubkey (Unit {0}))
    → is_some (Map.get q (add_pubkey p m)) ≡ (p == q || is_some (Map.get q m))
get-add_pubkey p q m = elim (Option-cases (Map.get p m)) [
  | inl new ↦ elim (Bool-cases (p == q)) [
    | inl same ↦ rw (add_new p m new, Map.get-put p q tt m, same) refl
    | inr differs ↦ rw (add_new p m new, Map.get-put p q tt m, differs) refl
  ]
  | inr (u, old) ↦ elim (Bool-cases (p == q)) [
    | inl same ↦
        let e : Map.get q m ≡ some u = rw (eq_of_beq p q same) at old in
        rw (add_old p u m old, same, e) refl
    | inr differs ↦ rw (add_old p u m old, differs) refl
  ]
]

length-add_pubkey :
    (p : Pubkey) (m : Map Pubkey (Unit {0}))
    → length (add_pubkey p m) ≡ (if is_some (Map.get p m) then length m else suc (length m))
length-add_pubkey p m = elim (Option-cases (Map.get p m)) [
  | inl new ↦ rw (add_new p m new, length-put p tt m, new) refl
  | inr (u, old) ↦ rw (add_old p u m old, old) refl
]

has_node : (n : Address) (h : Observations) → is_some (Map.get n (bucket_of h)) ≡ saw_node n h
unfolding bucket_of saw_node Map.get
has_node n [] = refl
has_node n ((m, p) ∷ h) = elim (Bool-cases (m == n)) [
  | inl same ↦ rw (get-observe_in m n p (bucket_of h), same) refl
  | inr differs ↦ rw (get-observe_in m n p (bucket_of h), differs) (has_node n h)
]

has_validator :
    (n : Address) (p : Pubkey) (h : Observations)
    → is_some (Map.get p (or_empty (Map.get n (bucket_of h)))) ≡ saw n p h
unfolding bucket_of saw Map.get
has_validator n p [] = refl
has_validator n p ((m, q) ∷ h) = elim (Bool-cases (m == n)) [
  | inl same ↦
      rw (get-observe_in m n q (bucket_of h), same)
        (rw (eq_of_beq m n same)
          (get-add_pubkey q p (or_empty (Map.get n (bucket_of h))) ∙ rw (has_validator n p h) refl))
  | inr differs ↦ rw (get-observe_in m n q (bucket_of h), differs) (has_validator n p h)
]

seen_node :
    (n : Address) (h : Observations) (o : Option (Map Pubkey (Unit {0})))
    → Map.get n (bucket_of h) ≡ o
    → saw_node n h ≡ is_some o
seen_node n h o e = sym (has_node n h) ∙ ap is_some e

-- A bucket has a node's entry for each distinct node, and a validator's for each distinct validator.
pub length-bucket_of : (h : Observations) → length (bucket_of h) ≡ distinct_nodes h
unfolding bucket_of distinct_nodes
length-bucket_of [] = refl
length-bucket_of ((n, p) ∷ h) =
    let b = bucket_of h in
    let nobody : Map Pubkey (Unit {0}) = [] in
    elim (Option-cases (Map.get n b)) [
      | inl new ↦
          rw
            (
              observe_new n p b new,
              length-put n (add_pubkey p []) (Map.put n [] b),
              Map.get-put_self n nobody b,
              length-put n nobody b,
              new,
              seen_node n h none new,
            )
            (ap suc (length-bucket_of h))
      | inr (m, old) ↦
          rw
            (
              observe_old n p b m old,
              length-put n (add_pubkey p m) b,
              old,
              seen_node n h (some m) old,
            )
            (length-bucket_of h)
    ]

-- The count grows by what the node's own entry grows by.
count-observe_in :
    (n : Address) (p : Pubkey) (b : Bucket)
    → count_validators (observe_in n p b) + length (or_empty (Map.get n b))
      ≡ count_validators b + length (add_pubkey p (or_empty (Map.get n b)))
count-observe_in n p b =
    let nobody : Map Pubkey (Unit {0}) = [] in
    elim (Option-cases (Map.get n b)) [
      | inl new ↦
          let first = count-put n nobody b in
          let last = count-put n (add_pubkey p []) (Map.put n [] b) in
          rw (observe_new n p b new, new)
            (omega (arith, rw new at first, rw (Map.get-put_self n nobody b) at last))
      | inr (m, old) ↦
          rw (observe_old n p b m old, old) (rw old at (count-put n (add_pubkey p m) b))
    ]

pub count-bucket_of : (h : Observations) → count_validators (bucket_of h) ≡ distinct_validators h
unfolding bucket_of distinct_validators count_validators
count-bucket_of [] = refl
count-bucket_of ((n, p) ∷ h) =
    let entry = or_empty (Map.get n (bucket_of h)) in
    let grown = count-observe_in n p (bucket_of h) in
    let entry_grown = length-add_pubkey p entry in
    let before = count-bucket_of h in
    elim (Bool-cases (saw n p h)) [
      | inl seen ↦
          let already : is_some (Map.get p entry) ≡ true = has_validator n p h ∙ seen in
          rw seen (omega (arith, grown, rw already at entry_grown, before))
      | inr new ↦
          let not_yet : is_some (Map.get p entry) ≡ false = has_validator n p h ∙ new in
          rw new (omega (arith, grown, rw not_yet at entry_grown, before))
    ]
