-- ===== src/Cache.antt =====
-- executionlayer/cache.go: the `Cache` interface between the execution layer and its two caches, and
-- the contract that the execution layer relies on. `Contents` is what a cache holds, as a client sees
-- it; `healthy` says that no storage fault is pending.
pub mod Maps
pub mod Sqlite
pub mod Same
use rescue_proxy.Prelude.{
  ◌↔◌, Comparable, length, refl, eq_of_beq, beq_refl, subst, ap, sym, Bytes, Bool, true, false,
  Option, none, some, List, [], ◌∷◌, ◌≡◌, ◌⊎◌, ◌==◌, ◌||◌, if◌then◌else◌, nat_eq, list_eq,
}
use rescue_proxy.Prelude.Int.{ℤ, pos, max_ℤ}
use rescue_proxy.Prelude.Exec.{Exec, Result, ok, err}

abbrev pub IsTrue : Bool → Type 0
IsTrue true = Unit
IsTrue false = ⊥

-- common.Address, an array of 20 bytes.
pub record Address : Type 0 where
  pub bytes : Bytes
  pub size : IsTrue (length bytes == 20)

any_two_proofs : (b : Bool) (p q : IsTrue b) → p ≡ q
any_two_proofs true p q = refl
any_two_proofs false p q = absurd p

abbrev pub of_bytes : (bytes : Bytes) → IsTrue (length bytes == 20) → Address
of_bytes bytes size = record { bytes = bytes; size = size }

-- Equal bytes make equal addresses.
pub of_bytes_eq :
    (xs ys : Bytes) (p : IsTrue (length xs == 20)) (q : IsTrue (length ys == 20))
    → xs ≡ ys
    → of_bytes xs p ≡ of_bytes ys q
of_bytes_eq xs ys p q e =
    subst (λ zs. (r : IsTrue (length zs == 20)) → of_bytes xs p ≡ of_bytes zs r) e
      (λ r. ap (of_bytes xs) (any_two_proofs (length xs == 20) p r)) q

pub address_same_iff : (a b : Address) → ((a.bytes == b.bytes) ≡ true) ↔ (a ≡ b)
address_same_iff a b = (
  λ h. of_bytes_eq a.bytes b.bytes a.size b.size (eq_of_beq a.bytes b.bytes h),
  λ e. rw e (beq_refl b.bytes),
)

instance abbrev pub address_eq : Comparable Address
address_eq = record { same = λ a b. a.bytes == b.bytes; same_iff = address_same_iff }

-- rptypes.ValidatorPubkey and common.Hash: byte arrays, used as values.

abbrev pub Pubkey : Type 0
Pubkey = Bytes

abbrev pub Hash : Type 0
Hash = Bytes

pub record NodeInfo : Type 0 where
  pub in_smoothing_pool : Bool
  pub fee_distributor : Address

-- `*NotFoundError`, and every other error.
pub data CacheError : Type 0 where
  not_found failed : CacheError

-- A closure returns whether to go on, and what it captured: a list that it collects into.
abbrev pub ForEachNodeClosure : Type 0
ForEachNodeClosure = Address → List Bytes → Bool × List Bytes

pub record Cache (S : Type 0) : Type 0 where
  pub init : Exec S CacheError (Unit {0})
  pub get_minipool_node : Pubkey → Exec S CacheError Address
  pub add_minipool_node : Pubkey → Address → Exec S CacheError (Unit {0})
  pub get_node_info : Address → Exec S CacheError NodeInfo
  pub add_node_info : Address → NodeInfo → Exec S CacheError (Unit {0})
  pub for_each_node :
      ForEachNodeClosure → List Bytes → S → (Result CacheError (Unit {0}) × List Bytes) × S
  pub set_highest_block : ℤ → S → S
  pub get_highest_block : S → ℤ
  pub deinit : Exec S CacheError (Unit {0})
  pub reset : Exec S CacheError (Unit {0})

-- What a cache holds.
pub record Contents : Type 0 where
  pub minipools : Pubkey → Option Address
  pub nodes : Address → Option NodeInfo
  pub highest : ℤ

abbrev pub or_not_found : {A : Type 0} → Option A → Result CacheError A
or_not_found none = err not_found
or_not_found (some a) = ok a

abbrev pub with_minipool : Pubkey → Address → Contents → Contents
with_minipool p a v = record v { minipools = λ q. if p == q then some a else v.minipools q }

abbrev pub with_node : Address → NodeInfo → Contents → Contents
with_node a n v = record v { nodes = λ b. if a == b then some n else v.nodes b }

abbrev pub with_highest : ℤ → Contents → Contents
with_highest b v = record v { highest = max_ℤ v.highest b }

-- No validator and no node.
pub record IsCleared (v : Contents) : Type 0 where
  pub minipools : (p : Pubkey) → v.minipools p ≡ none
  pub nodes : (a : Address) → v.nodes a ≡ none

module _ {S : Type 0} (contents : S → Contents) (healthy : S → Bool) where
  -- `m` answers from the contents and keeps them. A fault can only turn the answer into an error.
  pub record Reads {A : Type 0} (m : Exec S CacheError A) (answer : Contents → Result CacheError A)
      : Type 0 where
    pub kept : (s : S) → contents (m s).1 ≡ contents s
    pub stays_healthy : (s : S) → healthy s ≡ true → healthy (m s).1 ≡ true
    pub exact : (s : S) → healthy s ≡ true → (m s).0 ≡ answer (contents s)
    pub sound : (s : S) → ((m s).0 ≡ answer (contents s)) ⊎ ((m s).0 ≡ err failed)

  -- `m` makes the change, or fails and makes none.
  pub record Writes (m : Exec S CacheError (Unit {0})) (change : Contents → Contents) : Type 0 where
    pub stays_healthy : (s : S) → healthy s ≡ true → healthy (m s).1 ≡ true
    pub exact : (s : S) → healthy s ≡ true → (m s).0 ≡ ok tt
    pub atomic :
        (s : S)
        → (((m s).0 ≡ ok tt) × (contents (m s).1 ≡ change (contents s)))
          ⊎ (((m s).0 ≡ err failed) × (contents (m s).1 ≡ contents s))

-- What a closure collects from addresses in turn, until it returns false.
unfoldable pub visit : ForEachNodeClosure → List Address → List Bytes → List Bytes
visit closure [] captured = captured
visit closure (a ∷ more) captured =
    let (go_on, captured') = closure a captured in
    let later = visit closure more captured' in if go_on then later else captured'

unfoldable pub is_listed : {A : Type 0} ⦃c : Comparable A⦄ → A → List A → Bool
is_listed a [] = false
is_listed a (b ∷ more) = b == a || is_listed a more

abbrev pub is_some : {A : Type 0} → Option A → Bool
is_some none = false
is_some (some a) = true

-- A walk over the nodes: the addresses that it visits are those of the contents.
pub record Visits {S : Type 0} (c : Cache S) (contents : S → Contents) (healthy : S → Bool) (s : S)
    : Type 0 where
  pub visited : List Address
  pub all : (a : Address) → is_listed a visited ≡ is_some ((contents s).nodes a)
  pub walks :
      (closure : ForEachNodeClosure) (captured : List Bytes)
      → (c.for_each_node closure captured s).0 ≡ (ok tt, visit closure visited captured)
  pub kept :
      (closure : ForEachNodeClosure) (captured : List Bytes)
      → contents (c.for_each_node closure captured s).1 ≡ contents s

-- The contract of a cache.
pub record CacheLaws {S : Type 0} (c : Cache S) : Type 0 where
  pub contents : S → Contents
  pub healthy : S → Bool
  pub gets_minipool :
      (p : Pubkey)
      → Reads contents healthy (c.get_minipool_node p) (λ v. or_not_found (v.minipools p))
  pub gets_node :
      (a : Address) → Reads contents healthy (c.get_node_info a) (λ v. or_not_found (v.nodes a))
  pub adds_minipool :
      (p : Pubkey) (a : Address)
      → Writes contents healthy (c.add_minipool_node p a) (with_minipool p a)
  pub adds_node :
      (a : Address) (n : NodeInfo) → Writes contents healthy (c.add_node_info a n) (with_node a n)
  pub raises : (b : ℤ) (s : S) → contents (c.set_highest_block b s) ≡ with_highest b (contents s)
  pub raises_healthy : (b : ℤ) (s : S) → healthy (c.set_highest_block b s) ≡ healthy s
  pub height : (s : S) → c.get_highest_block s ≡ (contents s).highest
  pub resets :
      (s : S)
      → healthy s ≡ true
      → ((c.reset s).0 ≡ ok tt)
        × (healthy (c.reset s).1 ≡ true)
        × IsCleared (contents (c.reset s).1)
  pub visits : (s : S) → healthy s ≡ true → Visits c contents healthy s
