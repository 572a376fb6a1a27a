-- ===== src/Router/World.antt =====
-- The state that the handlers of router/ share: the execution layer, the consensus layer, the ring of
-- observed validators, the router's own counts and those of the authentication; and what they call that
-- is not in the repository.
use rescue_proxy.Prelude.{Bytes, Option, none, some, List, [], ◌∷◌, String}
use rescue_proxy.Prelude.Exec.{Exec, Result, ok, err, ◌>>◌, pure}
use rescue_proxy.Cache.{address_eq, Address, Pubkey, Cache}
use rescue_proxy.Execution.{El, Contracts, Panic}
use rescue_proxy.Consensus.{ConsensusLayer, PubkeyCache, BeaconNode}
use rescue_proxy.Metrics.Epoch.{Epochs, observe_validator}
use rescue_proxy.Router.Auth.{Config}

pub record World (S B : Type 0) : Type 0 where
  pub el : El S
  pub cl : ConsensusLayer B
  pub epochs : Epochs
  pub m : List String
  pub auth : List String

-- The router's fields and what it reaches through them: the cache's operations, the contracts' addresses,
-- the consensus layer's cache and beacon node, and the configuration of the authentication. Of
-- go-ethereum: `BytesToAddress`, and `Address.String`.
pub record Services (S B : Type 0) : Type 0 where
  pub cache : Cache S
  pub contracts : Contracts
  pub pubkeys : PubkeyCache B
  pub node : BeaconNode
  pub auth : Config
  pub bytes_to_address : Bytes → Address
  pub address_string : Address → Bytes

-- The same result, with a panic as an error of the caller's.
abbrev pub raised : {A E : Type 0} → (Panic → E) → Result Panic A → Result E A
raised f (ok a) = ok a
raised f (err p) = err (f p)

module _ {S B E : Type 0} where
  -- m.Counter(name).Inc()
  abbrev pub count : String → Exec (World S B) E (Unit {0})
  count name w = (ok tt, record w { m = name ∷ w.m })

  -- metrics.ObserveValidator(node, pubkey)
  abbrev pub observe : Address → Pubkey → Exec (World S B) E (Unit {0})
  observe node pubkey w = (ok tt, record w { epochs = observe_validator node pubkey w.epochs })

  -- A call of the execution layer, whose panic goes on up.
  abbrev pub on_el : {A : Type 0} → (Panic → E) → Exec (El S) Panic A → Exec (World S B) E A
  on_el f op w = (raised f (op w.el).0, record w { el = (op w.el).1 })

  -- A call of the consensus layer; none is its error.
  abbrev pub on_cl : {A : Type 0} → (ConsensusLayer B → A × ConsensusLayer B) → Exec (World S B) E A
  on_cl op w = (ok (op w.cl).0, record w { cl = (op w.cl).1 })

  -- `if err != nil`, or `if !ok`: stop with `e`.
  abbrev pub or_stop : {A : Type 0} → E → Option A → Exec (World S B) E A
  or_stop e none w = (err e, w)
  or_stop e (some a) w = (ok a, w)

  -- A loop over a slice, which a return in its body ends.
  unfoldable pub for_each :
      {A : Type 0} → (A → Exec (World S B) E (Unit {0})) → List A → Exec (World S B) E (Unit {0})
  for_each body [] = pure tt
  for_each body (x ∷ xs) = body x >> for_each body xs
