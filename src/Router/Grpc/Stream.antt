-- ===== src/Router/Grpc/Stream.antt =====
-- router/grpc.go, `RecvMsg` of the guarded stream: which messages it has checked when it hands one out.
use rescue_proxy.Prelude.{
  Bytes, none, some, List, [], ◌∷◌, ◌≡◌, refl, arith, inl, inr, nat_eq, list_eq,
}
use rescue_proxy.Prelude.Exec.{Result-cases, ok}
use rescue_proxy.Cache.{address_eq, Address}
use rescue_proxy.Consensus.{get_validator_pubkey, check_all}
use rescue_proxy.Router.World.{World, Services, for_each}
use rescue_proxy.Router.Grpc.{
  Protobuf, validate_prepare_beacon_proposer, validate_register_validators,
}
use rescue_proxy.Router.Grpc.Interceptor.{
  ValidationCb, prepare_beacon_proposer_cb, register_validators_cb, Target, Transport, run_cb,
  recv_msg,
}

-- Protocol buffers decode no bytes as a message whose fields are all empty.
pub record DecodesEmpty (proto : Protobuf) : Type 0 where
  pub no_recipients : proto.unmarshal_recipients [] ≡ some []
  pub no_registrations : proto.unmarshal_registrations [] ≡ some []

module _ {S B T : Type 0} (x : Services S B) (proto : Protobuf) (transport : Transport T)
    (cb : ValidationCb) (node : Address) where
  -- A caller that receives into one message over and over, as the proxy does with a stream: the messages
  -- that it was given, the last one first, after the one that it began with.
  pub data Receives (s : World S B × T) : List Target → World S B × T → Type 0 where
    begins : (m : Target) → Receives s (m ∷ []) s
    receives :
        (m m' : Target) (ms : List Target) (s' : World S B × T)
        → Receives s (m ∷ ms) s'
        → (recv_msg x proto transport cb node m s').0 ≡ ok m'
        → Receives s (m' ∷ m ∷ ms) (recv_msg x proto transport cb node m s').1

  -- A call on the message `m` that hands out `m'`: the callback accepts `m`, in the state at the call, then
  -- the stream beneath fills the message, and the state is what the one check and the stream have left.
  pub record IsHandedOut (m m' : Target) (at_call after : World S B × T) : Type 0 where
    pub unknown : Bytes
    pub held : m ≡ some unknown
    pub accepted : (run_cb x proto cb unknown node at_call.0).0 ≡ ok tt
    pub filled : (transport.recv_msg at_call.1).0 ≡ ok m'
    pub checked_once : after.0 ≡ (run_cb x proto cb unknown node at_call.0).1
    pub read_once : after.1 ≡ (transport.recv_msg at_call.1).1

  -- So it is for each call of the caller's.
  abbrev pub AllButLast : (s s' : World S B × T) (ms : List Target) → Receives s ms s' → Type 0
  AllButLast s s' ms (begins m) = Unit
  AllButLast s s' ms (receives m m' before at_call earlier received) =
      IsHandedOut m m' at_call (recv_msg x proto transport cb node m at_call).1
      × AllButLast s at_call (m ∷ before) earlier

  recv_msg-IsHandedOut :
      (m m' : Target) (s : World S B × T)
      → (recv_msg x proto transport cb node m s).0 ≡ ok m'
      → IsHandedOut m m' s (recv_msg x proto transport cb node m s).1
  unfolding recv_msg
  recv_msg-IsHandedOut none m' s h = absurd (ground arith)
  recv_msg-IsHandedOut (some unknown) m' s h =
      elim (Result-cases (run_cb x proto cb unknown node s.0).0) [
        | inl (u, fine) ↦ record {
          unknown = unknown;
          held = refl;
          accepted = fine;
          filled = ground arith;
          checked_once = rw fine refl;
          read_once = rw fine refl;
        }
        | inr (e, refused) ↦ absurd (ground arith)
      ]

  -- A caller that receives into one message over and over: at each call the callback accepts what the
  -- message held before, the stream beneath then fills it, and the call ends without another check of
  -- what it hands out.
  pub Receives-AllButLast :
      (s s' : World S B × T) (ms : List Target) (calls : Receives s ms s')
      → AllButLast s s' ms calls
  Receives-AllButLast s s' ms (begins m) = tt
  Receives-AllButLast s s' ms (receives m m' before at_call earlier received) = (
    recv_msg-IsHandedOut m m' at_call received,
    Receives-AllButLast s at_call (m ∷ before) earlier,
  )

  run_cb_empty : DecodesEmpty proto → (w : World S B) → (run_cb x proto cb [] node w).0 ≡ ok tt
  unfolding run_cb validate_prepare_beacon_proposer validate_register_validators for_each
      get_validator_pubkey check_all
  run_cb_empty law w = elim cb [
    | prepare_beacon_proposer_cb ↦ ground (arith, law.no_recipients)
    | register_validators_cb ↦ ground (arith, law.no_registrations)
  ]

  -- The first message that is received into an empty one is handed out as it came, whatever it holds:
  -- the result of the guarded stream is that of the stream beneath. This is for protocol buffers that
  -- decode no bytes as an empty message.
  pub first_message_unchecked :
      DecodesEmpty proto
      → (s : World S B × T)
      → (recv_msg x proto transport cb node (some []) s).0 ≡ (transport.recv_msg s.1).0
  unfolding recv_msg
  first_message_unchecked law s = rw (run_cb_empty law s.0) refl
