-- ===== src/Execution/Connection/Listen.antt =====
-- The goroutine's loop: when it ends, and what a header does to a later backfill.
use rescue_proxy.Prelude.{
  Bool, true, false, ◌||◌, List, [], ◌∷◌, ◌≡◌, arith, inl, inr, ap, ◌∙◌, refl, Option-cases,
}
use rescue_proxy.Prelude.Int.{ℤ, pos, ◌+ℤ◌, ◌<ℤ◌, max_ℤ, max_ℤ_upper, +ℤ_parts}
use rescue_proxy.Prelude.Exec.{Result-cases, ok}
use rescue_proxy.Cache.{address_eq, Cache, CacheLaws, Contents}
use rescue_proxy.Execution.{Contracts, Chain}
use rescue_proxy.Execution.Backfill.{Client, backfill_events}
use rescue_proxy.Execution.Connection.{
  Message, log_error, head_error, event, header, events_closed, headers_closed, Listener, receive,
  listen,
}

-- Both channels are closed.
record IsDrained {S : Type 0} (s : Listener S) : Type 0 where
  events : s.no_more_events ≡ true
  headers : s.no_more_headers ≡ true

-- The messages that say that a channel is closed.
abbrev pub closes_events : Message → Bool
closes_events events_closed = true
closes_events _ = false

abbrev pub closes_headers : Message → Bool
closes_headers headers_closed = true
closes_headers _ = false

abbrev pub some_is : (Message → Bool) → List Message → Bool
some_is test [] = false
some_is test (message ∷ rest) = test message || some_is test rest

-- Each channel was told to be closed.
pub record WasClosed (messages : List Message) : Type 0 where
  pub events : some_is closes_events messages ≡ true
  pub headers : some_is closes_headers messages ≡ true

module _ {S : Type 0} (c : Cache S) (k : Contracts) where
  receive_stops :
      (message : Message) (s : Listener S)
      → (receive c k message s).0 ≡ ok false
      → IsDrained (receive c k message s).1
  unfolding receive
  receive_stops (log_error net) s h = ground arith
  receive_stops (head_error net) s h = ground arith
  receive_stops (event answers log) s h = ground arith
  receive_stops (header n) s h = ground arith
  receive_stops events_closed s h = ground arith
  receive_stops headers_closed s h = ground arith

  ends-IsDrained :
      (messages : List Message) (s : Listener S)
      → (listen c k messages s).0 ≡ ok false
      → IsDrained (listen c k messages s).1
  unfolding listen
  ends-IsDrained [] s h = ground arith
  ends-IsDrained (message ∷ rest) s h = elim (Result-cases (receive c k message s).0) [
    | inr (e, panic) ↦ absurd (ground arith)
    | inl (true, on) ↦ rw on (ends-IsDrained rest (receive c k message s).1 (ground arith))
    | inl (false, stop) ↦ rw stop (receive_stops message s stop)
  ]

  -- A flag that is set was set before, or the message set it.
  abbrev FlagsFrom : Message → Listener S → Listener S → Type 0
  FlagsFrom message s after =
      (after.no_more_events ≡ true → s.no_more_events || closes_events message ≡ true)
      × (after.no_more_headers ≡ true → s.no_more_headers || closes_headers message ≡ true)

  receive_flags :
      (message : Message) (s : Listener S) → FlagsFrom message s (receive c k message s).1
  unfolding receive
  receive_flags (log_error net) s = (λ h. ground arith, λ h. ground arith)
  receive_flags (head_error net) s = (λ h. ground arith, λ h. ground arith)
  receive_flags (event answers log) s = (λ h. ground arith, λ h. ground arith)
  receive_flags (header n) s = (λ h. ground arith, λ h. ground arith)
  receive_flags events_closed s = (λ h. ground arith, λ h. ground arith)
  receive_flags headers_closed s = (λ h. ground arith, λ h. ground arith)

  listen_flags :
      (messages : List Message) (s : Listener S)
      → ((listen c k messages s).1.no_more_events ≡ true
          → s.no_more_events || some_is closes_events messages ≡ true)
        × ((listen c k messages s).1.no_more_headers ≡ true
            → s.no_more_headers || some_is closes_headers messages ≡ true)
  unfolding listen
  listen_flags [] s = (λ h. ground arith, λ h. ground arith)
  listen_flags (message ∷ rest) s =
      let here = receive_flags message s in
      let later = listen_flags rest (receive c k message s).1 in
      elim (Result-cases (receive c k message s).0) [
        | inr (e, panic) ↦ (λ h. ground (arith, here), λ h. ground (arith, here))
        | inl (true, on) ↦ (λ h. ground (arith, here, later), λ h. ground (arith, here, later))
        | inl (false, stop) ↦ (λ h. ground (arith, here), λ h. ground (arith, here))
      ]

  -- Whatever messages arrive in whatever order: where the loop begins with both channels open and ends
  -- without a panic, each of the two channels was found closed by a message of its own.
  pub listen-WasClosed :
      (messages : List Message) (s : Listener S)
      → s.no_more_events ≡ false
      → s.no_more_headers ≡ false
      → (listen c k messages s).0 ≡ ok false
      → WasClosed messages
  listen-WasClosed messages s events_open headers_open h =
      let drained = ends-IsDrained messages s h in
      let flags = listen_flags messages s in
      record { events = ground (arith, flags, drained); headers = ground (arith, flags, drained) }

  -- After a header the next backfill asks for nothing of its block or below: two clients with the same
  -- latest block, which give the same events for every range that starts above the header's block, lead
  -- to the same result and the same state, whatever events they have for that block.
  pub backfill_after_header :
      (l : CacheLaws c) (chain : Chain) (client client' : Client) (n : ℤ) (s : Listener S)
      → client.latest ≡ client'.latest
      → ((start stop : ℤ)
          → n <ℤ start
          → client.filter_logs start stop ≡ client'.filter_logs start stop)
      → let after = (receive c k (header n) s).1.conn.el in
        backfill_events c k chain client after ≡ backfill_events c k chain client' after
  unfolding receive backfill_events
  backfill_after_header l chain client client' n s same_latest same_above =
      let cache = s.conn.el.cache in
      let after = (receive c k (header n) s).1.conn.el in
      let height = l.height after.cache ∙ ap (λ (v : Contents). v.highest) (l.raises n cache) in
      let highest = c.get_highest_block after.cache in
      let above : n <ℤ highest +ℤ pos 1 = rw height (
        omega (
          arith,
          +ℤ_parts (max_ℤ (l.contents cache).highest n) (pos 1),
          (max_ℤ_upper (l.contents cache).highest n).1,
        )) in
      elim (Option-cases client'.latest) [
        | inl missing ↦ rw (same_latest, missing) refl
        | inr (stop, found) ↦ rw (same_latest, found, same_above (highest +ℤ pos 1) stop above) refl
      ]
