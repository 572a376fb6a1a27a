-- ===== src/Execution/Connection/Drain.antt =====
-- The goroutine of `ecEventsConnect` once `Deinit` has closed both channels: it handles what is left in
-- them, and ends.
use rescue_proxy.Prelude.{
  Bool, true, false, ◌&&◌, some, List, ◌∷◌, ◌≡◌, refl, arith, ap, ◌∙◌, sym, inl, inr, Bool-cases,
}
use rescue_proxy.Prelude.Int.{ℤ}
use rescue_proxy.Prelude.Exec.{Result, ok}
use rescue_proxy.Cache.{Cache, CacheLaws, Contents, with_highest}
use rescue_proxy.Execution.{Contracts, Chain, Log, Panic}
use rescue_proxy.Execution.Events.{handle_event}
use rescue_proxy.Execution.Events.Changes.{Change, change_of, apply_at}
use rescue_proxy.Execution.Events.Laws.{handle_event-Changes}
use rescue_proxy.Execution.Connection.{
  Network, Message, log_error, head_error, event, header, events_closed, headers_closed, Listener,
  receive, listen, handle_subscription_error,
}

-- What may be received then, and how the contents change by it: a channel yields what waits in it, and then
-- that it is closed, as often as it is asked; the subscriptions' errors come at any time. The flags tell
-- which of the channels, events and headers, was found closed. What comes after both is not received.
pub data Drains (k : Contracts) : Bool → Bool → List Message → Contents → Contents → Type 0 where
  drained : (rest : List Message) (v : Contents) → Drains k true true rest v v
  event_left :
      (h : Bool) (chain : Chain) (log : Log) (change : Change) (rest : List Message)
      (v v' : Contents)
      → change_of k chain log ≡ some change
      → Drains k false h rest (apply_at log.block_number change v) v'
      → Drains k false h (event chain log ∷ rest) v v'
  header_left :
      (e : Bool) (n : ℤ) (rest : List Message) (v v' : Contents)
      → Drains k e false rest (with_highest n v) v'
      → Drains k e false (header n ∷ rest) v v'
  events_end :
      (e h : Bool) (rest : List Message) (v v' : Contents)
      → e && h ≡ false
      → Drains k true h rest v v'
      → Drains k e h (events_closed ∷ rest) v v'
  headers_end :
      (e h : Bool) (rest : List Message) (v v' : Contents)
      → e && h ≡ false
      → Drains k e true rest v v'
      → Drains k e h (headers_closed ∷ rest) v v'
  log_sub_ends :
      (e h : Bool) (net : Network) (rest : List Message) (v v' : Contents)
      → e && h ≡ false
      → Drains k e h rest v v'
      → Drains k e h (log_error net ∷ rest) v v'
  head_sub_ends :
      (e h : Bool) (net : Network) (rest : List Message) (v v' : Contents)
      → e && h ≡ false
      → Drains k e h rest v v'
      → Drains k e h (head_error net ∷ rest) v v'

module _ {S : Type 0} {c : Cache S} (l : CacheLaws c) (k : Contracts) where
  -- The goroutine has ended, over a healthy cache with the contents `v`.
  pub record Drained (v : Contents) (after : Result Panic Bool × Listener S) : Type 0 where
    pub result : after.0 ≡ ok false
    pub contents : l.contents after.1.conn.el.cache ≡ v
    pub healthy : l.healthy after.1.conn.el.cache ≡ true

  -- With both channels found closed, nothing more is received.
  nothing_left :
      {e h : Bool} {messages : List Message} {v v' : Contents}
      → Drains k e h messages v v'
      → e && h ≡ true
      → v ≡ v'
  nothing_left (drained rest v) both = refl
  nothing_left (event_left h chain log change rest v v' said run) both =
      absurd (ground (arith, both))
  nothing_left (header_left e n rest v v' run) both = absurd (ground (arith, both))
  nothing_left (events_end e h rest v v' goes_on run) both = absurd (ground (arith, both, goes_on))
  nothing_left (headers_end e h rest v v' goes_on run) both = absurd (ground (arith, both, goes_on))
  nothing_left (log_sub_ends e h net rest v v' goes_on run) both =
      absurd (ground (arith, both, goes_on))
  nothing_left (head_sub_ends e h net rest v v' goes_on run) both =
      absurd (ground (arith, both, goes_on))

  pub listen-Drained :
      {e h : Bool} {messages : List Message} {v v' : Contents}
      → Drains k e h messages v v'
      → (s : Listener S) → s.no_more_events ≡ e
      → s.no_more_headers ≡ h
      → s.conn.shutdown ≡ true
      → l.contents s.conn.el.cache ≡ v
      → l.healthy s.conn.el.cache ≡ true
      → e && h ≡ false
      → Drained v' (listen c k messages s)
  unfolding listen receive handle_subscription_error
  listen-Drained (drained rest v) s es hs stop same fine goes_on = absurd (ground (arith, goes_on))
  listen-Drained (event_left h chain log change rest v v' said run) s es hs stop same fine goes_on =
      let el = s.conn.el in
      let first = handle_event-Changes l k chain log change el said fine in
      let s1 : Listener S = record s {
        conn = record s.conn { el = (handle_event c k chain log el).1 };
        no_more_events = false;
      } in
      rw first.result (
        listen-Drained run s1 refl hs stop
          (first.contents ∙ ap (apply_at log.block_number change) same) first.healthy refl)
  listen-Drained (header_left e n rest v v' run) s es hs stop same fine goes_on =
      let cache = s.conn.el.cache in
      let raised = record s.conn.el {
        cache = c.set_highest_block n cache;
        m = ("block_header_received", 1) ∷ s.conn.el.m;
      } in
      let s1 : Listener S = record s {
        conn = record s.conn { el = raised };
        no_more_headers = false;
      } in
      listen-Drained run s1 es refl stop (l.raises n cache ∙ ap (with_highest n) same)
        (l.raises_healthy n cache ∙ fine) goes_on
  listen-Drained (events_end e h rest v v' goes_on' run) s es hs stop same fine goes_on =
      elim (Bool-cases h) [
        | inl closed ↦
            rw (hs, closed)
              (record {
                result = refl;
                contents = same ∙ nothing_left run (rw closed refl);
                healthy = fine;
              })
        | inr more ↦
            rw (hs, more)
              (listen-Drained run (record s { no_more_events = true; no_more_headers = false }) refl
                (sym more) stop same fine (rw more refl))
      ]
  listen-Drained (headers_end e h rest v v' goes_on' run) s es hs stop same fine goes_on =
      elim (Bool-cases e) [
        | inl closed ↦
            rw (es, closed)
              (record {
                result = refl;
                contents = same ∙ nothing_left run (rw closed refl);
                healthy = fine;
              })
        | inr more ↦
            rw (es, more)
              (listen-Drained run (record s { no_more_events = false; no_more_headers = true })
                (sym more) refl stop same fine (rw more refl))
      ]
  listen-Drained (log_sub_ends e h net rest v v' goes_on' run) s es hs stop same fine goes_on =
      let flags : s.no_more_events && s.no_more_headers ≡ false = rw (es, hs) goes_on in
      let s1 : Listener S = record s {
        conn = record s.conn {
          unsubscribed = s.conn.head_sub ∷ s.conn.unsubscribed;
          shutdown = true;
        };
      } in
      rw (stop, flags) (listen-Drained run s1 es hs refl same fine goes_on)
  listen-Drained (head_sub_ends e h net rest v v' goes_on' run) s es hs stop same fine goes_on =
      let flags : s.no_more_events && s.no_more_headers ≡ false = rw (es, hs) goes_on in
      let s1 : Listener S = record s {
        conn = record s.conn {
          unsubscribed = s.conn.log_sub ∷ s.conn.unsubscribed;
          shutdown = true;
        };
      } in
      rw (stop, flags) (listen-Drained run s1 es hs refl same fine goes_on)
