-- ===== src/Execution/Connection/Follow.antt =====
-- The goroutine of `ecEventsConnect` while events arrive, and what it makes of a lost connection.
use rescue_proxy.Prelude.{ℕ, suc, ◌+◌, true, false, some, List, [], ◌∷◌, ◌≡◌, refl, ap, ◌∙◌, sym}
use rescue_proxy.Prelude.Int.{ℤ, pos, ◌+ℤ◌, ltb_ℤ}
use rescue_proxy.Prelude.Exec.{ok}
use rescue_proxy.Cache.{address_eq, Cache, CacheLaws, Contents, with_highest}
use rescue_proxy.Execution.{Contracts, Chain, Log}
use rescue_proxy.Execution.Events.{handle_event}
use rescue_proxy.Execution.Events.Changes.{Change}
use rescue_proxy.Execution.Events.Laws.{handle_event-Changes}
use rescue_proxy.Execution.Backfill.Laws.{AllSay, apply_all}
use rescue_proxy.Execution.Connection.{
  reconnect_retries, Connection, Network, Message, log_error, event, header, Listener, receive,
  listen, handle_subscription_error,
}
use rescue_proxy.Execution.Connection.Reconnect.{Refused, handle_subscription_error-Reconnected}

-- Events that arrive one after the other, and then other messages.
abbrev pub following : Chain → List Log → List Message → List Message
following chain [] rest = rest
following chain (log ∷ more) rest = event chain log ∷ following chain more rest

-- The goroutine with both channels open.
abbrev pub listening : {S : Type 0} → Connection S → Listener S
listening s = record { conn = s; no_more_events = false; no_more_headers = false }

-- The connection after the events.
unfoldable pub follow :
    {S : Type 0} → Cache S → Contracts → Chain → List Log → Connection S → Connection S
follow c k chain [] s = s
follow c k chain (log ∷ more) s =
    follow c k chain more (record s { el = (handle_event c k chain log s.el).1 })

module _ {S : Type 0} {c : Cache S} (l : CacheLaws c) (k : Contracts) where
  -- Over a healthy cache with the contents `v`, with `rest` still to come.
  pub record Followed (chain : Chain) (v : Contents) (logs : List Log) (s : Connection S)
      : Type 0 where
    pub goes_on :
        (rest : List Message)
        → listen c k (following chain logs rest) (listening s)
          ≡ listen c k rest (listening (follow c k chain logs s))
    pub contents : l.contents (follow c k chain logs s).el.cache ≡ v
    pub healthy : l.healthy (follow c k chain logs s).el.cache ≡ true
    pub shutdown : (follow c k chain logs s).shutdown ≡ s.shutdown

  pub follow-Followed :
      (chain : Chain) (logs : List Log) (changes : List Change) (s : Connection S)
      → AllSay k chain logs changes
      → l.healthy s.el.cache ≡ true
      → Followed chain (apply_all logs changes (l.contents s.el.cache)) logs s
  unfolding follow listen receive apply_all
  follow-Followed chain [] [] s said h = record {
    goes_on = λ rest. refl;
    contents = refl;
    healthy = h;
    shutdown = refl;
  }
  follow-Followed chain [] (ch ∷ chs) s said h = elim said [ ]
  follow-Followed chain (e ∷ es) [] s said h = elim said [ ]
  follow-Followed chain (e ∷ es) (ch ∷ chs) s (here, later) h =
      let first = handle_event-Changes l k chain e ch s.el here h in
      let s1 = record s { el = (handle_event c k chain e s.el).1 } in
      let rest = follow-Followed chain es chs s1 later first.healthy in
      record {
        goes_on = λ more. rw first.result (rest.goes_on more);
        contents = rest.contents ∙ ap (apply_all es chs) first.contents;
        healthy = rest.healthy;
        shutdown = rest.shutdown;
      }

  header_at_end :
      (n : ℤ) (s : Connection S)
      → l.contents (listen c k (header n ∷ []) (listening s)).1.conn.el.cache
        ≡ with_highest n (l.contents s.el.cache)
  unfolding listen receive
  header_at_end n s = l.raises n s.el.cache

  error_at_end :
      (net : Network) (s : Connection S) (v : Contents)
      → (handle_subscription_error c k net
          (record s { unsubscribed = s.head_sub ∷ s.unsubscribed })).0
        ≡ ok tt
      → l.contents
          (handle_subscription_error c k net
            (record s { unsubscribed = s.head_sub ∷ s.unsubscribed })).1.el.cache
        ≡ v
      → l.contents (listen c k (log_error net ∷ []) (listening s)).1.conn.el.cache ≡ v
  unfolding listen receive
  error_at_end net s v done same = rw done same

  -- A connection that breaks between two runs of events, and one that does not. Over a healthy
  -- cache and while the layer is not shutting down: where an attempt to reconnect gets both
  -- subscriptions after n refused ones, and the client has the second run, each event with all its
  -- topics, for the blocks from the one after the height that the first run leads to up to the
  -- latest, the cache holds in the end what it holds where both runs arrive live, and then the
  -- header of the latest block.
  pub listen-reconnected :
      (net : Network) (n left logs heads : ℕ) (stop : ℤ) (before missed : List Log)
      (changes changes' : List Change) (s : Connection S)
      → n + suc left ≡ reconnect_retries
      → s.shutdown ≡ false
      → l.healthy s.el.cache ≡ true
      → AllSay k net.chain before changes
      → AllSay k net.chain missed changes'
      → Refused net 0 n
      → net.subscribe_logs n ≡ some logs
      → net.subscribe_heads n ≡ some heads
      → (net.client n).latest ≡ some stop
      → ltb_ℤ stop ((apply_all before changes (l.contents s.el.cache)).highest +ℤ pos 1) ≡ false
      → (net.client n).filter_logs
          ((apply_all before changes (l.contents s.el.cache)).highest +ℤ pos 1)
          stop
        ≡ some missed
      → l.contents
          (listen c k
            (following net.chain before (log_error net ∷ []))
            (listening s)).1.conn.el.cache
        ≡ l.contents
            (listen c k
              (following net.chain before (following net.chain missed (header stop ∷ [])))
              (listening s)).1.conn.el.cache
  listen-reconnected net n left logs heads stop before missed changes changes' s fits live h said
        said' refused sub sub' latest gap found =
      let first = follow-Followed net.chain before changes s said h in
      let s1 = follow c k net.chain before s in
      let second = follow-Followed net.chain missed changes' s1 said' first.healthy in
      let broken = record s1 { unsubscribed = s1.head_sub ∷ s1.unsubscribed } in
      let again =
        handle_subscription_error-Reconnected c k net l n left logs heads stop missed changes'
          broken fits (first.shutdown ∙ live) first.healthy refused sub sub' latest
          (rw first.contents gap) (rw first.contents found) said' in
      rw
        (
          first.goes_on (log_error net ∷ []),
          first.goes_on (following net.chain missed (header stop ∷ [])),
          second.goes_on (header stop ∷ []),
        )
        (error_at_end net s1 _ again.result again.contents
          ∙ sym (
              header_at_end stop (follow c k net.chain missed s1)
              ∙ ap (with_highest stop) second.contents))
