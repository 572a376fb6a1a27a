-- ===== src/Execution/Connection/Reconnect.antt =====
-- Reconnecting: how often it tries, how long it waits, and what it has done when it returns.
use rescue_proxy.Prelude.{
  ℕ, zero, suc, ◌+◌, ◌*◌, true, false, none, some, List, ◌∷◌, ◌≡◌, refl, arith, ◌∙◌, ap, sym,
}
use native.Mathlib.Nat.{zero-add, add-zero, suc-add}
use rescue_proxy.Prelude.Int.{ℤ, pos, ◌+ℤ◌, ltb_ℤ}
use rescue_proxy.Prelude.Exec.{Result, ok, err}
use rescue_proxy.Cache.{address_eq, Cache, CacheLaws, Contents, with_highest}
use rescue_proxy.Execution.{Contracts, Log, Panic, reconnect_failure}
use rescue_proxy.Execution.Events.Changes.{Change}
use rescue_proxy.Execution.Backfill.Laws.{AllSay, apply_all, backfill_events-Backfilled}
use rescue_proxy.Execution.Connection.{
  Connection, Network, reconnect_retries, resubscribed, reconnect, handle_subscription_error,
}

-- The attempts from `i` on, `n` of them, are refused.
abbrev pub Refused : Network → ℕ → ℕ → Type 0
Refused net i zero = Unit
Refused net i (suc n) = (net.subscribe_logs i ≡ none) × Refused net (i + 1) n

-- The seconds that are slept after those attempts.
unfoldable pub pauses : ℕ → ℕ → ℕ
pauses i zero = 0
pauses i (suc n) = i * 5 + pauses (i + 1) n

module _ {S : Type 0} where
  unfoldable pub after_attempts : ℕ → ℕ → Connection S → Connection S
  after_attempts i zero s = s
  after_attempts i (suc n) s = after_attempts (i + 1) n (record s {
    el = record s.el { m = ("reconnection_attempt", 1) ∷ s.el.m };
    slept = s.slept + i * 5;
  })

  slept-after_attempts :
      (i n : ℕ) (s : Connection S) → (after_attempts i n s).slept ≡ s.slept + pauses i n
  unfolding after_attempts pauses
  slept-after_attempts i zero s = omega arith
  slept-after_attempts i (suc n) s = omega (
    arith,
    slept-after_attempts (i + 1) n (record s {
      el = record s.el { m = ("reconnection_attempt", 1) ∷ s.el.m };
      slept = s.slept + i * 5;
    }),
  )

  cache-after_attempts : (i n : ℕ) (s : Connection S) → (after_attempts i n s).el.cache ≡ s.el.cache
  unfolding after_attempts
  cache-after_attempts i zero s = refl
  cache-after_attempts i (suc n) s = cache-after_attempts (i + 1) n _

  -- The disconnection is counted first.
  abbrev pub disconnected : Connection S → Connection S
  disconnected s = record s { el = record s.el { m = ("subscription_disconnected", 1) ∷ s.el.m } }

module _ {S : Type 0} (c : Cache S) (k : Contracts) (net : Network) where
  reconnect-Refused :
      (n left i : ℕ) (s : Connection S)
      → Refused net i n
      → reconnect c k net (n + left) i s ≡ reconnect c k net left (i + n) (after_attempts i n s)
  unfolding reconnect after_attempts
  reconnect-Refused zero left i s h = rw (zero-add, add-zero)
  reconnect-Refused (suc n) left i s (here, later) =
      let s' = record s {
        el = record s.el { m = ("reconnection_attempt", 1) ∷ s.el.m };
        slept = s.slept + i * 5;
      } in
      rw (suc-add, here)
        (reconnect-Refused n left (i + 1) s' later
          ∙ ap (λ (j : ℕ). reconnect c k net left j (after_attempts (i + 1) n s')) (omega arith))

  reconnecting :
      (n left : ℕ) (s : Connection S)
      → n + left ≡ reconnect_retries
      → s.shutdown ≡ false
      → Refused net 0 n
      → handle_subscription_error c k net s
        ≡ reconnect c k net left n (after_attempts 0 n (disconnected s))
  unfolding handle_subscription_error
  reconnecting n left s fits live h =
      ground arith
      ∙ (ap (λ (r : ℕ). reconnect c k net r 0 (disconnected s)) (sym fits)
          ∙ (reconnect-Refused n left 0 (disconnected s) h
              ∙ ap (λ (j : ℕ). reconnect c k net left j (after_attempts 0 n (disconnected s)))
                  (zero-add n)))

  -- Unless the layer is shutting down: if all ten attempts are refused the code panics, and it has
  -- waited 225 seconds.
  pub reconnect_gives_up :
      (s : Connection S)
      → s.shutdown ≡ false
      → Refused net 0 reconnect_retries
      → ((handle_subscription_error c k net s).0 ≡ err reconnect_failure)
        × ((handle_subscription_error c k net s).1.slept ≡ s.slept + 225)
  unfolding reconnect
  reconnect_gives_up s live h =
      rw (reconnecting 10 0 s refl live h)
        (refl, slept-after_attempts 0 10 (disconnected s) ∙ unfold pauses in refl)

  -- While the layer shuts down an error of a subscription changes nothing.
  pub reconnect_shut_down :
      (s : Connection S) → s.shutdown ≡ true → handle_subscription_error c k net s ≡ (ok tt, s)
  unfolding handle_subscription_error
  reconnect_shut_down s down = rw down

  -- What a successful reconnection at attempt `n` has done.
  pub record Reconnected (l : CacheLaws c) (n logs heads : ℕ) (v : Contents) (s : Connection S)
      (after : Result Panic (Unit {0}) × Connection S) : Type 0 where
    pub result : after.0 ≡ ok tt
    pub log_sub : after.1.log_sub ≡ logs
    pub head_sub : after.1.head_sub ≡ heads
    pub shutdown_cb : after.1.shutdown_cb ≡ some (logs, heads)
    pub slept : after.1.slept ≡ s.slept + pauses 0 n
    pub contents : l.contents after.1.el.cache ≡ v

  -- Unless the layer is shutting down, on a healthy cache: if the first n of the ten attempts are refused,
  -- the next gets both subscriptions, and the client has the events of the gap with all their topics,
  -- then the handler returns with the new subscriptions in place and in the shutdown callback, after
  -- sleeping 5 seconds times the number of each refused attempt, counted from 0, and with the events of
  -- the gap handled in order.
  pub handle_subscription_error-Reconnected :
      (l : CacheLaws c) (n left logs heads : ℕ) (stop : ℤ) (events : List Log)
      (changes : List Change) (s : Connection S)
      → n + suc left ≡ reconnect_retries
      → s.shutdown ≡ false
      → l.healthy s.el.cache ≡ true
      → Refused net 0 n
      → net.subscribe_logs n ≡ some logs
      → net.subscribe_heads n ≡ some heads
      → (net.client n).latest ≡ some stop
      → ltb_ℤ stop ((l.contents s.el.cache).highest +ℤ pos 1) ≡ false
      → (net.client n).filter_logs ((l.contents s.el.cache).highest +ℤ pos 1) stop ≡ some events
      → AllSay k net.chain events changes
      → Reconnected l n logs heads
          (with_highest stop (apply_all events changes (l.contents s.el.cache)))
          s
          (handle_subscription_error c k net s)
  unfolding reconnect resubscribed
  handle_subscription_error-Reconnected l n left logs heads stop events changes s fits live h
        refused got_logs got_heads latest gap found said =
      let s' = after_attempts 0 n (disconnected s) in
      let el' = record s'.el { m = ("reconnection_attempt", 1) ∷ s'.el.m } in
      let same = cache-after_attempts 0 n (disconnected s) in
      let filled =
        backfill_events-Backfilled l k net.chain (net.client n) stop events changes el' (rw same h)
          latest (rw same gap) (rw same found) said in
      rw (reconnecting n (suc left) s fits live refused)
        (ground (arith, filled, slept-after_attempts 0 n (disconnected s), same))
