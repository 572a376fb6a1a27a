-- ===== src/Execution/Recipient/Laws.antt =====
-- `ValidatorFeeRecipient` answers from the cache's contents, and changes none of them.
use rescue_proxy.Prelude.{Bool, true, Option, ◌≡◌, inl, inr, arith, nat_eq, list_eq, Option-cases}
use rescue_proxy.Prelude.Exec.{Result, ok}
use rescue_proxy.Cache.{address_eq, Address, Pubkey, Cache, CacheLaws}
use rescue_proxy.Execution.{El, Contracts, Panic}
use rescue_proxy.Execution.Recipient.{validator_fee_recipient, recipient_of}

module _ {S : Type 0} {c : Cache S} (l : CacheLaws c) (k : Contracts) where
  -- The call returns `r`, and leaves the contents and the health of the cache.
  pub record Answers (el : El S) (r : Result Panic (Option Address × Bool))
      (after : Result Panic (Option Address × Bool) × El S) : Type 0 where
    pub result : after.0 ≡ r
    pub contents : l.contents after.1.cache ≡ l.contents el.cache
    pub healthy : l.healthy after.1.cache ≡ true

  -- On a healthy cache `ValidatorFeeRecipient` returns what `recipient_of` says of the contents: no
  -- address for an unknown validator or node, no address and true for another node's minipool, else
  -- the smoothing pool or the fee distributor of the owner. It does not panic, keeps the contents
  -- and leaves the cache healthy.
  pub validator_fee_recipient-Answers :
      (p : Pubkey) (query : Option Address) (el : El S)
      → l.healthy el.cache ≡ true
      → Answers el
          (ok (recipient_of k (l.contents el.cache) p query))
          (validator_fee_recipient c k p query el)
  unfolding validator_fee_recipient
  validator_fee_recipient-Answers p query el h =
      let g = l.gets_minipool p in
      elim (Option-cases ((l.contents el.cache).minipools p)) [
        | inl missing ↦ record {
          result = ground (arith, g.exact el.cache);
          contents = ground (arith, g.exact el.cache, g.kept el.cache);
          healthy = ground (arith, g.exact el.cache, g.stays_healthy el.cache);
        }
        | inr (addr, found) ↦
            let s' = (c.get_minipool_node p el.cache).1 in
            let n = l.gets_node addr in
            record {
              result =
                  ground (
                    arith,
                    g.exact el.cache,
                    g.kept el.cache,
                    g.stays_healthy el.cache,
                    n.exact s',
                  );
              contents = ground (
                arith,
                g.exact el.cache,
                g.kept el.cache,
                g.stays_healthy el.cache,
                n.exact s',
                n.kept s',
              );
              healthy = ground (
                arith,
                g.exact el.cache,
                g.kept el.cache,
                g.stays_healthy el.cache,
                n.exact s',
                n.stays_healthy s',
              );
            }
      ]

  -- Whatever faults the storage has, if each shows as an error: where `ValidatorFeeRecipient`
  -- returns, its answer is the one that `recipient_of` gives for the contents, and the contents are
  -- kept.
  pub validator_fee_recipient_sound :
      (p : Pubkey) (query : Option Address) (el : El S) (r : Option Address × Bool)
      → (validator_fee_recipient c k p query el).0 ≡ ok r
      → (r ≡ recipient_of k (l.contents el.cache) p query)
        × (l.contents (validator_fee_recipient c k p query el).1.cache ≡ l.contents el.cache)
  unfolding validator_fee_recipient
  validator_fee_recipient_sound p query el r returned =
      let g = l.gets_minipool p in
      let s' = (c.get_minipool_node p el.cache).1 in
      elim (Option-cases ((l.contents el.cache).minipools p)) [
        | inl missing ↦ ground (arith, g.sound el.cache, g.kept el.cache)
        | inr (addr, found) ↦
            let n = l.gets_node addr in
            ground (arith, g.sound el.cache, g.kept el.cache, n.sound s', n.kept s')
      ]
