-- ===== src/Metrics/Epoch/Seen.antt =====
-- metrics/epoch.go: what the gauges show of the pair of epochs before the current one.
use rescue_proxy.Prelude.{
  ℕ, suc, ◌/◌, ◌%◌, false, [], ◌∷◌, ◌≡◌, ◌≢◌, refl, arith, ◌==◌, nat_eq, Bool-cases, inl, inr,
  eq_of_beq, beq_refl, ◌∙◌, ap,
}
use rescue_proxy.Cache.{address_eq, Address, Pubkey}
use rescue_proxy.Metrics.Epoch.{
  Epochs, on_head, observe_in, observe_validator, previous_epoch_idx, previous_epoch_nodes,
  previous_epoch_validators,
}
use rescue_proxy.Metrics.Epoch.Counting.{
  Observations, distinct_nodes, distinct_validators, bucket_of, length-bucket_of, count-bucket_of,
}

-- The bucket of an epoch, two epochs to each of four.
abbrev pub bucket_index : ℕ → ℕ
bucket_index epoch = epoch / 2 % 4

-- What happens while the head stays in a bucket: heads of its epochs, and observations, which are
-- collected with the last one first.
pub data Since (start : Epochs) : Observations → Epochs → Type 0 where
  entered : Since start [] start
  observed :
      (node : Address) (pubkey : Pubkey) (h : Observations) (s : Epochs)
      → Since start h s
      → Since start ((node, pubkey) ∷ h) (observe_validator node pubkey s)
  same_head :
      (epoch : ℕ) (h : Observations) (s : Epochs)
      → Since start h s
      → bucket_index epoch ≡ s.current_idx
      → Since start h (on_head epoch s)

-- A state whose current bucket holds what was observed.
pub record Holds (i : ℕ) (h : Observations) (s : Epochs) : Type 0 where
  pub current : s.current_idx ≡ i
  pub bucket : s.epochs i ≡ bucket_of h

on_head_enters :
    (epoch : ℕ) (s : Epochs)
    → bucket_index epoch ≢ s.current_idx
    → Holds (bucket_index epoch) [] (on_head epoch s)
unfolding on_head bucket_of
on_head_enters epoch s moved = elim (Bool-cases (bucket_index epoch == s.current_idx)) [
  | inl same ↦ absurd (moved (eq_of_beq (bucket_index epoch) s.current_idx same))
  | inr differs ↦ record {
    current = rw differs refl;
    bucket = rw differs (rw (beq_refl (bucket_index epoch)) refl);
  }
]

on_head_stays : (epoch : ℕ) (s : Epochs) → bucket_index epoch ≡ s.current_idx → on_head epoch s ≡ s
unfolding on_head
on_head_stays epoch s same = rw (same, beq_refl s.current_idx) refl

-- A head that moves on leaves the other buckets alone.
on_head_keeps :
    (epoch i : ℕ) (s : Epochs)
    → bucket_index epoch ≢ s.current_idx
    → bucket_index epoch ≢ i
    → ((on_head epoch s).current_idx ≡ bucket_index epoch)
      × ((on_head epoch s).epochs i ≡ s.epochs i)
unfolding on_head
on_head_keeps epoch i s moved other =
    let differs : (bucket_index epoch == s.current_idx) ≡ false = ground arith in
    let elsewhere : (bucket_index epoch == i) ≡ false = ground arith in
    (rw differs refl, rw differs (rw elsewhere refl))

previous_epoch_idx_lem :
    (e e' : ℕ) (s : Epochs)
    → s.current_idx ≡ bucket_index e'
    → e' / 2 ≡ suc (e / 2)
    → previous_epoch_idx s ≡ bucket_index e
unfolding previous_epoch_idx
previous_epoch_idx_lem e e' s current next = ground arith

Since-Holds :
    (i : ℕ) (start s : Epochs) (h : Observations) → Holds i [] start → Since start h s → Holds i h s
unfolding observe_validator bucket_of
Since-Holds i start s h begin entered = begin
Since-Holds i start s h begin (same_head epoch h' s' earlier same) =
    rw (on_head_stays epoch s' same) (Since-Holds i start s' h begin earlier)
Since-Holds i start s h begin (observed node pubkey h' s' earlier) =
    let before = Since-Holds i start s' h' begin earlier in
    record {
      current = before.current;
      bucket = rw (before.current, beq_refl i) (ap (observe_in node pubkey) before.bucket);
    }

-- A head of epoch `e` moves on to another bucket; whatever is observed before a head of the next two
-- epochs arrives, the gauges then show it: how many distinct nodes were observed, and how many
-- distinct validators of a node.
pub previous_epoch_counts :
    (e e' : ℕ) (before s : Epochs) (h : Observations)
    → bucket_index e ≢ before.current_idx
    → Since (on_head e before) h s
    → e' / 2 ≡ suc (e / 2)
    → (previous_epoch_nodes (on_head e' s) ≡ distinct_nodes h)
      × (previous_epoch_validators (on_head e' s) ≡ distinct_validators h)
unfolding previous_epoch_nodes previous_epoch_validators
previous_epoch_counts e e' before s h moved during next =
    let i = bucket_index e in
    let held = Since-Holds i (on_head e before) s h (on_head_enters e before moved) during in
    let (current, kept) =
      on_head_keeps e' i s (λ same. absurd (ground arith)) (λ same. absurd (omega arith)) in
    let at_previous = previous_epoch_idx_lem e e' (on_head e' s) current next in
    let bucket = kept ∙ held.bucket in
    (rw (at_previous, bucket) (length-bucket_of h), rw (at_previous, bucket) (count-bucket_of h))
