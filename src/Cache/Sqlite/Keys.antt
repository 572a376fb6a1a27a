-- ===== src/Cache/Sqlite/Keys.antt =====
-- The rows of the SQLite cache as addresses and nodes.
use rescue_proxy.Prelude.{
  Bytes, some, List, [], ◌∷◌, ◌≡◌, refl, arith, map, ◌==◌, nat_eq, list_eq, if◌then◌else◌,
  Bool-cases, inl, inr, ap, sym, ◌∙◌, All,
}
use rescue_proxy.Prelude.Exec.{ok}
use rescue_proxy.Cache.{address_eq, Address, Pubkey, NodeInfo, ForEachNodeClosure, visit, is_listed}
use rescue_proxy.Cache.Sqlite.{Library, node_info, in_sp, walk}
use rescue_proxy.Cache.Sqlite.Sql.{Tables, SqlLaws}
use rescue_proxy.Cache.Sqlite.Transactions.{address_in, info_in}

module _ {D : Type 0} (x : Library D) (l : SqlLaws x) where
  -- Keys are equal when the addresses are.
  pub same_key : (a b : Address) → (a.bytes == b.bytes) ≡ (a == b)
  same_key a b = refl

  pub info_of_row : (n : NodeInfo) → node_info x (in_sp n, n.fee_distributor.bytes) ≡ n
  info_of_row n = ground (arith, l.address_of_bytes n.fee_distributor)

  pub minipool_row :
      (t : Tables) (p q : Pubkey) (a : Address)
      → address_in x (if p == q then some a.bytes else t.minipools q)
        ≡ (if p == q then some a else address_in x (t.minipools q))
  minipool_row t p q a = elim (Bool-cases (p == q)) [
    | inl same ↦ rw same (ap some (l.address_of_bytes a))
    | inr differs ↦ rw differs refl
  ]

  pub node_row :
      (t : Tables) (a b : Address) (n : NodeInfo)
      → info_in x
          (if a.bytes == b.bytes then some (in_sp n, n.fee_distributor.bytes) else t.nodes b.bytes)
        ≡ (if a == b then some n else info_in x (t.nodes b.bytes))
  node_row t a b n = elim (Bool-cases (a == b)) [
    | inl same ↦ rw (same_key a b, same) (ap some (info_of_row n))
    | inr differs ↦ rw (same_key a b, differs) refl
  ]

  -- The closure is given the addresses in turn.
  pub walk-visit :
      (closure : ForEachNodeClosure) (addresses : List Bytes) (captured : List Bytes)
      → walk x closure (map some addresses) captured
        ≡ (ok tt, visit closure (map x.bytes_to_address addresses) captured)
  unfolding walk visit
  walk-visit closure [] captured = refl
  walk-visit closure (b ∷ more) captured =
      let step = closure (x.bytes_to_address b) captured in
      let later = walk-visit closure more step.1 in
      elim (Bool-cases step.0) [ inl on ↦ rw on later | inr stop ↦ rw stop refl ]

  pub is_listed-map :
      (a : Address) (addresses : List Bytes)
      → All (λ b. (x.bytes_to_address b).bytes ≡ b) addresses
      → is_listed a (map x.bytes_to_address addresses) ≡ is_listed a.bytes addresses
  unfolding is_listed
  is_listed-map a [] canonical = refl
  is_listed-map a (b ∷ more) canonical =
      let same = sym (same_key (x.bytes_to_address b) a) ∙ ap (λ t. t == a.bytes) canonical.0 in
      rw (same, is_listed-map a more canonical.1) refl
