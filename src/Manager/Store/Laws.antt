-- ===== src/Manager/Store/Laws.antt =====
-- What the statements of the store do to its tables.
use mathlib.Core.Option
use myco_agent.Common.{ℕ, ◌-◌, String, ◌≡◌, ◌↔◌, true, refl, arith, ◌==◌, eq_iff, if◌then◌else◌}
use myco_agent.Models.{MembershipStatus, membership_eq}
use myco_agent.Table.{keys}
use myco_agent.Table.Laws.{find-map, find-update, keys-map, keys-update}
use myco_agent.Manager.Tables.{
  in_group, Store, NodeRow, node_key, node_with_id, expire_row, expire_offline, set_node,
}

pub expire_row_id : (cutoff : ℕ) (n : NodeRow) → (expire_row cutoff n).id ≡ n.id
unfolding expire_row
expire_row_id cutoff n = ground arith

pub expire_row_group : (cutoff : ℕ) (n : NodeRow) → (expire_row cutoff n).group_name ≡ n.group_name
unfolding expire_row
expire_row_group cutoff n = ground arith

module _ (now : ℕ) (s : Store) where
  pub node_with_id-expire_offline :
      (j : String)
      → node_with_id j (expire_offline now s)
        ≡ Option.map (expire_row (now - s.heartbeat_timeout)) (node_with_id j s)
  unfolding expire_offline
  node_with_id-expire_offline j = find-map node_key j _ s.nodes (expire_row_id _)

  pub groups-expire_offline : (expire_offline now s).groups ≡ s.groups
  unfolding expire_offline
  groups-expire_offline = refl

  pub timeout-expire_offline : (expire_offline now s).heartbeat_timeout ≡ s.heartbeat_timeout
  unfolding expire_offline
  timeout-expire_offline = refl

  pub ids-expire_offline : keys node_key (expire_offline now s).nodes ≡ keys node_key s.nodes
  unfolding expire_offline
  ids-expire_offline = keys-map node_key _ s.nodes (expire_row_id _)

module _ (k : String) (f : NodeRow → NodeRow) (same : (n : NodeRow) → (f n).id ≡ n.id)
    (s : Store) where
  pub node_with_id-set_node :
      (j : String)
      → node_with_id j (set_node k f s)
        ≡ (if k == j then Option.map f (node_with_id j s) else node_with_id j s)
  unfolding set_node
  node_with_id-set_node j = find-update node_key k j f s.nodes same

  pub ids-set_node : keys node_key (set_node k f s).nodes ≡ keys node_key s.nodes
  unfolding set_node
  ids-set_node = keys-update node_key k f s.nodes same

membership_eq_iff : (a b : MembershipStatus) → (membership_eq a b ≡ true) ↔ (a ≡ b)
membership_eq_iff a b = ground arith

pub in_group_iff :
    (name : String) (status : MembershipStatus) (n : NodeRow)
    → (in_group name status n ≡ true) ↔ ((n.group_name ≡ name) × (n.membership_status ≡ status))
in_group_iff name status n =
    ground (arith, eq_iff n.group_name name, membership_eq_iff n.membership_status status)
