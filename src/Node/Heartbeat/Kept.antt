-- ===== src/Node/Heartbeat/Kept.antt =====
-- What a request to the Manager leaves of the row of a node that it does not write.
use mathlib.Core.Option
use myco_agent.Common.{
  ℕ, ◌+◌, ◌-◌, ◌≤◌, String, ◌≡◌, refl, ◌∙◌, ap, false, some, arith, inl, inr, Option-cases, ◌==◌,
}
use myco_agent.Models.{HeartbeatRequest, CatalogQuery}
use myco_agent.Manager.Tables.{
  Store, NodeRow, expire_row, expire_offline, node_with_id, group_named, set_node,
}
use myco_agent.Manager.Store.{
  get_node, get_group, query_catalog, heartbeat, require_node, require_group, beat,
}
use myco_agent.Manager.Store.Laws.{node_with_id-expire_offline, node_with_id-set_node}

-- A read marks silent nodes and does nothing else to the store.
pub get_node-expires :
    (read : ℕ) (id : String) (s : Store) → (get_node read id s).1 ≡ expire_offline read s
unfolding get_node require_node
get_node-expires read id s = elim (Option-cases (node_with_id id (expire_offline read s))) [
  | inl absent ↦ rw absent refl
  | inr (row, there) ↦ rw there refl
]

pub get_group-expires :
    (read : ℕ) (name : String) (s : Store) → (get_group read name s).1 ≡ expire_offline read s
unfolding get_group require_group
get_group-expires read name s = elim (Option-cases (group_named name (expire_offline read s))) [
  | inl absent ↦ rw absent refl
  | inr (row, there) ↦ rw there refl
]

pub query_catalog-expires :
    (now : ℕ) (query : CatalogQuery) (s : Store)
    → (query_catalog now query s).1 ≡ expire_offline now s
unfolding query_catalog require_group
query_catalog-expires now query s =
    elim (Option-cases (group_named query.group (expire_offline now s))) [
      | inl absent ↦ rw absent refl
      | inr (row, there) ↦ rw there refl
    ]

-- A row whose last sign is recent
pub expire_row_recent :
    (timeout at : ℕ) (row : NodeRow)
    → at ≤ row.last_seen + timeout
    → expire_row (at - timeout) row ≡ row
unfolding expire_row
expire_row_recent timeout at row h = ground arith

pub node_with_id_recent :
    (at : ℕ) (id : String) (s : Store) (row : NodeRow)
    → node_with_id id s ≡ some row
    → at ≤ row.last_seen + s.heartbeat_timeout
    → node_with_id id (expire_offline at s) ≡ some row
node_with_id_recent at id s row there recent =
    node_with_id-expire_offline at s id
    ∙ ap (Option.map (expire_row (at - s.heartbeat_timeout))) there
    ∙ ap some (expire_row_recent s.heartbeat_timeout at row recent)

-- The heartbeat of another node
pub node_with_id-heartbeat :
    (first now read : ℕ) (other id : String) (req : HeartbeatRequest) (s : Store) (row : NodeRow)
    → node_with_id id s ≡ some row
    → other == id ≡ false
    → first ≤ row.last_seen + s.heartbeat_timeout
    → read ≤ row.last_seen + s.heartbeat_timeout
    → node_with_id id (heartbeat first now read other req s).1 ≡ some row
unfolding heartbeat require_node set_node expire_offline
node_with_id-heartbeat first now read other id req s row there apart recent later =
    let still = node_with_id_recent first id s row there recent in
    elim (Option-cases (node_with_id other (expire_offline first s))) [
      | inl absent ↦ rw absent still
      | inr (r, found) ↦
          let w : Store = set_node other (beat now req) (expire_offline first s) in
          let kept : node_with_id id w ≡ some row =
            node_with_id-set_node other (beat now req) (λ a. refl) (expire_offline first s) id
            ∙ rw apart still in
          rw found (
            ap (node_with_id id) (get_node-expires read other w)
            ∙ node_with_id_recent read id w row kept later)
    ]

pub heartbeat-timeout :
    (first now read : ℕ) (other : String) (req : HeartbeatRequest) (s : Store)
    → (heartbeat first now read other req s).1.heartbeat_timeout ≡ s.heartbeat_timeout
unfolding heartbeat require_node set_node expire_offline
heartbeat-timeout first now read other req s =
    elim (Option-cases (node_with_id other (expire_offline first s))) [
      | inl absent ↦ rw absent refl
      | inr (r, found) ↦ rw found (
          ap (λ (x : Store). x.heartbeat_timeout)
            (get_node-expires read other (set_node other (beat now req) (expire_offline first s))))
    ]
