-- ===== src/Manager/Tables.antt =====
-- src/mycoagent/manager/store.py: the rows of the two tables and the statements over them.
-- A `_json` column stands decoded, an ISO instant as its number of microseconds.
use myco_agent.Common.{
  ℕ, ◌-◌, String, Bool, not, ◌&&◌, Option, List, [], map, ltb, keep, sort_by, text_leb, ◌==◌,
  if◌then◌else◌,
}
use myco_agent.Models.{
  NodeStatus, JoinMode, MembershipStatus, MachineSpec, SystemSpec, ModelSpec, GroupInfo, NodeRecord,
  node_status_eq, membership_eq,
}
use myco_agent.Table.{find, update, remove}

pub record GroupRow : Type 0 where
  pub name : String
  pub created_at : ℕ
  pub description : String
  pub join_mode : JoinMode
  pub allow_register : List String
  pub allow_parent : List String

pub record NodeRow : Type 0 where
  pub id : String
  pub name : String
  pub group_name : String
  pub mailbox_url : String
  pub machine : MachineSpec
  pub system : SystemSpec
  pub models : List ModelSpec
  pub skills : List String
  pub tools_declared : List String
  pub tools_available : List String
  pub status : NodeStatus
  pub last_seen : ℕ
  pub created_at : ℕ
  pub membership_status : MembershipStatus

pub record Store : Type 0 where
  pub groups : List GroupRow
  pub nodes : List NodeRow
  pub heartbeat_timeout : ℕ

-- A database whose tables have just been made.
abbrev pub new_store : ℕ → Store
new_store timeout = record { groups = []; nodes = []; heartbeat_timeout = timeout }

abbrev pub group_key : GroupRow → String
group_key g = g.name

abbrev pub node_key : NodeRow → String
node_key n = n.id

-- SELECT * FROM groups WHERE name = ?
abbrev pub group_named : String → Store → Option GroupRow
group_named name s = find group_key name s.groups

-- SELECT * FROM nodes WHERE id = ?
abbrev pub node_with_id : String → Store → Option NodeRow
node_with_id node_id s = find node_key node_id s.nodes

abbrev pub by_name : NodeRow → NodeRow → Bool
by_name a b = text_leb a.name b.name

-- WHERE group_name = ? AND membership_status = ?
abbrev pub in_group : String → MembershipStatus → NodeRow → Bool
in_group name status n = n.group_name == name && membership_eq n.membership_status status

-- SELECT id FROM nodes WHERE group_name = ? AND membership_status = ? ORDER BY name
unfoldable pub ids_in_group : String → MembershipStatus → List NodeRow → List String
ids_in_group name status nodes = map node_key (sort_by by_name (keep (in_group name status) nodes))

unfoldable pub group_info : GroupRow → List NodeRow → GroupInfo
group_info row nodes = record {
  name = row.name;
  created_at = row.created_at;
  description = row.description;
  join_mode = row.join_mode;
  allow_register = row.allow_register;
  allow_parent = row.allow_parent;
  member_ids = ids_in_group row.name MembershipStatus.approved nodes;
  pending_ids = ids_in_group row.name MembershipStatus.pending nodes;
}

unfoldable pub mapping_to_node : NodeRow → NodeRecord
mapping_to_node row = record {
  id = row.id;
  name = row.name;
  group = row.group_name;
  mailbox_url = row.mailbox_url;
  machine = row.machine;
  system = row.system;
  models = row.models;
  skills = row.skills;
  tools_declared = row.tools_declared;
  tools_available = row.tools_available;
  status = row.status;
  last_seen = row.last_seen;
  created_at = row.created_at;
  membership_status = row.membership_status;
}

-- WHERE last_seen < ? AND status != 'offline'
unfoldable pub expire_row : ℕ → NodeRow → NodeRow
expire_row cutoff n =
    if ltb n.last_seen cutoff && not (node_status_eq n.status NodeStatus.offline)
    then record n { status = NodeStatus.offline }
    else n

-- `ManagerStore._expire_offline` at the instant `now`. An instant before the timeout has a cutoff
-- before every instant, as 0 is.
unfoldable pub expire_offline : ℕ → Store → Store
unfolding expire_row
expire_offline now s = record s { nodes = map (expire_row (now - s.heartbeat_timeout)) s.nodes }

-- DELETE FROM groups WHERE name = ?, with ON DELETE CASCADE on nodes.group_name
unfoldable pub delete_group_rows : String → Store → Store
delete_group_rows name s = record s {
  groups = remove group_key name s.groups;
  nodes = keep (λ n. not (n.group_name == name)) s.nodes;
}

unfoldable pub set_node : String → (NodeRow → NodeRow) → Store → Store
set_node node_id f s = record s { nodes = update node_key node_id f s.nodes }
