-- ===== src/Manager/Store.antt =====
-- src/mycoagent/manager/store.py: `ManagerStore`. A method's instants are those that it reads from
-- the clock, in order: `read` is the one at which the result is fetched. What the store's lock
-- covers is one action; the methods run one after another.
pub mod Laws
pub mod Invariant
pub mod Calls
pub mod Standing
pub mod Membership
pub mod Groups
pub mod Liveness
use myco_agent.Common.{
  ℕ, String, Bool, true, false, not, ◌&&◌, Option, none, some, List, [], ◌∷◌, ◌++◌, map, sort_by,
  text_leb, contains, given, or_empty, is_nil, is_some, keep, leb, ◌==◌, if◌then◌else◌, ltb, ◌||◌,
}
use myco_agent.Exec.{Exec, ok, raise, pure, throw, gets, modify, ◌>>=◌, ◌>>◌}
use myco_agent.Models.{
  NodeStatus, JoinMode, MembershipStatus, GroupInfo, GroupPolicyUpdate, NodeRegisterRequest,
  HeartbeatRequest, NodeRecord, CatalogQuery, join_mode_eq,
}
use myco_agent.Table.{update}
use myco_agent.Manager.Tables.{
  Store, GroupRow, NodeRow, group_key, node_key, group_named, node_with_id, in_group, group_info,
  mapping_to_node, expire_offline, delete_group_rows, set_node,
}
use myco_agent.Manager.Catalog.{filter_catalog_nodes}

pub data StoreError : Type 0 where
  group_exists : String → StoreError
  group_not_found : String → StoreError
  node_not_found : String → StoreError
  register_forbidden : StoreError
  membership_error : StoreError

abbrev pub StoreM : Type 0 → Type 0
StoreM A = Exec Store StoreError A

-- The row, or the error that the method raises without one.
abbrev pub require : {A : Type 0} → Option A → StoreError → StoreM A
require none e = throw e
require (some a) e = pure a

unfoldable pub require_group : String → StoreM GroupRow
require_group name s = require (group_named name s) (group_not_found name) s

unfoldable pub require_node : String → StoreM NodeRow
require_node node_id s = require (node_with_id node_id s) (node_not_found node_id) s

unfoldable pub get_group : (read : ℕ) → String → StoreM GroupInfo
unfolding require_group
get_group read name = do
  modify (expire_offline read)
  row ← require_group name
  gets (λ s. group_info row s.nodes)

-- INSERT INTO groups; an IntegrityError if the name is there.
unfoldable pub insert_group : GroupRow → StoreM (Unit {0})
insert_group row s =
    if is_some (group_named row.name s)
    then (raise (group_exists row.name), s)
    else (ok tt, record s { groups = s.groups ++ row ∷ [] })

unfoldable pub create_group :
    (now read : ℕ) → String → String → JoinMode → List String → List String → StoreM GroupInfo
create_group now read name description join_mode allow_register allow_parent = do
  insert_group (record {
    name = name;
    created_at = now;
    description = description;
    join_mode = join_mode;
    allow_register = allow_register;
    allow_parent = allow_parent;
  })
  get_group read name

-- `current.field if patch.field is None else patch.field`
abbrev pub patched : {A : Type 0} → Option A → A → A
patched none current = current
patched (some new) current = new

abbrev pub patch_row : GroupInfo → GroupPolicyUpdate → GroupRow → GroupRow
patch_row current patch row = record row {
  description = patched patch.description current.description;
  join_mode = patched patch.join_mode current.join_mode;
  allow_register = patched patch.allow_register current.allow_register;
  allow_parent = patched patch.allow_parent current.allow_parent;
}

unfoldable pub set_group : String → (GroupRow → GroupRow) → Store → Store
set_group name f s = record s { groups = update group_key name f s.groups }

unfoldable pub update_group : (first read : ℕ) → String → GroupPolicyUpdate → StoreM GroupInfo
update_group first read name patch = do
  current ← get_group first name
  modify (set_group name (patch_row current patch))
  get_group read name

unfoldable pub delete_group : String → StoreM (Unit {0})
delete_group name s =
    if is_some (group_named name s)
    then (ok tt, delete_group_rows name s)
    else (raise (group_not_found name), s)

unfoldable pub get_each : (String → ℕ) → List String → StoreM (List GroupInfo)
get_each read [] = pure []
get_each read (name ∷ names) = do
  info ← get_group (read name) name
  rest ← get_each read names
  pure (info ∷ rest)

-- `read name` is the instant at which the group `name` is fetched.
unfoldable pub list_groups : (now : ℕ) → (String → ℕ) → StoreM (List GroupInfo)
unfolding get_each
list_groups now read = do
  modify (expire_offline now)
  names ← gets (λ s. sort_by text_leb (map group_key s.groups))
  get_each read names

unfoldable pub get_node : (read : ℕ) → String → StoreM NodeRecord
unfolding require_node
get_node read node_id = do
  modify (expire_offline read)
  row ← require_node node_id
  pure (mapping_to_node row)

unfoldable pub by_join_mode : JoinMode → MembershipStatus
by_join_mode mode =
    if join_mode_eq mode JoinMode.manual
    then MembershipStatus.pending
    else MembershipStatus.approved

-- The membership that `register_node` writes.
unfoldable pub membership_for : GroupRow → Option NodeRow → MembershipStatus
unfolding by_join_mode
membership_for group none = by_join_mode group.join_mode
membership_for group (some row) =
    if row.group_name == group.name then row.membership_status else by_join_mode group.join_mode

-- The columns of `common`, in an INSERT and in an UPDATE.
abbrev pub registered_row :
    NodeRegisterRequest → String → (now created : ℕ) → MembershipStatus → NodeRow
registered_row req node_id now created membership = record {
  id = node_id;
  name = req.name;
  group_name = req.group;
  mailbox_url = req.mailbox_url;
  machine = req.machine;
  system = req.system;
  models = req.models;
  skills = req.skills;
  tools_declared = req.tools_declared;
  tools_available = req.tools_available;
  status = NodeStatus.idle;
  last_seen = now;
  created_at = created;
  membership_status = membership;
}

unfoldable pub write_node :
    NodeRegisterRequest → String → ℕ → GroupRow → Option NodeRow → Store → Store
unfolding set_node
write_node req node_id now group none s = record s {
  nodes = s.nodes ++ registered_row req node_id now now (membership_for group none) ∷ [];
}
write_node req node_id now group (some row) s =
    set_node node_id
      (λ old. registered_row req old.id now old.created_at (membership_for group (some row))) s

-- `allow_register and req.name not in allow_register`
abbrev pub refused : GroupRow → String → Bool
refused group name = not (is_nil group.allow_register) && not (contains name group.allow_register)

-- `req.node_id or str(uuid.uuid4())`
abbrev pub chosen_id : NodeRegisterRequest → (uuid : String) → String
chosen_id req uuid = if given req.node_id then or_empty req.node_id else uuid

unfoldable pub register_node :
    (first now read : ℕ) (uuid : String) → NodeRegisterRequest → StoreM NodeRecord
unfolding write_node require_group
register_node first now read uuid req = do
  modify (expire_offline first)
  group ← require_group req.group
  if refused group req.name then throw register_forbidden else do
    let node_id = chosen_id req uuid
    existing ← gets (node_with_id node_id)
    modify (write_node req node_id now group existing)
    get_node read node_id

unfoldable pub set_membership :
    (first read : ℕ) → String → String → MembershipStatus → StoreM NodeRecord
unfolding require_node set_node
set_membership first read group node_id status = do
  modify (expire_offline first)
  row ← require_node node_id
  if not (row.group_name == group) then throw membership_error else do
    modify (set_node node_id (λ n. record n { membership_status = status }))
    get_node read node_id

abbrev pub beat : ℕ → HeartbeatRequest → NodeRow → NodeRow
beat now req n = record n {
  status = req.status;
  last_seen = now;
  tools_available = patched req.tools_available n.tools_available;
  models = patched req.models n.models;
}

unfoldable pub heartbeat : (first now read : ℕ) → String → HeartbeatRequest → StoreM NodeRecord
unfolding require_node set_node
heartbeat first now read node_id req = do
  modify (expire_offline first)
  row ← require_node node_id
  modify (set_node node_id (beat now req))
  get_node read node_id

-- ORDER BY last_seen, id
abbrev pub by_last_seen : NodeRow → NodeRow → Bool
by_last_seen a b = ltb a.last_seen b.last_seen || leb a.last_seen b.last_seen && text_leb a.id b.id

unfoldable pub query_catalog : (now : ℕ) → CatalogQuery → StoreM (List NodeRecord)
unfolding require_group
query_catalog now query = do
  modify (expire_offline now)
  require_group query.group
  rows ←
      gets
        (λ s. sort_by by_last_seen (keep (in_group query.group MembershipStatus.approved) s.nodes))
  pure (filter_catalog_nodes (map mapping_to_node rows) query)
