-- ===== src/Manager/Postgres.antt =====
-- src/mycoagent/manager/postgres_store.py: the same methods over Postgres, whose texts are ordered by the
-- database's collation, those of the time stamps too. The tables, and what the statements other than ORDER BY do to them, are those
-- of Tables; a method's arguments are those of its namesake in Store.
pub mod Same
pub mod Listing
pub mod Listed
pub mod Refines
mod Tests
use myco_agent.Common.{
  ℕ, String, Bool, true, false, not, ◌&&◌, ◌||◌, Option, none, some, List, [], ◌∷◌, ◌++◌, map, keep,
  sort_by, ◌-◌, is_some, ◌==◌, if◌then◌else◌,
}
use myco_agent.Exec.{Exec, ok, raise, pure, throw, gets, modify, ◌>>=◌, ◌>>◌}
use myco_agent.Models.{
  node_status_eq, NodeStatus, MembershipStatus, JoinMode, GroupInfo, GroupPolicyUpdate, NodeRecord,
  NodeRegisterRequest, HeartbeatRequest, CatalogQuery,
}
use myco_agent.Manager.Tables.{
  Store, GroupRow, NodeRow, group_key, node_key, group_named, node_with_id, in_group,
  mapping_to_node, delete_group_rows, set_node,
}
use myco_agent.Manager.Catalog.{filter_catalog_nodes}
use myco_agent.Manager.Store.{
  StoreM, StoreError, group_exists, group_not_found, register_forbidden, membership_error,
  require_group, require_node, patch_row, set_group, write_node, refused, chosen_id, beat,
}

-- An INSERT into groups, which raises `UniqueViolation` and is rolled back if the name is there.
unfoldable pub insert_group : GroupRow → StoreM (Unit {0})
insert_group row s =
    if is_some (group_named row.name s)
    then (raise (group_exists row.name), s)
    else (ok tt, record s { groups = s.groups ++ row ∷ [] })

-- DELETE FROM groups, and the row count of it
unfoldable pub delete_group : String → StoreM (Unit {0})
delete_group name s =
    let deleted = delete_group_rows name s in
    if is_some (group_named name s) then (ok tt, deleted) else (raise (group_not_found name), s)

module _ (collate : String → String → Bool) where
  abbrev pub by_name : NodeRow → NodeRow → Bool
  by_name a b = collate a.name b.name

  abbrev pub ids_in_group : String → MembershipStatus → List NodeRow → List String
  ids_in_group name status nodes =
      map node_key (sort_by by_name (keep (in_group name status) nodes))

  unfoldable pub group_info : GroupRow → List NodeRow → GroupInfo
  group_info row nodes = record {
    name = row.name;
    created_at = row.created_at;
    description = row.description;
    join_mode = row.join_mode;
    allow_register = row.allow_register;
    allow_parent = row.allow_parent;
    member_ids = ids_in_group row.name MembershipStatus.approved nodes;
    pending_ids = ids_in_group row.name MembershipStatus.pending nodes;
  }

module _ (collate : String → String → Bool) (iso : ℕ → String) where
  -- `<` between two time stamps, which the columns hold as the texts of `isoformat`
  abbrev pub before : ℕ → ℕ → Bool
  before a b = not (collate (iso b) (iso a))

  -- WHERE last_seen < %s AND status != 'offline'
  unfoldable pub expire_row_pg : (cutoff : ℕ) → NodeRow → NodeRow
  expire_row_pg cutoff n =
      if before n.last_seen cutoff && not (node_status_eq n.status NodeStatus.offline)
      then record n { status = NodeStatus.offline }
      else n

  unfoldable pub expire_offline_pg : (now : ℕ) → Store → Store
  unfolding expire_row_pg
  expire_offline_pg now s = record s {
    nodes = map (expire_row_pg (now - s.heartbeat_timeout)) s.nodes;
  }

  -- ORDER BY last_seen, id
  abbrev pub by_last_seen : NodeRow → NodeRow → Bool
  by_last_seen a b =
      before a.last_seen b.last_seen
      || collate (iso a.last_seen) (iso b.last_seen) && collate a.id b.id

-- `expire` is `_expire_offline`, which the methods begin with.
module _ (expire : (now : ℕ) → Store → Store) where
  unfoldable pub get_node : (read : ℕ) → String → StoreM NodeRecord
  unfolding require_node
  get_node read node_id = do
    modify (expire read)
    row ← require_node node_id
    pure (mapping_to_node row)

  unfoldable pub register_node :
      (first now read : ℕ) (uuid : String) → NodeRegisterRequest → StoreM NodeRecord
  unfolding write_node require_group
  register_node first now read uuid req = do
    modify (expire first)
    group ← require_group req.group
    if refused group req.name then throw register_forbidden else do
      let node_id = chosen_id req uuid
      existing ← gets (node_with_id node_id)
      modify (write_node req node_id now group existing)
      get_node read node_id

  unfoldable pub set_membership :
      (first read : ℕ) → String → String → MembershipStatus → StoreM NodeRecord
  unfolding require_node set_node
  set_membership first read group node_id status = do
    modify (expire first)
    row ← require_node node_id
    if not (row.group_name == group) then throw membership_error else do
      modify (set_node node_id (λ n. record n { membership_status = status }))
      get_node read node_id

  unfoldable pub heartbeat : (first now read : ℕ) → String → HeartbeatRequest → StoreM NodeRecord
  unfolding require_node set_node
  heartbeat first now read node_id req = do
    modify (expire first)
    row ← require_node node_id
    modify (set_node node_id (beat now req))
    get_node read node_id

  module _ (collate : String → String → Bool) where
    unfoldable pub get_group : (read : ℕ) → String → StoreM GroupInfo
    unfolding require_group
    get_group read name = do
      modify (expire read)
      row ← require_group name
      gets (λ s. group_info collate row s.nodes)

    unfoldable pub create_group :
        (now read : ℕ) → String → String → JoinMode → List String → List String → StoreM GroupInfo
    create_group now read name description join_mode allow_register allow_parent = do
      insert_group (record {
        name = name;
        created_at = now;
        description = description;
        join_mode = join_mode;
        allow_register = allow_register;
        allow_parent = allow_parent;
      })
      get_group read name

    unfoldable pub update_group : (first read : ℕ) → String → GroupPolicyUpdate → StoreM GroupInfo
    update_group first read name patch = do
      current ← get_group first name
      modify (set_group name (patch_row current patch))
      get_group read name

    unfoldable pub get_each : (String → ℕ) → List String → StoreM (List GroupInfo)
    get_each read [] = pure []
    get_each read (name ∷ names) = do
      info ← get_group (read name) name
      rest ← get_each read names
      pure (info ∷ rest)

    unfoldable pub list_groups : (now : ℕ) → (String → ℕ) → StoreM (List GroupInfo)
    unfolding get_each
    list_groups now read = do
      modify (expire now)
      names ← gets (λ s. sort_by collate (map group_key s.groups))
      get_each read names

    unfoldable pub query_catalog :
        (iso : ℕ → String) → (now : ℕ) → CatalogQuery → StoreM (List NodeRecord)
    unfolding require_group
    query_catalog iso now query = do
      modify (expire now)
      require_group query.group
      rows ← gets (λ s.
          sort_by (by_last_seen collate iso)
            (keep (in_group query.group MembershipStatus.approved) s.nodes))
      pure (filter_catalog_nodes (map mapping_to_node rows) query)
