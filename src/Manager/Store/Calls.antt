-- ===== src/Manager/Store/Calls.antt =====
-- The calls that a client of the store makes, and that each keeps the schema's constraints.
use mathlib.Core.List.{mem-map_of_mem}
use myco_agent.Common.{
  ℕ, String, ◌≡◌, refl, inl, inr, Option, none, some, List, [], ◌∷◌, Mem, arith, Option-cases,
}
use myco_agent.Exec.{modify, Keeps, Keeps-pure, Keeps-bind, Keeps-then, keeps_rules}
use myco_agent.Models.{
  GroupInfo, JoinMode, MembershipStatus, GroupPolicyUpdate, NodeRegisterRequest, HeartbeatRequest,
  CatalogQuery,
}
use myco_agent.Table.{keys}
use myco_agent.Table.Rows.{find-mem}
use myco_agent.Table.Laws.{find_key}
use myco_agent.Manager.Tables.{
  Store, NodeRow, GroupRow, group_key, group_named, node_with_id, expire_offline, set_node,
}
use myco_agent.Manager.Store.{
  StoreError, get_each, chosen_id, beat, patch_row, set_group, get_group, create_group,
  update_group, delete_group, list_groups, get_node, register_node, write_node, set_membership,
  heartbeat, query_catalog, require_group, require_node,
}
use myco_agent.Manager.Store.Invariant.{
  Inv, expire_offline-Inv, set_node-Inv, set_group-Inv, insert_group-Inv, delete_group_rows-Inv,
  append_node-Inv,
}

expires : (now : ℕ) → Keeps {E = StoreError} Inv (modify (expire_offline now))
expires now = record { at = λ s v. expire_offline-Inv s v now }

require_group-Keeps : (name : String) → Keeps Inv (require_group name)
unfolding require_group
require_group-Keeps name = record { at = λ s v. ground arith }

require_node-Keeps : (node_id : String) → Keeps Inv (require_node node_id)
unfolding require_node
require_node-Keeps node_id = record { at = λ s v. ground arith }

get_group-Keeps : (read : ℕ) (name : String) → Keeps Inv (get_group read name)
unfolding get_group
get_group-Keeps read name = search (keeps_rules, expires, require_group-Keeps)

get_node-Keeps : (read : ℕ) (node_id : String) → Keeps Inv (get_node read node_id)
unfolding get_node
get_node-Keeps read node_id = search (keeps_rules, expires, require_node-Keeps)

set_group-Keeps :
    (name : String) (current : GroupInfo) (patch : GroupPolicyUpdate)
    → Keeps {E = StoreError} Inv (modify (set_group name (patch_row current patch)))
set_group-Keeps name current patch = record {
  at = λ s v. set_group-Inv s v name (patch_row current patch) (λ g. refl);
}

set_status-Keeps :
    (node_id : String) (status : MembershipStatus)
    → Keeps {E = StoreError} Inv
        (modify (set_node node_id (λ n. record n { membership_status = status })))
set_status-Keeps node_id status = record {
  at = λ s v.
      set_node-Inv s v node_id (λ n. record n { membership_status = status }) (λ n. refl)
        (λ n h. h);
}

beat-Keeps :
    (node_id : String) (now : ℕ) (req : HeartbeatRequest)
    → Keeps {E = StoreError} Inv (modify (set_node node_id (beat now req)))
beat-Keeps node_id now req = record {
  at = λ s v. set_node-Inv s v node_id (beat now req) (λ n. refl) (λ n h. h);
}

ruleset store_rules = (
  keeps_rules, expires, require_group-Keeps, require_node-Keeps, get_group-Keeps, get_node-Keeps,
  set_group-Keeps, set_status-Keeps, beat-Keeps,
)

create_group-Keeps :
    (now read : ℕ) (name description : String) (mode : JoinMode) (register parent : List String)
    → Keeps Inv (create_group now read name description mode register parent)
unfolding create_group
create_group-Keeps now read name description mode register parent =
    Keeps-then _ _ (record { at = λ s v. insert_group-Inv s v _ }) (get_group-Keeps read name)

update_group-Keeps :
    (first read : ℕ) (name : String) (patch : GroupPolicyUpdate)
    → Keeps Inv (update_group first read name patch)
unfolding update_group
update_group-Keeps first read name patch = search (store_rules) depth 9

delete_group-Keeps : (name : String) → Keeps Inv (delete_group name)
unfolding delete_group
delete_group-Keeps name = record { at = λ s v. ground (arith, delete_group_rows-Inv s v name) }

get_each-Keeps : (read : String → ℕ) (names : List String) → Keeps Inv (get_each read names)
unfolding get_each
get_each-Keeps read [] = Keeps-pure []
get_each-Keeps read (name ∷ names) =
    Keeps-bind _ _ (get_group-Keeps (read name) name)
      λ info. Keeps-bind _ _ (get_each-Keeps read names) (λ rest. Keeps-pure (info ∷ rest))

list_groups-Keeps : (now : ℕ) (read : String → ℕ) → Keeps Inv (list_groups now read)
unfolding list_groups
list_groups-Keeps now read = search (store_rules, get_each-Keeps) depth 9

set_membership-Keeps :
    (first read : ℕ) (group node_id : String) (status : MembershipStatus)
    → Keeps Inv (set_membership first read group node_id status)
unfolding set_membership
set_membership-Keeps first read group node_id status = search (store_rules) depth 9

heartbeat-Keeps :
    (first now read : ℕ) (node_id : String) (req : HeartbeatRequest)
    → Keeps Inv (heartbeat first now read node_id req)
unfolding heartbeat
heartbeat-Keeps first now read node_id req = search (store_rules) depth 9

query_catalog-Keeps : (now : ℕ) (query : CatalogQuery) → Keeps Inv (query_catalog now query)
unfolding query_catalog
query_catalog-Keeps now query = search (store_rules) depth 9

write_node-Inv :
    (req : NodeRegisterRequest) (node_id : String) (now : ℕ) (group : GroupRow)
    (existing : Option NodeRow) (s : Store)
    → Inv s
    → node_with_id node_id s ≡ existing
    → Mem req.group (keys group_key s.groups)
    → Inv (write_node req node_id now group existing s)
unfolding write_node
write_node-Inv req node_id now group none s v e there = append_node-Inv s v _ e there
write_node-Inv req node_id now group (some row) s v e there =
    set_node-Inv s v node_id _ (λ n. refl) (λ n h. there)

group_there :
    (name : String) (s : Store) (group : GroupRow)
    → group_named name s ≡ some group
    → Mem name (keys group_key s.groups)
group_there name s group e =
    rw (find_key group_key name s.groups group e) at
      (mem-map_of_mem group_key (find-mem group_key name s.groups group e))

register_node-Keeps :
    (first now read : ℕ) (uuid : String) (req : NodeRegisterRequest)
    → Keeps Inv (register_node first now read uuid req)
unfolding register_node
register_node-Keeps first now read uuid req = record {
  at = λ s v.
      let s' = expire_offline first s in
      let v' = expire_offline-Inv s v first in
      let node_id = chosen_id req uuid in
      elim (Option-cases (group_named req.group s')) [
        | inl e ↦ rw (e, require_group) v'
        | inr (group, e) ↦
            let wrote =
              write_node-Inv req node_id now group (node_with_id node_id s') s' v' refl
                (group_there req.group s' group e) in
            rw (e, require_group) (ground (arith, v', (get_node-Keeps read node_id).at _ wrote))
      ];
}

pub data Call : Type 0 where
  create_group_call : (now read : ℕ) → String → String → JoinMode → List String → List String → Call
  update_group_call : (first read : ℕ) → String → GroupPolicyUpdate → Call
  delete_group_call : String → Call
  get_group_call : (read : ℕ) → String → Call
  list_groups_call : (now : ℕ) → (String → ℕ) → Call
  register_node_call : (first now read : ℕ) → String → NodeRegisterRequest → Call
  set_membership_call : (first read : ℕ) → String → String → MembershipStatus → Call
  heartbeat_call : (first now read : ℕ) → String → HeartbeatRequest → Call
  get_node_call : (read : ℕ) → String → Call
  query_catalog_call : (now : ℕ) → CatalogQuery → Call

-- The store after a call, whether it returned or raised.
unfoldable pub step : Call → Store → Store
step (create_group_call now read name d m r p) s = (create_group now read name d m r p s).1
step (update_group_call first read name patch) s = (update_group first read name patch s).1
step (delete_group_call name) s = (delete_group name s).1
step (get_group_call read name) s = (get_group read name s).1
step (list_groups_call now read) s = (list_groups now read s).1
step (register_node_call first now read uuid req) s = (register_node first now read uuid req s).1
step (set_membership_call first read g n status) s = (set_membership first read g n status s).1
step (heartbeat_call first now read n req) s = (heartbeat first now read n req s).1
step (get_node_call read n) s = (get_node read n s).1
step (query_catalog_call now query) s = (query_catalog now query s).1

step-Inv : (c : Call) (s : Store) → Inv s → Inv (step c s)
unfolding step
step-Inv (create_group_call now read name d m r p) s v =
    (create_group-Keeps now read name d m r p).at s v
step-Inv (update_group_call first read name patch) s v =
    (update_group-Keeps first read name patch).at s v
step-Inv (delete_group_call name) s v = (delete_group-Keeps name).at s v
step-Inv (get_group_call read name) s v = (get_group-Keeps read name).at s v
step-Inv (list_groups_call now read) s v = (list_groups-Keeps now read).at s v
step-Inv (register_node_call first now read uuid req) s v =
    (register_node-Keeps first now read uuid req).at s v
step-Inv (set_membership_call first read g n status) s v =
    (set_membership-Keeps first read g n status).at s v
step-Inv (heartbeat_call first now read n req) s v = (heartbeat-Keeps first now read n req).at s v
step-Inv (get_node_call read n) s v = (get_node-Keeps read n).at s v
step-Inv (query_catalog_call now query) s v = (query_catalog-Keeps now query).at s v

unfoldable pub run : List Call → Store → Store
run [] s = s
run (c ∷ cs) s = run cs (step c s)

-- From a store that meets the constraints of the schema (unique group names, unique node ids, and
-- every node's group present), any calls, failing or not, lead to one that does.
pub run-Inv : (cs : List Call) (s : Store) → Inv s → Inv (run cs s)
unfolding run
run-Inv [] s v = v
run-Inv (c ∷ cs) s v = run-Inv cs (step c s) (step-Inv c s v)
