-- ===== src/Manager/Api.antt =====
-- src/mycoagent/manager/api.py: the handlers, from the outcome of the store's method to a response.
pub mod Caught
use Prim.Native.String.{◌++◌ as join_texts}
use myco_agent.Common.{ℕ, String, Bool, true, false, not, Option, none, some, List, if◌then◌else◌}
use myco_agent.Exec.{Result, ok, raise}
use myco_agent.Models.{
  GroupInfo, GroupPolicyUpdate, JoinMode, NodeRegisterRequest, HeartbeatRequest, CatalogQuery,
  MembershipStatus, NodeRecord,
}
use myco_agent.Manager.Tables.{Store}
use myco_agent.Manager.Store.{
  StoreError, group_exists, group_not_found, node_not_found, register_forbidden, membership_error,
  StoreM, create_group, list_groups, get_group, update_group, delete_group, set_membership,
  register_node, heartbeat, get_node, query_catalog,
}

-- `HTTPException`'s status and detail, or an exception that the handler lets through (status 500).
pub data Response (A : Type 0) : Type 0 where
  answer : A → Response A
  http_error : ℕ → String → Response A
  uncaught : StoreError → Response A

abbrev pub Handler : Type 0 → Type 0
Handler A = Store → Response A × Store

-- The `except` clauses of a handler: the error that a store's error becomes.
abbrev pub Excepts : Type 0
Excepts = StoreError → Option (ℕ × String)

unfoldable pub respond : {A : Type 0} → Excepts → Result StoreError A → Response A
respond excepts (ok a) = answer a
respond excepts (raise e) = elim (excepts e) [
  | none ↦ uncaught e
  | some error ↦ http_error error.0 error.1
]

abbrev pub handled : {A : Type 0} → Excepts → StoreM A → Handler A
handled excepts m s = (respond excepts (m s).0, (m s).1)

abbrev about : String → String → String
about text name = join_texts text name

unfoldable pub no_group : String → Excepts
no_group name (group_not_found x) = some (404, about "group not found: " name)
no_group name _ = none

unfoldable pub no_node : String → Excepts
no_node node_id (node_not_found x) = some (404, about "node not found: " node_id)
no_node node_id _ = none

unfoldable pub name_taken : String → Excepts
name_taken name (group_exists x) = some (409, about "group already exists: " name)
name_taken name _ = none

unfoldable pub not_member : String → String → Excepts
not_member name node_id (group_not_found x) = some (404, about "group not found: " name)
not_member name node_id (node_not_found x) = some (404, about "node not found: " node_id)
not_member name node_id membership_error = some (400, "node is not in this group")
not_member name node_id _ = none

unfoldable pub not_registered : String → Excepts
not_registered group (group_not_found x) = some (404, about "group not found: " group)
not_registered group register_forbidden = some (403, "not allowed to register in this group")
not_registered group _ = none

pub data Request : Type 0 where
  get_group_request : (read : ℕ) → String → Request
  update_group_request : (first read : ℕ) → String → GroupPolicyUpdate → Request
  delete_group_request : String → Request
  approve_request : (first read : ℕ) → String → String → Request
  deny_request : (first read : ℕ) → String → String → Request
  heartbeat_request : (first now read : ℕ) → String → HeartbeatRequest → Request
  get_node_request : (read : ℕ) → String → Request
  catalog_request : (now : ℕ) → CatalogQuery → Request

-- The status code of the response.
unfoldable pub status_code : {A : Type 0} → Response A → ℕ
status_code (answer a) = 200
status_code (http_error code detail) = code
status_code (uncaught e) = 500

unfoldable pub create_group_handler :
    (now read : ℕ) → String → String → JoinMode → List String → List String → Handler GroupInfo
create_group_handler now read name description mode register parent =
    handled (name_taken name) (create_group now read name description mode register parent)

unfoldable pub list_groups_handler : (now : ℕ) → (String → ℕ) → Handler (List GroupInfo)
list_groups_handler now read = handled (λ e. none) (list_groups now read)

unfoldable pub get_group_handler : (read : ℕ) → String → Handler GroupInfo
get_group_handler read name = handled (no_group name) (get_group read name)

unfoldable pub update_group_handler :
    (first read : ℕ) → String → GroupPolicyUpdate → Handler GroupInfo
update_group_handler first read name body =
    handled (no_group name) (update_group first read name body)

unfoldable pub delete_group_handler : String → Handler (Unit {0})
delete_group_handler name = handled (no_group name) (delete_group name)

unfoldable pub approve_member : (first read : ℕ) → String → String → Handler NodeRecord
approve_member first read name node_id =
    handled (not_member name node_id)
      (set_membership first read name node_id MembershipStatus.approved)

unfoldable pub deny_member : (first read : ℕ) → String → String → Handler NodeRecord
deny_member first read name node_id =
    handled (not_member name node_id)
      (set_membership first read name node_id MembershipStatus.denied)

unfoldable pub register_handler :
    (first now read : ℕ) → (uuid : String) → NodeRegisterRequest → Handler NodeRecord
register_handler first now read uuid body =
    handled (not_registered body.group) (register_node first now read uuid body)

unfoldable pub heartbeat_handler :
    (first now read : ℕ) → String → HeartbeatRequest → Handler NodeRecord
heartbeat_handler first now read node_id body =
    handled (no_node node_id) (heartbeat first now read node_id body)

unfoldable pub get_node_handler : (read : ℕ) → String → Handler NodeRecord
get_node_handler read node_id = handled (no_node node_id) (get_node read node_id)

unfoldable pub catalog_handler : (now : ℕ) → CatalogQuery → Handler (List NodeRecord)
catalog_handler now query = handled (no_group query.group) (query_catalog now query)

-- The status code that a request is answered with.
unfoldable pub serve : Request → Store → ℕ
serve (get_group_request read name) s = status_code (get_group_handler read name s).0
serve (update_group_request first read name body) s =
    status_code (update_group_handler first read name body s).0
serve (delete_group_request name) s = status_code (delete_group_handler name s).0
serve (approve_request first read name node_id) s =
    status_code (approve_member first read name node_id s).0
serve (deny_request first read name node_id) s =
    status_code (deny_member first read name node_id s).0
serve (heartbeat_request first now read node_id body) s =
    status_code (heartbeat_handler first now read node_id body s).0
serve (get_node_request read node_id) s = status_code (get_node_handler read node_id s).0
serve (catalog_request now query) s = status_code (catalog_handler now query s).0
