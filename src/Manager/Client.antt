-- ===== src/Manager/Client.antt =====
-- src/mycoagent/node/client.py: the Manager's methods as a node calls them, through the handlers of Api.
-- The JSON of a body stands for the record that pydantic reads from it.
pub mod Params
pub mod Catalog
mod Tests
use myco_agent.Common.{
  ℕ, String, Bool, true, false, Option, none, some, List, [], ◌∷◌, ◌++◌, map, given, ◌==◌,
  if◌then◌else◌,
}
use myco_agent.Exec.{Exec, Result, ok, raise}
use myco_agent.Models.{
  JoinMode, GroupPolicyUpdate, GroupInfo, NodeRecord, NodeRegisterRequest, HeartbeatRequest,
  CatalogQuery,
}
use myco_agent.Manager.Tables.{Store}
use myco_agent.Manager.Api.{
  Response, Handler, answer, http_error, uncaught, create_group_handler, list_groups_handler,
  get_group_handler, update_group_handler, delete_group_handler, approve_member, deny_member,
  register_handler, heartbeat_handler, get_node_handler, catalog_handler,
}

-- `HTTPStatusError` with its code
abbrev pub ClientM : Type 0 → Type 0
ClientM A = Exec Store ℕ A

-- `raise_for_status`, and the reading of the answer
abbrev pub answered : {A : Type 0} → Response A → Result ℕ A
answered (answer a) = ok a
answered (http_error code detail) = raise code
answered (uncaught e) = raise 500

unfoldable pub send : {A : Type 0} → Handler A → ClientM A
send handler s = let (r, s') = handler s in (answered r, s')

abbrev pub or_nil : Option (List String) → List String
or_nil none = []
or_nil (some xs) = xs

unfoldable pub create_group :
    (now read : ℕ)
    → (name description : String) → JoinMode
    → (allow_register allow_parent : Option (List String)) → ClientM GroupInfo
create_group now read name description join_mode allow_register allow_parent = send (
    create_group_handler now read name description join_mode (or_nil allow_register)
      (or_nil allow_parent))

unfoldable pub update_group : (first read : ℕ) → String → GroupPolicyUpdate → ClientM GroupInfo
update_group first read name patch = send (update_group_handler first read name patch)

unfoldable pub approve : (first read : ℕ) → (group node_id : String) → ClientM NodeRecord
approve first read group node_id = send (approve_member first read group node_id)

unfoldable pub deny : (first read : ℕ) → (group node_id : String) → ClientM NodeRecord
deny first read group node_id = send (deny_member first read group node_id)

unfoldable pub get_node : (read : ℕ) → String → ClientM NodeRecord
get_node read node_id = send (get_node_handler read node_id)

unfoldable pub list_groups : (now : ℕ) → (String → ℕ) → ClientM (List GroupInfo)
list_groups now read = send (list_groups_handler now read)

unfoldable pub get_group : (read : ℕ) → String → ClientM GroupInfo
get_group read name = send (get_group_handler read name)

unfoldable pub delete_group : String → ClientM (Unit {0})
delete_group name = send (delete_group_handler name)

unfoldable pub register :
    (first now read : ℕ) → (uuid : String) → NodeRegisterRequest → ClientM NodeRecord
register first now read uuid req = send (register_handler first now read uuid req)

unfoldable pub heartbeat : (first now read : ℕ) → String → HeartbeatRequest → ClientM NodeRecord
heartbeat first now read node_id req = send (heartbeat_handler first now read node_id req)

-- The parameters of a URL, in order
abbrev pub Params : Type 0
Params = List (String × String)

abbrev pub text_param : String → Option String → Params
text_param name none = []
text_param name (some value) = if given (some value) then (name, value) ∷ [] else []

abbrev pub all_param : String → List String → Params
all_param name values = map (λ value. (name, value)) values

unfoldable pub value_of : String → Params → Option String
value_of name [] = none
value_of name ((k, v) ∷ params) =
    let found = value_of name params in if k == name then some v else found

unfoldable pub values_of : String → Params → List String
values_of name [] = []
values_of name ((k, v) ∷ params) =
    let found = values_of name params in if k == name then v ∷ found else found

abbrev pub combined :
    Option String
    → Option Bool
    → Option (Option ℕ)
    → Option (Option ℕ)
    → Params
    → Option CatalogQuery
combined (some group) (some idle_only) (some window) (some memory) params = some record {
  group = group;
  idle_only = idle_only;
  skills = values_of "skills" params;
  tools = values_of "tools" params;
  exclude_node_id = value_of "exclude_node_id" params;
  model = value_of "model" params;
  min_context_window = window;
  min_memory_mb = memory;
}
combined _ _ _ _ params = none

abbrev pub number_param : (decimal : ℕ → String) → String → Option ℕ → Params
number_param decimal name none = []
number_param decimal name (some n) = (name, decimal n) ∷ []

abbrev pub flag : (read_bool : String → Option Bool) → Option String → Option Bool
flag read_bool none = some true
flag read_bool (some value) = read_bool value

abbrev pub number : (read_int : String → Option ℕ) → Option String → Option (Option ℕ)
number read_int none = some none
number read_int (some value) = elim (read_int value) [ none ↦ none | some n ↦ some (some n) ]

abbrev pub asked : (now : ℕ) → Option CatalogQuery → ClientM (List NodeRecord)
asked now none s = (raise 422, s)
asked now (some query) s = send (catalog_handler now query) s

-- `decimal` is `str` of a number; `read_bool` and `read_int` are FastAPI's reading of a parameter.
module _ (decimal : ℕ → String) (read_bool : String → Option Bool)
    (read_int : String → Option ℕ) where
  -- The parameters that `ManagerClient.catalog` sends
  unfoldable pub catalog_params : CatalogQuery → Params
  catalog_params query =
      ("group", query.group)
      ∷ (("idle_only", if query.idle_only then "true" else "false")
          ∷ (text_param "exclude_node_id" query.exclude_node_id
              ++ (text_param "model" query.model
                  ++ (number_param decimal "min_context_window" query.min_context_window
                      ++ (number_param decimal "min_memory_mb" query.min_memory_mb
                          ++ (all_param "skills" query.skills ++ all_param "tools" query.tools))))))

  -- The query that the endpoint's signature reads from parameters, if it can
  unfoldable pub query_of : Params → Option CatalogQuery
  query_of params =
      combined (value_of "group" params) (flag read_bool (value_of "idle_only" params))
        (number read_int (value_of "min_context_window" params))
        (number read_int (value_of "min_memory_mb" params)) params

  unfoldable pub catalog : (now : ℕ) → CatalogQuery → ClientM (List NodeRecord)
  catalog now query = asked now (query_of (catalog_params query))
