-- ===== src/Cli/Ctl.antt =====
-- The commands of `ctl` of src/mycoagent/cli.py: the request that each sends.
pub mod Query
use mathlib.Core.List
use myco_agent.Common.{
  ℕ, String, Bool, true, false, not, ◌&&◌, Option, none, some, List, [], ◌∷◌, ◌++◌, map, given,
  or_empty, ◌==◌, if◌then◌else◌,
}
use myco_agent.Models.{
  Fields, end, field, Json, text, arr, Items, nil, cons, SubtaskSpec, JobSubmitRequest,
  ForwardRequest,
}
use myco_agent.Text.{strip, rstrip, split, cat}
use myco_agent.Text.Once.{split_once}
use myco_agent.Auth.{resolve_token, bearer_headers}
use myco_agent.Node.Specs.{parse_csv}
use myco_agent.Manager.Client.{Params, text_param, all_param, number_param}

-- What a request carries: nothing, a JSON object, or the dump of a record.
pub data Body : Type 0 where
  no_body : Body
  json : Fields → Body
  submission : JobSubmitRequest → Body
  forwarding : ForwardRequest → Body

pub record Request : Type 0 where
  pub method : String
  pub url : String
  pub params : Params
  pub body : Body
  pub headers : List (String × String)

abbrev pub texts : List String → Items
texts [] = nil
texts (x ∷ xs) = cons (text x) (texts xs)

-- A field of the body for an option that is given
abbrev pub field_for : {A : Type 0} → String → (A → Json) → Option A → Fields → Fields
field_for key value none rest = rest
field_for key value (some a) rest = field key (value a) rest

abbrev pub names : String → Json
names value = arr (texts (parse_csv (some value)))

-- The texts of an option for several names; blank ones stay.
abbrev pub items : Option String → List String
items value = if given value then map strip (split b',' (or_empty value)) else []

unfoldable pub subtask_spec : (raw : String) → SubtaskSpec
subtask_spec raw = elim (split_once b'|' raw) [
  | none ↦ spec raw []
  | some (description, skill) ↦ spec (strip description) (strip skill ∷ [])
]
  where
    spec : String → List String → SubtaskSpec
    spec description skills = record {
      description = description;
      skills = skills;
      tools = [];
      payload = end;
      model = none;
      min_context_window = none;
      min_memory_mb = none;
    }

-- `decimal` is `str` of a number.
unfoldable pub ctl_catalog_params :
    (decimal : ℕ → String)
    → (group : String) → (idle_only : Bool) → (skills tools model : Option String)
    → (min_context_window min_memory_mb : Option ℕ) → Params
ctl_catalog_params decimal group idle_only skills tools model min_context_window min_memory_mb =
    ("group", group)
    ∷ (("idle_only", if idle_only then "true" else "false")
        ∷ (all_param "skills" (items skills)
            ++ (all_param "tools" (items tools)
                ++ (text_param "model" model
                    ++ (number_param decimal "min_context_window" min_context_window
                        ++ number_param decimal "min_memory_mb" min_memory_mb)))))

-- `env` is the variable of the token.
module _ (env : Option String) where
  unfoldable pub ctl_headers : List (String × String)
  ctl_headers = bearer_headers (resolve_token none env)

  abbrev pub request : (method base path : String) → Params → Body → Request
  request method base path params body = record {
    method = method;
    url = cat (rstrip b'/' base) path;
    params = params;
    body = body;
    headers = ctl_headers;
  }

  unfoldable pub groups_create :
      (manager_url name description join_mode : String)
      → (allow_register allow_parent : Option String) → Request
  groups_create manager_url name description join_mode allow_register allow_parent =
      request "POST" manager_url "/groups" [] (
        json (
          field "name" (text name) (
            field "description" (text description) (
              field "join_mode" (text join_mode) (
                field "allow_register" (arr (texts (parse_csv allow_register)))
                  (field "allow_parent" (arr (texts (parse_csv allow_parent))) end))))))

  unfoldable pub groups_update :
      (manager_url name : String)
      → (description join_mode allow_register allow_parent : Option String) → Request
  groups_update manager_url name description join_mode allow_register allow_parent =
      request "PATCH" manager_url (cat "/groups/" name) [] (
        json (
          field_for "description" text description (
            field_for "join_mode" text join_mode (
              field_for "allow_register" names allow_register
                (field_for "allow_parent" names allow_parent end)))))

  unfoldable pub group_get : (manager_url name : String) → Request
  group_get manager_url name = request "GET" manager_url (cat "/groups/" name) [] no_body

  unfoldable pub groups_list : (manager_url : String) → Request
  groups_list manager_url = request "GET" manager_url "/groups" [] no_body

  unfoldable pub ctl_approve : (manager_url group node_id : String) → Request
  ctl_approve manager_url group node_id =
      request "POST" manager_url (cat "/groups/" (cat group (cat "/approve/" node_id))) [] no_body

  unfoldable pub ctl_deny : (manager_url group node_id : String) → Request
  ctl_deny manager_url group node_id =
      request "POST" manager_url (cat "/groups/" (cat group (cat "/deny/" node_id))) [] no_body

  unfoldable pub ctl_catalog : (manager_url : String) → Params → Request
  ctl_catalog manager_url params = request "GET" manager_url "/catalog" params no_body

  unfoldable pub submit : (node_url description : String) → (subtask : List String) → Request
  submit node_url description subtask =
      request "POST" node_url "/jobs" []
        (submission (record { description = description; subtasks = map subtask_spec subtask }))

  -- The one command that sends no token
  unfoldable pub job_get : (node_url job_id : String) → Request
  job_get node_url job_id = record (request "GET" node_url (cat "/jobs/" job_id) [] no_body) {
    headers = [];
  }

  unfoldable pub forward :
      (node_url job_id description : String)
      → (source_subtask target skills tools : Option String) → Request
  forward node_url job_id description source_subtask target skills tools =
      request "POST" node_url (cat "/jobs/" (cat job_id "/forward")) [] (
        forwarding (record {
          description = description;
          skills = parse_csv skills;
          tools = parse_csv tools;
          payload = end;
          source_subtask_id = source_subtask;
          target_node_id = target;
        }))
