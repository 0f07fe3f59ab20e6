-- ===== src/Node/Host/Configure.antt =====
-- `apply_config` of src/mycoagent/node/runtime.py: what a configuration request changes of an agent.
use myco_agent.Common.{
  String, true, false, Option, none, some, List, [], is_nil, given, truthy, or_empty, ◌==◌,
  if◌then◌else◌,
}
use myco_agent.Text.{strip, lower, join}
use myco_agent.Node.Specs.{parse_models}
use myco_agent.Exec.{Result, ok, raise}
use myco_agent.Models.{
  ModelSpec, MachineSpec, SystemSpec, NodeRecord, NodeRegisterRequest, AgentConfigureRequest,
}
use myco_agent.Node.Host.{Profile, echo, tool_loop, open_code, reregister}

abbrev stripped : Option String → Option String → Option String
stripped none old = old
stripped (some t) old = if truthy (strip t) then some (strip t) else none

abbrev or_old : {A : Type 0} → Option A → A → A
or_old none old = old
or_old (some a) old = a

-- The executor that `mode` selects for an agent with this LLM's URL.
unfoldable pub select_executor : (mode : String) → Profile → Profile
select_executor mode p =
    if mode == "opencode"
    then record p { llm_base_url = none; executor = open_code; has_planner = false }
    else if mode == "echo"
    then record p { executor = echo; has_planner = false }
    else if given p.llm_base_url
    then record p { executor = tool_loop; has_planner = true }
    else record p { executor = echo; has_planner = false }

-- `parse_models(",".join(names)) if names else []`
unfoldable pub models_of : List String → Option (List ModelSpec)
models_of names = if is_nil names then some [] else parse_models (some (join "," names))

abbrev pub new_models : Option (List String) → List ModelSpec → Option (List ModelSpec)
new_models none old = some old
new_models (some names) old = models_of names

-- The fields that `apply_config` sets before it reads the models.
unfoldable pub named : AgentConfigureRequest → Profile → Profile
named body p = record p {
  name = if given body.name then or_empty body.name else p.name;
  skills = or_old body.skills p.skills;
  tools_declared = or_old body.tools p.tools_declared;
  tools_available = or_old body.tools p.tools_available;
}

-- The models, and the fields after them.
unfoldable pub configured : AgentConfigureRequest → List ModelSpec → Profile → Profile
configured body models p = record p {
  models = models;
  llm_base_url = stripped body.llm_url p.llm_base_url;
  llm_api_key = stripped body.llm_key p.llm_api_key;
  llm_model = stripped body.llm_model p.llm_model;
}

unfoldable pub executor_mode : Option String → String
executor_mode executor = lower (strip (if given executor then or_empty executor else "auto"))

-- What `apply_config` raises: the `ValueError` of `parse_models`, or the exception of the registration.
pub data ConfigError : Type 0 where
  unreadable_models : ConfigError
  unregistered : String → ConfigError

abbrev pub registered : Result String NodeRecord × Profile → Result ConfigError NodeRecord × Profile
registered (ok answer, p) = (ok answer, p)
registered (raise exc, p) = (raise (unregistered exc), p)

-- `apply_config`; where it raises, what was set before stays.
unfoldable pub apply_config :
    (register : NodeRegisterRequest → Result String NodeRecord)
    → MachineSpec
    → SystemSpec
    → AgentConfigureRequest
    → Profile
    → Result ConfigError NodeRecord × Profile
unfolding models_of
apply_config register machine system body p = elim (new_models body.models p.models) [
  | none ↦ (raise unreadable_models, named body p)
  | some models ↦ registered (
      reregister register machine system
        (select_executor (executor_mode body.executor) (configured body models (named body p))))
]
