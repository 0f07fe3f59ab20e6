-- ===== src/Node/Host.antt =====
-- src/mycoagent/node/runtime.py: `HostRuntime`, one process with several agents, and `reregister` of an
-- agent.
pub mod Configure
pub mod Config
pub mod Reach
use Prim.Native.String.{◌++◌ as join_texts}
use myco_agent.Common.{
  ℕ, String, Bool, true, false, not, ◌&&◌, Option, none, some, List, [], ◌∷◌, ◌++◌, is_nil, given,
  truthy, or_empty, ◌==◌, nat_eq, length, if◌then◌else◌,
}
use myco_agent.Text.{strip, rstrip, lower, join}
use myco_agent.Node.Specs.{parse_models}
use myco_agent.Exec.{Result, ok, raise}
use myco_agent.Models.{
  ModelSpec, MachineSpec, SystemSpec, NodeRecord, NodeRegisterRequest, AgentConfigureRequest,
}
use myco_agent.Table.{find, put}

-- What does the work of an agent, and whether it plans: the executors of the source, by their classes.
pub data Kind : Type 0 where
  echo tool_loop open_code : Kind

-- The fields of an agent that `HostRuntime` gives it and that its configuration may change.
pub record Profile : Type 0 where
  pub name : String
  pub group : String
  pub mailbox_url : String
  pub node_id : Option String
  pub skills : List String
  pub tools_declared : List String
  pub tools_available : List String
  pub models : List ModelSpec
  pub job_db : Option String
  pub llm_base_url : Option String
  pub llm_api_key : Option String
  pub llm_model : Option String
  pub executor : Kind
  pub has_planner : Bool
  pub max_steps : ℕ

pub record AgentSpec : Type 0 where
  pub name : String
  pub skills : List String
  pub tools : List String
  pub models : List ModelSpec
  pub agent_id : Option String
  pub root_mailbox : Bool
  pub executor : Option Kind
  pub has_planner : Bool
  pub llm_base_url : Option String
  pub llm_api_key : Option String
  pub llm_model : Option String

-- The loop of `attach_spec_llms` at one spec.
unfoldable pub attach_spec_llm : AgentSpec → AgentSpec
attach_spec_llm spec =
    if given spec.llm_base_url
    then record spec { executor = some tool_loop; has_planner = true }
    else spec

-- `pathlib`'s stem, suffix and `with_name` of a path.
pub record Paths : Type 0 where
  pub stem : String → String
  pub suffix : String → String
  pub with_name : String → String → String

unfoldable pub job_db_path :
    Paths → (base : Option String) → (agent_id : String) → (shared : Bool) → Option String
job_db_path paths base agent_id shared =
    if not (given base)
    then none
    else if shared
    then base
    else (let path = or_empty base in
        let suffix = if truthy (paths.suffix path) then paths.suffix path else ".db" in
        some (
          paths.with_name path
            (join_texts (paths.stem path) (join_texts "-" (join_texts agent_id suffix)))))

abbrev pub mailbox_of : (advertise agent_id : String) → (root : Bool) → String
mailbox_of advertise agent_id root =
    if root then advertise else join_texts advertise (join_texts "/agents/" agent_id)

abbrev pub or_kind : Option Kind → Kind → Kind
or_kind none default = default
or_kind (some kind) default = kind

-- `AgentRuntime`'s default, which `HostRuntime` leaves as it is
abbrev pub default_max_steps : ℕ
default_max_steps = 12

-- The agent of a spec; `uuid` is the fresh id where the spec has none.
unfoldable pub agent_of :
    Paths
    → (group advertise : String) → (default : Kind) → (planner : Bool) → (job_base : Option String)
    → (shared : Bool) → (uuid : String) → AgentSpec
    → Profile
agent_of paths group advertise default planner job_base shared uuid spec =
    let agent_id = if given spec.agent_id then or_empty spec.agent_id else uuid in
    record {
      name = spec.name;
      group = group;
      mailbox_url = rstrip b'/' (mailbox_of advertise agent_id spec.root_mailbox);
      node_id = some agent_id;
      skills = spec.skills;
      tools_declared = spec.tools;
      tools_available = spec.tools;
      models = spec.models;
      job_db = job_db_path paths job_base agent_id shared;
      llm_base_url = spec.llm_base_url;
      llm_api_key = spec.llm_api_key;
      llm_model = spec.llm_model;
      executor = or_kind spec.executor default;
      has_planner = if spec.has_planner then true else planner;
      max_steps = default_max_steps;
    }

unfoldable pub agents_of :
    Paths
    → (group advertise : String) → (default : Kind) → (planner : Bool) → (job_base : Option String)
    → (shared : Bool) → (uuids : ℕ → String) → ℕ
    → List AgentSpec
    → List Profile
agents_of paths group advertise default planner job_base shared uuids k [] = []
agents_of paths group advertise default planner job_base shared uuids k (spec ∷ specs) =
    agent_of paths group advertise default planner job_base shared (uuids k) spec
    ∷ agents_of paths group advertise default planner job_base shared uuids (ℕ.suc k) specs

-- `HostRuntime(...)`: the agents in the order of their specs; `none` is the `ValueError` without specs.
unfoldable pub host_runtime :
    Paths
    → (group advertise : String) → (default : Kind) → (planner : Bool) → (job_base : Option String)
    → (uuids : ℕ → String) → List AgentSpec
    → Option (List Profile)
unfolding agents_of
host_runtime paths group advertise default planner job_base uuids specs =
    if is_nil specs
    then none
    else some (
        agents_of paths group (rstrip b'/' advertise) default planner job_base
          (nat_eq (length specs) 1) uuids 0 specs)

-- The request of `reregister`; `machine` and `system` are what the process detects.
unfoldable pub registration : MachineSpec → SystemSpec → Profile → NodeRegisterRequest
registration machine system p = record {
  name = p.name;
  group = p.group;
  mailbox_url = p.mailbox_url;
  machine = machine;
  system = system;
  models = p.models;
  skills = p.skills;
  tools_declared = p.tools_declared;
  tools_available = p.tools_available;
  node_id = p.node_id;
}

-- `reregister`: the Manager's answer gives the agent its id.
unfoldable pub reregister :
    (register : NodeRegisterRequest → Result String NodeRecord)
    → MachineSpec
    → SystemSpec
    → Profile
    → Result String NodeRecord × Profile
reregister register machine system p = elim (register (registration machine system p)) [
  | raise exc ↦ (raise exc, p)
  | ok answer ↦ (ok answer, record p { node_id = some answer.id })
]

abbrev pub entry_key : String × Profile → String
entry_key entry = entry.0

abbrev pub and_more :
    NodeRecord
    → Result String (List NodeRecord) × List (String × Profile)
    → Result String (List NodeRecord) × List (String × Profile)
and_more answer (raise exc, agents) = (raise exc, agents)
and_more answer (ok answers, agents) = (ok (answer ∷ answers), agents)

-- `HostRuntime.start`: each agent registers, and is known by the id of its record from then on; the
-- first that cannot register ends it.
unfoldable pub start_all :
    (register : NodeRegisterRequest → Result String NodeRecord)
    → MachineSpec
    → SystemSpec
    → List Profile
    → List (String × Profile)
    → Result String (List NodeRecord) × List (String × Profile)
unfolding reregister
start_all register machine system [] agents = (ok [], agents)
start_all register machine system (p ∷ rest) agents =
    let (r, p') = reregister register machine system p in
    elim r [
      | raise exc ↦ (raise exc, agents)
      | ok answer ↦
          and_more answer
            (start_all register machine system rest (put entry_key (answer.id, p') agents))
    ]

-- `require`: `none` is its `KeyError`.
unfoldable pub require : String → List (String × Profile) → Option Profile
require agent_id agents = elim (find entry_key agent_id agents) [
  | none ↦ none
  | some entry ↦ some entry.1
]

unfoldable pub root_alias : (advertise : String) → List Profile → Bool
root_alias advertise [] = false
root_alias advertise (p ∷ rest) = is_nil rest && p.mailbox_url == advertise
