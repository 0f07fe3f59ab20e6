-- ===== src/Node/Api/Apps.antt =====
-- The applications of src/mycoagent/node/api.py: which agent a path belongs to, and what is told of the agents.
use myco_agent.Common.{
  ℕ, String, Option, none, some, List, [], ◌∷◌, map, is_nil, length, nat_eq, ◌==◌, if◌then◌else◌,
}
use myco_agent.Exec.{Result, ok, raise}
use myco_agent.Models.{NodeStatus, NodeRecord, ModelSpec}
use myco_agent.Node.Host.{Profile, require}

-- `_agent_summary`
pub record Summary : Type 0 where
  pub id : Option String
  pub name : String
  pub status : NodeStatus
  pub mailbox_url : String

-- `_configure_result`
pub record Configured : Type 0 where
  pub id : String
  pub name : String
  pub skills : List String
  pub tools_declared : List String
  pub models : List ModelSpec
  pub status : NodeStatus

unfoldable pub configure_result : NodeRecord → Configured
configure_result r = record {
  id = r.id;
  name = r.name;
  skills = r.skills;
  tools_declared = r.tools_declared;
  models = r.models;
  status = r.status;
}

pub record Health : Type 0 where
  pub node_id : Option String
  pub group : String
  pub busy : NodeStatus
  pub agents : List Summary

-- A path of an application: without an agent's id, or with one.
pub data Scope : Type 0 where
  root : Scope
  scoped : String → Scope

-- `status` is the property of an agent.
module _ (status : Profile → NodeStatus) where
  unfoldable pub agent_summary : Profile → Summary
  agent_summary p = record {
    id = p.node_id;
    name = p.name;
    status = status p;
    mailbox_url = p.mailbox_url;
  }

  abbrev pub health_of : Profile → List Profile → Health
  health_of default agents = record {
    node_id = default.node_id;
    group = default.group;
    busy = status default;
    agents = map agent_summary agents;
  }

  unfoldable pub node_health : Profile → Health
  node_health runtime = health_of runtime (runtime ∷ [])

  -- `none` where a host has no agents, which it always has
  unfoldable pub host_health : List Profile → Option Health
  host_health [] = none
  host_health (default ∷ agents) = some (health_of default (default ∷ agents))

-- `create_node_app`'s `fetch`, and its two routers: `raise` is a response with the code.
unfoldable pub node_target : Profile → Scope → Result ℕ Profile
node_target runtime root = ok runtime
node_target runtime (scoped agent_id) = elim runtime.node_id [
  | none ↦ raise 404
  | some id ↦ if agent_id == id then ok runtime else raise 404
]

abbrev pub values : List (String × Profile) → List Profile
values = map (λ entry. entry.1)

-- `_agents`: those that are registered, or all where none is
unfoldable pub listed_agents :
    (ordered : List Profile) → (agents : List (String × Profile)) → List Profile
listed_agents ordered agents = if is_nil agents then ordered else values agents

-- `default_agent`
unfoldable pub default_agent :
    (ordered : List Profile) → (agents : List (String × Profile)) → Option Profile
unfolding listed_agents
default_agent ordered agents = elim (listed_agents ordered agents) [ [] ↦ none | p ∷ rest ↦ some p ]

abbrev pub or_404 : Option Profile → Result ℕ Profile
or_404 none = raise 404
or_404 (some p) = ok p

-- `create_host_app`: the paths without an id are there for a host with one agent.
unfoldable pub host_target :
    (ordered : List Profile) → (agents : List (String × Profile)) → Scope → Result ℕ Profile
unfolding default_agent
host_target ordered agents root =
    if nat_eq (length ordered) 1 then or_404 (default_agent ordered agents) else raise 404
host_target ordered agents (scoped agent_id) = or_404 (require agent_id agents)
