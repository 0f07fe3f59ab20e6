-- ===== src/Node/LocalConfig.antt =====
-- src/mycoagent/node/local_config.py: the agents of the configuration file. Reading and writing the file are
-- left out; what OpenCode's directories hold is a parameter.
pub mod Configured
mod Tests
use myco_agent.Common.{
  ℕ, String, Bool, true, false, not, ◌&&◌, ◌||◌, Option, none, some, List, [], ◌∷◌, ◌++◌, map, all,
  is_nil, truthy, given, or_empty, length, ltb, ◌-◌, ◌==◌, if◌then◌else◌,
}
use myco_agent.Models.{ModelSpec}
use myco_agent.Text.{strip, lower, rstrip, join, cat}
use myco_agent.Node.Specs.{parse_models}
use myco_agent.Node.Names.{merge_names}
use myco_agent.Node.Host.{AgentSpec, Kind, echo, open_code}

pub record LocalAgentConfig : Type 0 where
  pub name : String
  pub skills : List String
  pub tools : List String
  pub executor : String
  pub llm_url : String
  pub llm_model : String
  pub llm_key : String
  pub models : List String

unfoldable pub agent_is_configured : LocalAgentConfig → Bool
agent_is_configured agent =
    let mode = lower (strip agent.executor) in
    if not (truthy (strip agent.name))
    then false
    else if mode == "opencode"
    then true
    else if truthy (strip agent.llm_url)
    then true
    else mode == "echo"

unfoldable pub is_configured : Option (List LocalAgentConfig) → Bool
is_configured none = false
is_configured (some agents) = if is_nil agents then false else all agent_is_configured agents

unfoldable pub agent_named : String → List LocalAgentConfig → Option LocalAgentConfig
agent_named name [] = none
agent_named name (agent ∷ agents) =
    let rest = agent_named name agents in if agent.name == name then some agent else rest

abbrev pub only_agent : List LocalAgentConfig → Option LocalAgentConfig
only_agent (agent ∷ []) = some agent
only_agent _ = none

-- `none` where it raises `KeyError`
unfoldable pub select_agent : List LocalAgentConfig → Option String → Option LocalAgentConfig
select_agent agents name =
    if given name then agent_named (or_empty name) agents else only_agent agents

-- `value.strip() or None`
abbrev pub stripped_or_none : String → Option String
stripped_or_none value = if truthy (strip value) then some (strip value) else none

abbrev pub spec_with : LocalAgentConfig → (mode : String) → List ModelSpec → AgentSpec
spec_with entry mode models = record {
  name = entry.name;
  skills = entry.skills;
  tools = entry.tools;
  models = models;
  agent_id = none;
  root_mailbox = false;
  executor =
      if mode == "echo" then some echo else if mode == "opencode" then some open_code else none;
  has_planner = false;
  llm_base_url =
      if mode == "echo" || mode == "opencode" then none else stripped_or_none entry.llm_url;
  llm_api_key = stripped_or_none entry.llm_key;
  llm_model = stripped_or_none entry.llm_model;
}

-- `none` where `parse_models` raises
unfoldable pub spec_from_local : LocalAgentConfig → Option AgentSpec
spec_from_local entry =
    let mode = lower (strip (if truthy entry.executor then entry.executor else "auto")) in
    elim (if is_nil entry.models then some [] else parse_models (some (join "," entry.models))) [
      | none ↦ none
      | some models ↦ some (spec_with entry mode models)
    ]

-- `discovered` is what `discover_opencode_catalog` finds: skills and tools.
module _ (discovered : List String × List String) where
  unfoldable pub set_executor : Option String → LocalAgentConfig → LocalAgentConfig
  set_executor none agent = agent
  set_executor (some executor) agent =
      let mode = if truthy (strip executor) then strip executor else agent.executor in
      let (found_skills, found_tools) = discovered in
      if mode == "opencode"
      then record agent {
        executor = mode;
        llm_url = "";
        skills = merge_names (agent.skills ∷ (found_skills ∷ []));
        tools = merge_names (agent.tools ∷ (found_tools ∷ []));
      }
      else record agent { executor = mode }

  unfoldable pub set_url : Option String → LocalAgentConfig → LocalAgentConfig
  set_url none agent = agent
  set_url (some llm_url) agent = if agent.executor == "opencode" then agent else record agent {
    llm_url = llm_url;
    executor = if truthy (strip llm_url) then "auto" else "echo";
  }

  unfoldable pub set_model : Option String → LocalAgentConfig → LocalAgentConfig
  set_model none agent = agent
  set_model (some llm_model) agent =
      if agent.executor == "opencode" then agent else record agent { llm_model = llm_model }

  unfoldable pub set_key : Option String → LocalAgentConfig → LocalAgentConfig
  set_key none agent = agent
  set_key (some llm_key) agent =
      if agent.executor == "opencode" then agent else record agent { llm_key = llm_key }

  unfoldable pub name_model : LocalAgentConfig → LocalAgentConfig
  name_model agent =
      if truthy (strip agent.llm_model) && is_nil agent.models && not (agent.executor == "opencode")
      then record agent { models = cat agent.llm_model ":local:8192" ∷ [] }
      else agent

  -- The loop's body
  unfoldable pub flagged :
      (llm_url llm_model llm_key executor : Option String) → LocalAgentConfig → LocalAgentConfig
  flagged llm_url llm_model llm_key executor agent =
      name_model
        (set_key llm_key (set_model llm_model (set_url llm_url (set_executor executor agent))))

  unfoldable pub apply_flags :
      (llm_url llm_model llm_key executor : Option String)
      → List LocalAgentConfig
      → List LocalAgentConfig
  apply_flags llm_url llm_model llm_key executor agents =
      map (flagged llm_url llm_model llm_key executor) agents

  abbrev pub seed_agent :
      (name llm_url llm_model llm_key executor : String)
      → (models skills tools : List String) → LocalAgentConfig
  seed_agent name llm_url llm_model llm_key executor models skills tools = record {
    name = name;
    skills = skills;
    tools = tools;
    executor = executor;
    llm_url = llm_url;
    llm_model = llm_model;
    llm_key = llm_key;
    models = models;
  }

  unfoldable pub default_mode : (llm_url : String) → (executor : Option String) → String
  default_mode llm_url executor =
      if given executor && truthy (strip (or_empty executor))
      then lower (strip (or_empty executor))
      else if truthy (strip llm_url)
      then "auto"
      else "echo"

  unfoldable pub default_agents :
      (llm_url llm_model llm_key : String) → (executor : Option String) → List LocalAgentConfig
  default_agents llm_url llm_model llm_key executor =
      let mode = default_mode llm_url executor in
      let models = if truthy (strip llm_model) then cat llm_model ":local:8192" ∷ [] else [] in
      let (found_skills, found_tools) = discovered in
      let coding = "coding" ∷ [] in
      let shell = "shell" ∷ [] in
      let skills =
        if is_nil found_skills then coding else merge_names (coding ∷ (found_skills ∷ [])) in
      let tools = merge_names (shell ∷ (found_tools ∷ [])) in
      if mode == "opencode"
      then map (λ name. seed_agent name "" "" llm_key mode [] skills tools)
          ("alpha" ∷ ("beta" ∷ []))
      else map (λ name. seed_agent name llm_url llm_model llm_key mode models coding shell)
          ("alpha" ∷ ("beta" ∷ []))

-- What became of a POST to a host: none, or the text of the failure; `number_text` is `str` of a number.
unfoldable pub post_each :
    (post : (url : String) → LocalAgentConfig → Option String)
    → List LocalAgentConfig
    → (host_urls : List String) → List String
post_each post [] host_urls = []
post_each post (agent ∷ agents) [] = []
post_each post (agent ∷ agents) (host ∷ host_urls) =
    let rest = post_each post agents host_urls in
    elim (post (cat (rstrip b'/' host) "/configure") agent) [
      | none ↦ rest
      | some failure ↦ cat host (cat ": " failure) ∷ rest
    ]

unfoldable pub apply_config_to_hosts :
    (number_text : ℕ → String)
    → (post : (url : String) → LocalAgentConfig → Option String) → List LocalAgentConfig
    → (host_urls : List String) → List String
apply_config_to_hosts number_text post agents host_urls =
    let warnings = post_each post agents host_urls in
    if ltb (length host_urls) (length agents)
    then warnings
      ++ cat (number_text (length agents - length host_urls))
          " agent(s) in yaml have no host URL to POST /configure"
        ∷ []
    else warnings
