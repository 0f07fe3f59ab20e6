-- ===== src/Cli/Specs.antt =====
-- `_resolve_specs` of src/mycoagent/cli.py: the agents of a host, from the options or the configuration file. What the
-- configuration file and OpenCode's directories hold are parameters; the files that keep the agents' ids are the state.
pub mod Rooted
pub mod EnvId
use mathlib.Core.List
use myco_agent.Common.{
  ℕ, zero, suc, String, Bool, true, false, not, ◌&&◌, ◌||◌, Option, none, some, List, [], ◌∷◌, map,
  contains, is_nil, is_some, truthy, given, or_empty, ◌==◌, if◌then◌else◌,
}
use myco_agent.Exec.{Exec, Result, ok, raise, pure, throw, ◌>>=◌, ◌>>◌}
use myco_agent.Models.{Json, ModelSpec}
use myco_agent.Table.{find, put}
use myco_agent.Text.{strip, lower, rstrip, split, cat}
use myco_agent.Text.Once.{split_once}
use myco_agent.Node.Specs.{parse_csv, parse_models}
use myco_agent.Node.Names.{merge_names, resolve_agent_id}
use myco_agent.Node.Capabilities.Paths.{PathLib, load_names, load_capabilities}
use myco_agent.Node.Host.{
  Kind, echo, tool_loop, open_code, Profile, AgentSpec, Paths, attach_spec_llm, host_runtime,
  or_kind,
}
use myco_agent.Node.LocalConfig.{LocalAgentConfig, select_agent, spec_from_local}
use myco_agent.Cli.{CliError, CliM, bad_parameter, uncaught, refused}
use myco_agent.Cli.Options.{
  HostFlags, executor_and_planner, Named, entry_key, look, StartM, resolve_id, fields_of,
  given_or_none, lift, or_refused, or_uncaught, with_root, root_alone,
}

-- `uuids` are fresh ids, and `discovered` is what OpenCode's directories hold: skills and tools.
module _ (str : Json → String) (loads : String → Option Json) (fs : PathLib)
    (env_id : Option String) (uuids : ℕ → String) (discovered : List String × List String) where
  abbrev pub from_cap : Option String → Option (List String × List String)
  from_cap capabilities_file =
      if given capabilities_file
      then load_capabilities str loads fs (or_empty capabilities_file)
      else some ([], [])

  abbrev pub names_file : (kind : String) → Option String → Option (List String)
  names_file kind file =
      if given file then load_names str loads fs (or_empty file) kind else some []

  -- `none` where a file cannot be read
  unfoldable pub skills_and_tools :
      (skills_csv tools_csv skills_file tools_file capabilities_file : Option String)
      → Option (List String × List String)
  skills_and_tools skills_csv tools_csv skills_file tools_file capabilities_file =
      elim (from_cap capabilities_file) [
        | none ↦ none
        | some (cap_skills, cap_tools) ↦ elim (names_file "skills" skills_file) [
          | none ↦ none
          | some file_skills ↦ elim (names_file "tools" tools_file) [
            | none ↦ none
            | some file_tools ↦ some (
              merge_names (parse_csv skills_csv ∷ (cap_skills ∷ (file_skills ∷ []))),
              merge_names (parse_csv tools_csv ∷ (cap_tools ∷ (file_tools ∷ []))),
            )
          ]
        ]
      ]

  abbrev pub option_spec :
      (name : String)
      → List Named
      → List String × List String
      → List ModelSpec
      → (agent_id : String) → AgentSpec
  option_spec name fields (skills, tools) models agent_id = record {
    name = name;
    skills = skills;
    tools = tools;
    models = models;
    agent_id = some agent_id;
    root_mailbox = false;
    executor = none;
    has_planner = false;
    llm_base_url = given_or_none (look "llm_url" fields);
    llm_api_key = given_or_none (look "llm_key" fields);
    llm_model = given_or_none (look "llm_model" fields);
  }

  unfoldable pub parse_agent_option : (uuid raw : String) → StartM AgentSpec
  parse_agent_option uuid raw = do
    fields ← lift (fields_of (split b',' raw) [])
    name ←
        if given (look "name" fields)
        then pure (or_empty (look "name" fields))
        else throw (bad_parameter "--agent needs name=...")
    names ← or_refused (
        skills_and_tools (look "skills" fields) (look "tools" fields) (look "skills_file" fields)
          (look "tools_file" fields) (look "capabilities_file" fields))
    models ← or_uncaught (parse_models (look "models" fields))
    agent_id ← resolve_id uuid (look "id" fields) env_id (look "id_file" fields)
    pure (option_spec name fields names models agent_id)

  -- The list of `agents`; the `k`-th has the fresh id `uuids k`.
  unfoldable pub parse_agent_options : (k : ℕ) → List String → StartM (List AgentSpec)
  parse_agent_options k [] = pure []
  parse_agent_options k (raw ∷ raws) = do
    spec ← parse_agent_option (uuids k) raw
    specs ← parse_agent_options (suc k) raws
    pure (spec ∷ specs)

  unfoldable pub agent_specs : HostFlags → StartM (List AgentSpec)
  agent_specs flags =
      if not (is_nil flags.agents)
      then parse_agent_options zero flags.agents >>= (λ specs. pure (root_alone specs))
      else if not (given flags.name)
      then throw (bad_parameter "provide --name or at least one --agent")
      else do
        names ← or_refused (
            skills_and_tools flags.skills flags.tools flags.skills_file flags.tools_file
              flags.capabilities_file)
        models ← or_uncaught (parse_models flags.models)
        agent_id ← resolve_id (uuids zero) none env_id flags.id_file
        pure (with_root (option_spec (or_empty flags.name) [] names models agent_id) ∷ [])

  abbrev pub with_discovered : AgentSpec → AgentSpec
  with_discovered spec = record spec {
    skills = merge_names (spec.skills ∷ (discovered.0 ∷ []));
    tools = merge_names (spec.tools ∷ (discovered.1 ∷ []));
  }

  unfoldable pub merge_opencode_catalog : (executor_name : String) → List AgentSpec → List AgentSpec
  merge_opencode_catalog executor_name specs =
      if not (lower (strip executor_name) == "opencode") then specs else map with_discovered specs

  -- `entry.executor or executor_name or "auto"`
  abbrev pub entry_mode : LocalAgentConfig → (executor_name : String) → String
  entry_mode entry executor_name = lower (
      strip (
        if truthy entry.executor
        then entry.executor
        else if truthy executor_name
        then executor_name
        else "auto"))

  -- The agent of the configuration file that `name` selects
  unfoldable pub local_specs : HostFlags → List LocalAgentConfig → StartM (List AgentSpec)
  local_specs flags file = do
    entry ← or_refused (select_agent file flags.name)
    spec ← or_uncaught (spec_from_local entry)
    agent_id ← resolve_id (uuids zero) none env_id flags.id_file
    pure (
        merge_opencode_catalog (entry_mode entry flags.executor_name)
          (record spec { root_mailbox = true; agent_id = some agent_id } ∷ []))

  abbrev pub flag_specs : HostFlags → StartM (List AgentSpec)
  flag_specs flags =
      agent_specs flags >>= (λ specs. pure (merge_opencode_catalog flags.executor_name specs))

  -- `load_local_config` gives the agents of the file, `none` where there is no such file, or raises.
  unfoldable pub resolve_specs :
      (load_local_config : String → CliM (Option (List LocalAgentConfig)))
      → HostFlags
      → StartM (List AgentSpec)
  resolve_specs load_local_config flags = if not (is_nil flags.agents) then flag_specs flags else do
    loaded ←
        lift (if given flags.config then load_local_config (or_empty flags.config) else ok none)
    elim loaded as (λ _. StartM (List AgentSpec)) [
      | none ↦ flag_specs flags
      | some file ↦ local_specs flags file
    ]
