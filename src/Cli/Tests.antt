-- ===== src/Cli/Tests.antt =====
-- Runs of the commands of src/mycoagent/cli.py, and applications of the theorems on them.
use myco_agent.Common.{
  truthy, ℕ, nat_eq, String, ◌≡◌, refl, true, false, Option, none, some, List, [], ◌∷◌, ◌==◌,
  if◌then◌else◌, all,
}
use myco_agent.Exec.{ok}
use myco_agent.Models.{Json}
use myco_agent.Text.{strip, lower, split, join, lower_char}
use myco_agent.Node.Specs.{parse_csv, csv_items}
use myco_agent.Node.Providers.{ModelsReply}
use myco_agent.Node.LocalConfig.{LocalAgentConfig, is_configured, agent_is_configured}
use myco_agent.Text.{cat}
use myco_agent.Node.Capabilities.Paths.{PathLib}
use myco_agent.Node.Host.{AgentSpec, Paths, echo, host_runtime}
use myco_agent.Cli.{raise, uncaught, CliM}
use myco_agent.Cli.Specs.{
  resolve_specs, agent_specs, parse_agent_options, parse_agent_option, skills_and_tools,
  merge_opencode_catalog,
}
use myco_agent.Cli.Options.{HostFlags, StartM, fields_of, resolve_id, look}
use myco_agent.Table.{find, put}
use myco_agent.Node.Names.{resolve_agent_id, merge_names, merge_groups, merge_group}
use myco_agent.Text.Once.{split_once}
use myco_agent.Node.Specs.{parse_models, parse_items}
use myco_agent.Artifacts.{S3Settings}
use myco_agent.Cli.Start.{NodeFlags, mailbox_base, node_runtime}
use myco_agent.Cli.Start.Same.{host_runtime-node_runtime}
use myco_agent.Cli.Specs.EnvId.{without_id, AllEnvId, resolve_specs-AllEnvId}
use myco_agent.Cli.Init.{
  InitFlags, already_configured, wrote, init, init_wizard, resolved, wizard_agents, wizard_agent,
  by_provider,
}
use myco_agent.Cli.Init.Twice.{init-init}

abbrev str : Json → String
str value = "?"

abbrev get : (url key : String) → ModelsReply
get url key = ModelsReply.unreachable "no route"

abbrev found : List String × List String
found = ([], "opencode" ∷ [])

-- Every question gets its default, but for the provider.
abbrev answers : ℕ → (prompt default : String) → String
answers k prompt default =
    if prompt == "Provider (echo / omlx / ollama / custom / opencode)" then "Echo" else default

abbrev no_flags : InitFlags
no_flags = record {
  provider = none;
  llm_url = none;
  llm_model = none;
  llm_key = none;
  executor = none;
}

abbrev alpha : LocalAgentConfig
alpha = record {
  name = "alpha";
  skills = "coding" ∷ ("review" ∷ []);
  tools = [];
  executor = "auto";
  llm_url = "";
  llm_model = "";
  llm_key = "";
  models = [];
}

abbrev alpha_echo : LocalAgentConfig
alpha_echo = record alpha { tools = "shell" ∷ []; executor = "echo" }

asked :
    init false (λ t. t) str get found answers (some (alpha ∷ [])) false false no_flags
    ≡ ok (wrote (alpha_echo ∷ []))
unfolding init is_configured agent_is_configured resolved init_wizard wizard_agents wizard_agent
    by_provider strip lower lower_char parse_csv join split
asked = refl

init-init_example :
    init false
      (λ t. t)
      str
      get
      found
      (λ k prompt default. default)
      (some (alpha_echo ∷ []))
      false
      true
      no_flags
    ≡ ok already_configured
init-init_example =
    init-init false (λ t. t) str get found answers (λ k prompt default. default) (some (alpha ∷ []))
      false false true no_flags no_flags (alpha_echo ∷ []) refl refl asked (unfold strip in refl)

abbrev fs : PathLib
fs = record {
  expanduser = λ path. path;
  exists = λ path. false;
  is_dir = λ path. false;
  is_file = λ path. false;
  suffix = λ path. "";
  child = λ path name. cat path (cat "/" name);
  iterdir = λ path. [];
  read_text = λ path. none;
}

abbrev paths : Paths
paths = record { stem = λ path. path; suffix = λ path. ""; with_name = λ path name. name }

abbrev loads : String → Option Json
loads content = none

abbrev load_local_config : String → CliM (Option (List LocalAgentConfig))
load_local_config path = ok none

abbrev uuids : ℕ → String
uuids k = if nat_eq k 0 then "u0" else "u1"

abbrev two_options : HostFlags
two_options = record {
  agents = "name=alpha,skills=coding" ∷ ("name=beta, llm_model=m=1" ∷ []);
  name = none;
  skills = none;
  tools = none;
  models = none;
  skills_file = none;
  tools_file = none;
  capabilities_file = none;
  id_file = none;
  config = none;
  executor_name = "echo";
}

abbrev flags : NodeFlags
flags = record {
  manager_url = some "http://127.0.0.1:8080";
  group = "lab";
  port = "9001";
  advertise = none;
  job_db = none;
  max_steps = 12;
  host = two_options;
}

abbrev spec :
    (name : String) → (skills : List String) → (llm_model agent_id : Option String) → AgentSpec
spec name skills llm_model agent_id = record {
  name = name;
  skills = skills;
  tools = [];
  models = [];
  agent_id = agent_id;
  root_mailbox = false;
  executor = none;
  has_planner = false;
  llm_base_url = none;
  llm_api_key = none;
  llm_model = llm_model;
}

abbrev resolve : Option String → HostFlags → StartM (List AgentSpec)
resolve env_id host = resolve_specs str loads fs env_id uuids found load_local_config host

-- Each has its fresh id, or both have the id of the environment.
resolved_ids :
    (resolve none two_options [] ≡ (
      ok (
          spec "alpha" ("coding" ∷ []) none (some "u0")
          ∷ (spec "beta" [] (some "m=1") (some "u1") ∷ [])),
      [],
    ))
    × (resolve (some "e1") two_options [] ≡ (
      ok (
          spec "alpha" ("coding" ∷ []) none (some "e1")
          ∷ (spec "beta" [] (some "m=1") (some "e1") ∷ [])),
      [],
    ))
unfolding resolve_specs agent_specs parse_agent_options parse_agent_option fields_of resolve_id
    resolve_agent_id look find put skills_and_tools merge_opencode_catalog merge_names merge_groups
    merge_group parse_csv csv_items parse_models parse_items split split_once strip lower lower_char
resolved_ids = (refl, refl)

no_own_ids : all without_id two_options.agents ≡ true
unfolding fields_of split split_once strip look find put
no_own_ids = refl

resolve_specs-AllEnvId_example :
    AllEnvId (some "e1") (
      spec "alpha" ("coding" ∷ []) none (some "e1")
      ∷ (spec "beta" [] (some "m=1") (some "e1") ∷ []))
resolve_specs-AllEnvId_example =
    resolve_specs-AllEnvId str loads fs (some "e1") uuids found refl load_local_config two_options
      (spec "alpha" ("coding" ∷ []) none (some "e1")
        ∷ (spec "beta" [] (some "m=1") (some "e1") ∷ []))
      [] [] refl no_own_ids resolved_ids.1

-- The environment names a store, for which a client is made.
abbrev env : String → Option String
env name = if name == "MYCOAGENT_S3_ENDPOINT" then some "minio:9000" else none

abbrev minio : S3Settings → CliM Unit
minio settings = if truthy settings.endpoint then ok tt else raise (uncaught "empty endpoint")

abbrev opens : Option String → CliM Unit
opens path = ok tt

abbrev alone_spec : AgentSpec
alone_spec = record (spec "alpha" ("coding" ∷ []) none (some "u0")) { root_mailbox = true }

host_runtime-node_runtime_example :
    host_runtime paths "lab" (mailbox_base flags) echo false none uuids (alone_spec ∷ [])
    ≡ some (node_runtime flags (echo, false) alone_spec ∷ [])
host_runtime-node_runtime_example =
    host_runtime-node_runtime paths uuids flags echo false alone_spec refl refl refl refl
