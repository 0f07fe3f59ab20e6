-- ===== src/Cli/Start.antt =====
-- `node` of src/mycoagent/cli.py: the runtime that the command runs. The server that runs it is left out.
pub mod Same
use myco_agent.Common.{
  ℕ, String, Bool, true, false, not, Option, none, some, List, [], ◌∷◌, map, given, or_empty,
  if◌then◌else◌,
}
use myco_agent.Exec.{Exec, Result, ok, raise, pure, throw, ◌>>=◌, ◌>>◌}
use myco_agent.Models.{Json}
use myco_agent.Text.{rstrip, cat}
use myco_agent.Node.Capabilities.Paths.{PathLib}
use myco_agent.Node.Host.{Kind, Profile, AgentSpec, Paths, attach_spec_llm, host_runtime, or_kind}
use myco_agent.Node.LocalConfig.{LocalAgentConfig}
use myco_agent.Cli.{CliError, CliM, bad_parameter, uncaught}
use myco_agent.Artifacts.{S3Settings, artifact_store_from_env}
use myco_agent.Cli.Specs.{resolve_specs}
use myco_agent.Cli.Options.{HostFlags, StartM, lift, or_uncaught, executor_and_planner}

-- The options of the process
pub record NodeFlags : Type 0 where
  pub manager_url : Option String
  pub group : String
  pub port : String
  pub advertise : Option String
  pub job_db : Option String
  pub max_steps : ℕ
  pub host : HostFlags

-- A `NodeRuntime` of its own, or a `HostRuntime` with its agents.
pub data Started : Type 0 where
  alone : Profile → Started
  hosted : List Profile → Started

unfoldable pub mailbox_base : NodeFlags → String
mailbox_base flags =
    rstrip b'/' (
      if given flags.advertise
      then or_empty flags.advertise
      else cat "http://127.0.0.1:" flags.port)

-- `NodeRuntime(...)` for a spec
unfoldable pub node_runtime : NodeFlags → (worker : Kind × Bool) → AgentSpec → Profile
node_runtime flags (worker, planner) spec = record {
  name = spec.name;
  group = flags.group;
  mailbox_url = rstrip b'/' (mailbox_base flags);
  node_id = spec.agent_id;
  skills = spec.skills;
  tools_declared = spec.tools;
  tools_available = spec.tools;
  models = spec.models;
  job_db = flags.job_db;
  llm_base_url = spec.llm_base_url;
  llm_api_key = spec.llm_api_key;
  llm_model = spec.llm_model;
  executor = or_kind spec.executor worker;
  has_planner = if spec.has_planner then true else planner;
  max_steps = flags.max_steps;
}

abbrev pub host_of : Option (List Profile) → StartM Started
host_of none = throw (uncaught "host needs at least one agent")
host_of (some agents) = pure (hosted agents)

-- `opens` is the opening of an agent's job table, which `sqlite3` may refuse; the first that it refuses ends the
-- command.
unfoldable pub open_stores : (opens : Option String → CliM Unit) → List Profile → CliM Unit
open_stores opens [] = ok tt
open_stores opens (p ∷ rest) =
    let later = open_stores opens rest in
    elim (opens p.job_db) [ raise e ↦ raise e | ok done ↦ later ]

unfoldable pub opened : (opens : Option String → CliM Unit) → Started → CliM Started
unfolding open_stores
opened opens s = elim (open_stores opens (profiles s)) [ raise e ↦ raise e | ok done ↦ ok s ]
  where
    profiles : Started → List Profile
    profiles (alone p) = p ∷ []
    profiles (hosted agents) = agents

-- `artifact_store_from_env`, where `minio` is the making of the client.
unfoldable pub artifact_store :
    (env : String → Option String) → (minio : S3Settings → CliM Unit) → CliM Unit
unfolding artifact_store_from_env
artifact_store env minio = elim (artifact_store_from_env env) [
  | none ↦ ok tt
  | some settings ↦ minio settings
]

-- `later` are the fresh ids that `HostRuntime` draws.
unfoldable pub started :
    Paths
    → (later : ℕ → String) → NodeFlags
    → (worker : Kind × Bool) → List AgentSpec
    → StartM Started
started paths later flags worker specs =
    let (kind, planner) = worker in
    let several =
      host_of (
        host_runtime paths flags.group (mailbox_base flags) kind planner flags.job_db later
          specs) in
    run_alone specs several
  where
    run_alone : List AgentSpec → StartM Started → StartM Started
    run_alone (spec ∷ []) several =
        if spec.root_mailbox then pure (alone (node_runtime flags worker spec)) else several
    run_alone _ several = several

module _ (str : Json → String) (loads : String → Option Json) (fs : PathLib)
    (env_id : Option String) (uuids later : ℕ → String) (discovered : List String × List String)
    (paths : Paths) (load_local_config : String → CliM (Option (List LocalAgentConfig)))
    (env : String → Option String) (minio : S3Settings → CliM Unit)
    (opens : Option String → CliM Unit) where
  -- The command; `llm` says whether the environment names a model.
  unfoldable pub node : (llm : Bool) → NodeFlags → StartM Started
  node llm flags =
      if not (given flags.manager_url)
      then throw (bad_parameter "provide --manager or set MYCOAGENT_MANAGER")
      else do
        worker ← lift (executor_and_planner flags.host.executor_name llm)
        _ ← lift (artifact_store env minio)
        specs ← resolve_specs str loads fs env_id uuids discovered load_local_config flags.host
        runtime ← started paths later flags worker (map attach_spec_llm specs)
        lift (opened opens runtime)
