-- ===== src/Cli/Options.antt =====
-- The options of `node` of src/mycoagent/cli.py, the fields of one `--agent`, and the files that keep the agents' ids.
use myco_agent.Common.{
  String, Bool, true, not, ◌&&◌, ◌||◌, Option, none, some, List, [], ◌∷◌, contains, truthy, given,
  or_empty, ◌==◌, if◌then◌else◌,
}
use myco_agent.Exec.{Exec, ok, raise, pure, throw}
use myco_agent.Table.{find, put}
use myco_agent.Text.{strip, lower, cat}
use myco_agent.Text.Once.{split_once}
use myco_agent.Node.Names.{resolve_agent_id}
use myco_agent.Node.Host.{Kind, echo, tool_loop, open_code, AgentSpec}
use myco_agent.Cli.{CliError, CliM, bad_parameter, uncaught, refused}

-- The options, where `agents` are the values of `--agent`.
pub record HostFlags : Type 0 where
  pub agents : List String
  pub name : Option String
  pub skills : Option String
  pub tools : Option String
  pub models : Option String
  pub skills_file : Option String
  pub tools_file : Option String
  pub capabilities_file : Option String
  pub id_file : Option String
  pub config : Option String
  pub executor_name : String

-- The executor and whether there is a planner; `llm` says whether `llm_from_env` finds a model.
unfoldable pub executor_and_planner : (executor_name : String) → (llm : Bool) → CliM (Kind × Bool)
executor_and_planner executor_name llm =
    let mode = lower (strip executor_name) in
    if not (contains mode ("auto" ∷ ("echo" ∷ ("agent" ∷ ("opencode" ∷ [])))))
    then raise (bad_parameter "--executor must be auto, echo, agent, or opencode")
    else if mode == "opencode"
    then ok (open_code, llm)
    else if mode == "echo" || (mode == "auto" && not llm)
    then ok (echo, llm)
    else if not llm
    then raise (bad_parameter "agent executor requires MYCOAGENT_LLM_BASE_URL")
    else ok (tool_loop, llm)

-- A text under a text: a field of an option, and a file's content under its path.
abbrev pub Named : Type 0
Named = String × String

abbrev pub entry_key : Named → String
entry_key entry = entry.0

unfoldable pub look : String → List Named → Option String
look key entries = elim (find entry_key key entries) [ none ↦ none | some entry ↦ some entry.1 ]

-- What a start does with the files of the agents' ids.
abbrev pub StartM : Type 0 → Type 0
StartM A = Exec (List Named) CliError A

-- `resolve_agent_id`, where `env_id` is the environment's variable
unfoldable pub resolve_id :
    (uuid : String) → (explicit env_id id_file : Option String) → StartM String
resolve_id uuid explicit env_id id_file files =
    let path = or_empty id_file in
    let (agent_id, content) =
      resolve_agent_id uuid explicit env_id (given id_file)
        (if given id_file then look path files else none) in
    (ok agent_id, elim content [ none ↦ files | some t ↦ put entry_key (path, t) files ])

-- The fields of one `--agent`
unfoldable pub fields_of : List String → List Named → CliM (List Named)
fields_of [] fields = ok fields
fields_of (item ∷ items) fields =
    let piece = strip item in
    let without = fields_of items fields in
    let refusal = raise (bad_parameter (cat "agent field must be key=value: " piece)) in
    let with_field : String → String → CliM (List Named) =
      λ key value. fields_of items (put entry_key (strip key, strip value) fields) in
    if not (truthy piece)
    then without
    else elim (split_once b'=' piece) as (λ _. CliM (List Named)) [
      | none ↦ refusal
      | some (key, value) ↦ with_field key value
    ]

abbrev pub given_or_none : Option String → Option String
given_or_none value = if given value then value else none

abbrev pub lift : {A : Type 0} → CliM A → StartM A
lift m files = (m, files)

-- `BadParameter` with the text of the exception, where there is none
abbrev pub or_refused : {A : Type 0} → Option A → StartM A
or_refused none = throw refused
or_refused (some a) = pure a

abbrev pub or_uncaught : {A : Type 0} → Option A → StartM A
or_uncaught none = throw (uncaught "ValueError")
or_uncaught (some a) = pure a

abbrev pub with_root : AgentSpec → AgentSpec
with_root spec = record spec { root_mailbox = true }

abbrev pub root_alone : List AgentSpec → List AgentSpec
root_alone (spec ∷ []) = with_root spec ∷ []
root_alone specs = specs
