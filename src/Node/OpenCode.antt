-- ===== src/Node/OpenCode.antt =====
-- src/mycoagent/node/opencode.py: a child's work by `opencode run`. The program (`runner`), `json.loads`, `json.dumps`,
-- Python's `str` of a JSON value, the last part of a path and the search for the binary are parameters.
pub mod Output
pub mod Hidden
mod Tests
use Prim.Native.Char.{Char, code}
use mathlib.Core.List
use myco_agent.Common.{
  contains, ℕ, String, Bool, true, false, not, ◌&&◌, ◌||◌, Option, none, some, List, [], ◌∷◌, ◌++◌,
  map, keep, is_nil, is_some, truthy, given, or_empty, leb, nat_eq, ◌==◌, if◌then◌else◌,
}
use myco_agent.Exec.{Result, ok, raise}
use myco_agent.Models.{
  ChildWork, SubtaskStatus, Fields, end, field, Json, null, bool, num, text, arr, obj, Items, nil,
  cons,
}
use myco_agent.Table.{put}
use myco_agent.Text.{lower, Chars, chars, strip, join, cat, contains_text}
use myco_agent.Text as Text
use myco_agent.Node.Executor.{get_field}
use myco_agent.Node.Workspace.{strip_local_paths, given_text}
use myco_agent.Node.OpenCode.Output.{or_text, extract_opencode_text}

-- What keeps the program from running to its end: `OpenCodeMissing` and `TimeoutError`.
pub data LaunchError : Type 0 where
  missing timed_out : String → LaunchError

-- The other exception is `OpenCodeFailed`.
pub data OpenCodeError : Type 0 where
  launch : LaunchError → OpenCodeError
  failed : String → OpenCodeError

module _ (str : Json → String) (path_name : String → String) (dumps : Fields → String) where
  abbrev pub name_of : Json → String
  name_of (text t) = strip t
  name_of value = strip (str value)

  unfoldable pub artifact_names : Items → List String
  artifact_names nil = []
  artifact_names (cons item items) =
      let rest = artifact_names items in
      if truthy (name_of item)
      then or_text (path_name (name_of item)) (name_of item) ∷ rest
      else rest

  abbrev pub names_in : Json → List String
  names_in (arr items) = artifact_names items
  names_in _ = []

  abbrev pub payload_json : Fields → String
  payload_json end = "{}"
  payload_json (field key value rest) = dumps (field key value rest)

  unfoldable pub opencode_prompt : (instructions : String) → ChildWork → String
  opencode_prompt instructions work =
      let names = names_in (get_field "artifact_ids" work.payload) in
      let about = cat "Job " (cat work.job_id (cat " subtask " work.subtask_id)) in
      let described = cat "Description: " work.description in
      let payload = cat "Payload JSON: " (payload_json work.payload) in
      join "\n" (
        about
        ∷ (described
            ∷ (payload
                ∷ (if is_nil names
                    then instructions ∷ []
                    else cat "Referenced artifact file names: " (join ", " names)
                      ∷ (instructions ∷ [])))))

abbrev pub env_key : String × String → String
env_key entry = entry.0

abbrev pub or_variable : Option String → Option String → String
or_variable none variable = given_text variable
or_variable (some explicit) variable = explicit

abbrev pub set_if : String → String → List (String × String) → List (String × String)
set_if name value env = if truthy value then put env_key (name, value) env else env

-- `home` is the variable `HOME` or else the home directory; the last two are the variables of the process.
unfoldable pub build_opencode_env :
    (base : List (String × String))
    → (home : String) → (config config_dir config_variable config_dir_variable : Option String)
    → List (String × String)
build_opencode_env base home config config_dir config_variable config_dir_variable =
    set_if "OPENCODE_CONFIG_DIR" (strip (or_variable config_dir config_dir_variable)) (
      set_if "OPENCODE_CONFIG" (strip (or_variable config config_variable))
        (put env_key ("HOME", home) base))

pub record Options : Type 0 where
  pub attach : Option String
  pub model : Option String
  pub agent : Option String
  pub auto : Bool

-- `value.strip() or None`
abbrev pub non_blank : String → Option String
non_blank value = if truthy (strip value) then some (strip value) else none

abbrev pub or_env : Option String → Option String → String
or_env explicit variable = if given explicit then or_empty explicit else given_text variable

-- The settings of `__init__`; `env` are the variables of the process.
unfoldable pub options_of :
    (model agent attach : Option String) → (auto : Bool) → (env : String → Option String) → Options
options_of model agent attach auto env = record {
  attach = non_blank (or_variable attach (env "MYCOAGENT_OPENCODE_ATTACH"));
  model = non_blank (or_env model (env "MYCOAGENT_OPENCODE_MODEL"));
  agent = non_blank (or_env agent (env "MYCOAGENT_OPENCODE_AGENT"));
  auto =
      auto
      || contains (lower (strip (given_text (env "MYCOAGENT_OPENCODE_AUTO"))))
          ("1" ∷ ("true" ∷ ("yes" ∷ [])));
}

abbrev pub option : String → Option String → List String
option name none = []
option name (some value) = if truthy value then name ∷ (value ∷ []) else []

-- `quoted` is `repr` of the binary, `found` where the search finds it.
unfoldable pub argv :
    (quoted : String)
    → (found : Option String) → Options
    → (prompt : String) → Result LaunchError (List String)
argv quoted none options prompt = raise (
    missing
      (cat "opencode not found (" (cat quoted "); install OpenCode or set MYCOAGENT_OPENCODE_BIN")))
argv quoted (some resolved) options prompt = ok (
    resolved
    ∷ ("run"
        ∷ ("--format"
            ∷ ("json"
                ∷ (option "--attach" options.attach
                    ++ (option "--model" options.model
                        ++ (option "--agent" options.agent
                            ++ ((if options.auto then "--auto" ∷ [] else []) ++ prompt ∷ []))))))))

-- What the program gave: `returncode` is `none` for 0 and otherwise the code in decimal.
pub record Completed : Type 0 where
  pub returncode : Option String
  pub stdout : String
  pub stderr : String

module _ (loads : String → Option Json) (root resolved : String) where
  -- What `run` makes of the program's outcome
  unfoldable pub finished : ChildWork → Completed → Result OpenCodeError ChildWork
  finished work completed =
      let combined = strip (join "\n" (keep truthy (completed.stdout ∷ (completed.stderr ∷ [])))) in
      let shown =
        strip_local_paths root resolved
          (or_text (extract_opencode_text loads completed.stdout) combined) in
      let exit = cat "exit=" (given_text completed.returncode) in
      if is_some completed.returncode
      then raise (failed (strip_local_paths root resolved (or_text combined exit)))
      else if not (truthy shown)
      then raise (failed "opencode produced no output")
      else ok (record work { status = SubtaskStatus.completed; result = some shown })

  abbrev pub after_run : ChildWork → Result LaunchError Completed → Result OpenCodeError ChildWork
  after_run work (ok completed) = finished work completed
  after_run work (raise e) = raise (launch e)

  unfoldable pub run :
      (runner : List String → Result LaunchError Completed)
      → Result LaunchError (List String)
      → ChildWork
      → Result OpenCodeError ChildWork
  run runner (raise e) work = raise (launch e)
  run runner (ok arguments) work = after_run work (runner arguments)
