-- ===== src/Cli/Init.antt =====
-- `init` of src/mycoagent/cli.py: the configuration file, written from flags or from the answers to questions. What
-- the file held, the answers, and what the network and OpenCode's directories say are parameters.
pub mod Flags
pub mod Twice
use mathlib.Core.List
use myco_agent.Common.{
  ℕ, zero, suc, String, Bool, true, false, not, ◌&&◌, ◌||◌, Option, none, some, List, [], ◌∷◌, ◌++◌,
  contains, is_nil, is_some, truthy, given, or_empty, ◌==◌, if◌then◌else◌,
}
use myco_agent.Exec.{Result, ok, raise}
use myco_agent.Models.{Json}
use myco_agent.Text.{strip, lower, join, cat}
use myco_agent.Node.Specs.{parse_csv}
use myco_agent.Node.Names.{merge_names}
use myco_agent.Node.OpenCode.Output.{or_text}
use myco_agent.Node.Providers.{
  providers, provider_base_url, infer_provider, list_llm_models, detect_preferred_provider,
  resolve_for_init, ModelsReply,
}
use myco_agent.Node.LocalConfig.{LocalAgentConfig, is_configured, apply_flags, default_agents}
use myco_agent.Cli.{CliError, CliM, bad_parameter, ◌>>=◌}

pub record InitFlags : Type 0 where
  pub provider : Option String
  pub llm_url : Option String
  pub llm_model : Option String
  pub llm_key : Option String
  pub executor : Option String

-- `(value or "").strip().lower()`
abbrev pub word : Option String → String
word value = lower (strip (or_empty value))

abbrev pub forced_executor : InitFlags → Option String
forced_executor flags = if truthy (word flags.executor) then some (word flags.executor) else none

-- The executor that is forced, the URL and the model.
pub record Resolved : Type 0 where
  pub executor : Option String
  pub llm_url : Option String
  pub llm_model : Option String

abbrev pub resolved_by :
    Option String → Result String (String × (String × List String)) → CliM Resolved
resolved_by executor (ok (url, (model, notes))) =
    ok (record { executor = executor; llm_url = some url; llm_model = some model })
resolved_by executor (raise exc) = raise (bad_parameter exc)

pub data InitOutcome : Type 0 where
  already_configured : InitOutcome
  wrote : List LocalAgentConfig → InitOutcome

module _ (in_container : Bool) (quoted : String → String) (str : Json → String)
    (get : (url key : String) → ModelsReply) (discovered : List String × List String) where
  unfoldable pub resolved : InitFlags → CliM Resolved
  resolved flags =
      if word flags.provider == "opencode"
      then ok (record { executor = some "opencode"; llm_url = some ""; llm_model = some "" })
      else if given flags.provider || (given flags.llm_url && not (given flags.llm_model))
      then resolved_by (forced_executor flags) (
          resolve_for_init str get in_container quoted flags.provider flags.llm_url flags.llm_model
            (or_empty flags.llm_key))
      else ok (record {
        executor = forced_executor flags;
        llm_url = flags.llm_url;
        llm_model = flags.llm_model;
      })

  abbrev pub defaults : Resolved → (llm_key : Option String) → List LocalAgentConfig
  defaults r llm_key =
      default_agents discovered (or_empty r.llm_url) (or_empty r.llm_model) (or_empty llm_key)
        r.executor

  abbrev pub or_defaults :
      Option (List LocalAgentConfig) → List LocalAgentConfig → List LocalAgentConfig
  or_defaults none agents = agents
  or_defaults (some existing) agents = existing

  -- The file of `--yes`
  unfoldable pub flagged_file :
      Option (List LocalAgentConfig) → Resolved → (llm_key : Option String) → List LocalAgentConfig
  flagged_file existing r llm_key =
      let file =
        apply_flags discovered r.llm_url r.llm_model llm_key r.executor
          (or_defaults existing (defaults r llm_key)) in
      if is_nil file then defaults r llm_key else file

  abbrev pub or_list : List String → String → List String
  or_list names default = if is_nil names then default ∷ [] else names

  abbrev pub entry :
      (name : String)
      → (skills tools : List String) → (executor llm_url llm_model llm_key : String)
      → (models : List String) → LocalAgentConfig
  entry name skills tools executor llm_url llm_model llm_key models = record {
    name = name;
    skills = skills;
    tools = tools;
    executor = executor;
    llm_url = llm_url;
    llm_model = llm_model;
    llm_key = llm_key;
    models = models;
  }

  abbrev pub first_or_empty : List String → String
  first_or_empty [] = ""
  first_or_empty (x ∷ xs) = x

  -- `answer` is `typer.prompt` with its text and default.
  module _ (answer : (prompt default : String) → String) where
    unfoldable pub with_url :
        (name : String)
        → (skills tools : List String) → (seed : LocalAgentConfig) → (llm_url : String)
        → LocalAgentConfig
    with_url name skills tools seed llm_url =
        let listed = (list_llm_models str get llm_url "").0 in
        let llm_model = strip (answer "Model" (or_text seed.llm_model (first_or_empty listed))) in
        let llm_key = answer "API key (optional)" seed.llm_key in
        let models_default =
          if is_nil seed.models
          then (if truthy llm_model then cat llm_model ":local:8192" else "")
          else join "," seed.models in
        let models =
          parse_csv (some (answer "Catalog models (name:source[:context])" models_default)) in
        entry name (or_list skills "coding") (or_list tools "shell") "auto" llm_url llm_model
          llm_key models

    abbrev pub with_echo : (name : String) → (skills tools : List String) → LocalAgentConfig
    with_echo name skills tools =
        entry name (or_list skills "coding") (or_list tools "shell") "echo" "" "" "" []

    abbrev pub asked_url : (chosen : String) → LocalAgentConfig → String
    asked_url chosen seed =
        let default_url =
          if chosen == "omlx" || chosen == "ollama"
          then provider_base_url in_container chosen
          else seed.llm_url in
        let raw_url = strip (answer "LLM base URL" (or_text default_url seed.llm_url)) in
        if contains (lower raw_url) ("echo" ∷ ("none" ∷ ("-" ∷ []))) then "" else raw_url

    abbrev pub seed_provider : (preferred : String) → LocalAgentConfig → String
    seed_provider preferred seed =
        if lower (strip seed.executor) == "opencode"
        then "opencode"
        else if truthy (strip seed.llm_url)
        then infer_provider seed.llm_url
        else preferred

    -- What follows the answer `chosen` to the question for the provider
    unfoldable pub by_provider :
        (chosen name : String)
        → (skills tools : List String) → (seed : LocalAgentConfig) → CliM LocalAgentConfig
    by_provider chosen name skills tools seed =
        let (found_skills, found_tools) = discovered in
        if chosen == "opencode"
        then ok (
            entry name (merge_names (or_list skills "coding" ∷ (found_skills ∷ [])))
              (merge_names (or_list tools "shell" ∷ (found_tools ∷ []))) "opencode" "" "" "" [])
        else if not (contains chosen providers)
        then raise (
            bad_parameter (cat "provider must be one of " (cat (join ", " providers) ", opencode")))
        else if chosen == "echo" || not (truthy (asked_url chosen seed))
        then ok (with_echo name skills tools)
        else ok (with_url name skills tools seed (asked_url chosen seed))

    -- The loop's body of `_init_wizard`
    unfoldable pub wizard_agent :
        (preferred : String) → (seed : LocalAgentConfig) → CliM LocalAgentConfig
    wizard_agent preferred seed =
        let name = answer "Name" seed.name in
        let skills =
          parse_csv
            (some (answer "Skills (comma-separated)" (or_text (join "," seed.skills) "coding"))) in
        let tools =
          parse_csv
            (some (answer "Tools (comma-separated)" (or_text (join "," seed.tools) "shell"))) in
        let chosen = lower (
          strip (
            answer "Provider (echo / omlx / ollama / custom / opencode)"
              (seed_provider preferred seed))) in
        by_provider chosen name skills tools seed

  -- The loop; `answer k` are the answers for the `k`-th agent.
  unfoldable pub wizard_agents :
      (answer : ℕ → (prompt default : String) → String)
      → (preferred : String) → (k : ℕ) → List LocalAgentConfig
      → CliM (List LocalAgentConfig)
  wizard_agents answer preferred k [] = ok []
  wizard_agents answer preferred k (seed ∷ seeds) = do
    agent ← wizard_agent (answer k) preferred seed
    agents ← wizard_agents answer preferred (suc k) seeds
    ok (agent ∷ agents)

  abbrev pub seeds_of :
      Option (List LocalAgentConfig) → (executor : Option String) → List LocalAgentConfig
  seeds_of none executor = default_agents discovered "" "" "" executor
  seeds_of (some existing) executor =
      if is_nil existing then default_agents discovered "" "" "" executor else existing

  unfoldable pub init_wizard :
      (answer : ℕ → (prompt default : String) → String)
      → Option (List LocalAgentConfig)
      → (provider executor : Option String) → CliM (List LocalAgentConfig)
  init_wizard answer existing provider executor =
      let asked =
        if truthy (word provider)
        then word provider
        else detect_preferred_provider str get in_container in
      let preferred = if word executor == "opencode" then "opencode" else asked in
      wizard_agents answer preferred zero (seeds_of existing executor)

  -- The command, up to the warnings: the agents that it writes to the file.
  unfoldable pub init :
      (answer : ℕ → (prompt default : String) → String)
      → Option (List LocalAgentConfig)
      → (force assume_yes : Bool) → InitFlags
      → CliM InitOutcome
  init answer existing force assume_yes flags =
      if is_configured existing && not force then ok already_configured else do
        r ← resolved flags
        file ←
            if assume_yes
            then ok (flagged_file existing r flags.llm_key)
            else init_wizard answer existing flags.provider r.executor
        ok (wrote file)

-- The warnings on the URLs, each of which is probed once.
unfoldable pub probe_each :
    (probe : (url key : String) → Option String)
    → (seen : List String) → List LocalAgentConfig
    → List String
probe_each probe seen [] = []
probe_each probe seen (agent ∷ agents) =
    let url = strip agent.llm_url in
    let rest = probe_each probe seen agents in
    let later = probe_each probe (url ∷ seen) agents in
    if not (truthy url) || contains url seen then rest else elim (probe url agent.llm_key) [
      | none ↦ later
      | some warning ↦ cat agent.name (cat ": " warning) ∷ later
    ]
