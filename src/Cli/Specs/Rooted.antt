-- ===== src/Cli/Specs/Rooted.antt =====
-- The agents that `node` of src/mycoagent/cli.py starts: one at the root mailbox, or several that are not.
use myco_agent.Common.{
  inr, inl, Bool-cases, ℕ, zero, suc, String, ◌≡◌, refl, ◌∙◌, Bool, true, false, not, Option, none,
  some, List, [], ◌∷◌, map, all, arith, is_nil, given, ◌==◌,
}
use myco_agent.Exec.{pure}
use myco_agent.Exec.Gives.{Gives, Gives-throw, Gives-after, Gives-bind}
use myco_agent.Models.{Json, ModelSpec}
use myco_agent.Text.{lower, strip}
use myco_agent.Node.Capabilities.Paths.{PathLib}
use myco_agent.Node.Host.{AgentSpec, attach_spec_llm}
use myco_agent.Node.LocalConfig.{LocalAgentConfig}
use myco_agent.Cli.{CliError, CliM}
use myco_agent.Cli.Specs.{
  option_spec, parse_agent_option, parse_agent_options, agent_specs, merge_opencode_catalog,
  flag_specs, local_specs, resolve_specs,
}
use myco_agent.Cli.Options.{HostFlags, StartM, Named, with_root, root_alone}

abbrev scoped : AgentSpec → Bool
scoped spec = not spec.root_mailbox

abbrev pub AllScoped : List AgentSpec → Type 0
AllScoped specs = all scoped specs ≡ true

-- One agent, which has the root mailbox, or several, none of which has it.
unfoldable pub Rooted : List AgentSpec → Type 0
Rooted [] = ⊥
Rooted (spec ∷ []) = spec.root_mailbox ≡ true
Rooted specs = AllScoped specs

-- A function that leaves the mailboxes alone leaves the list as it is.
pub Rooted-map :
    (f : AgentSpec → AgentSpec)
    → ((spec : AgentSpec) → (f spec).root_mailbox ≡ spec.root_mailbox)
    → (specs : List AgentSpec) → Rooted specs
    → Rooted (map f specs)
unfolding Rooted
Rooted-map f same [] h = elim h [ ]
Rooted-map f same (spec ∷ []) h = same spec ∙ h
Rooted-map f same (a ∷ (b ∷ specs)) h = kept (a ∷ (b ∷ specs)) ∙ h
  where
    kept : (specs : List AgentSpec) → all scoped (map f specs) ≡ all scoped specs
    kept [] = refl
    kept (spec ∷ specs) = rw (same spec, kept specs) refl

pub attach_spec_llm-mailbox :
    (spec : AgentSpec) → (attach_spec_llm spec).root_mailbox ≡ spec.root_mailbox
unfolding attach_spec_llm
attach_spec_llm-mailbox spec = ground arith

root_alone-Rooted :
    (specs : List AgentSpec) → is_nil specs ≡ false → AllScoped specs → Rooted (root_alone specs)
unfolding Rooted
root_alone-Rooted [] e h = absurd (ground (arith, e))
root_alone-Rooted (spec ∷ []) e h = refl
root_alone-Rooted (a ∷ (b ∷ specs)) e h = h

-- As many agents as options
Apart : List String → List AgentSpec → Type 0
Apart raws specs = (is_nil specs ≡ is_nil raws) × AllScoped specs

module _ (str : Json → String) (loads : String → Option Json) (fs : PathLib)
    (env_id : Option String) (uuids : ℕ → String) (discovered : List String × List String) where
  Scoped : AgentSpec → Type 0
  Scoped spec = spec.root_mailbox ≡ false

  option_spec-Scoped :
      (name : String) (fields : List Named) (names : List String × List String)
      (models : List ModelSpec) (agent_id : String)
      → Gives Scoped (
          pure {S = List Named} {E = CliError}
            (option_spec str loads fs env_id uuids discovered name fields names models agent_id))
  unfolding Scoped
  option_spec-Scoped name fields names models agent_id = record { at = λ s. refl }

  parse_agent_option-Scoped :
      (uuid raw : String)
      → Gives Scoped (parse_agent_option str loads fs env_id uuids discovered uuid raw)
  unfolding parse_agent_option
  parse_agent_option-Scoped uuid raw = search (Gives-after, option_spec-Scoped) depth 9

  parse_agent_options-Apart :
      (k : ℕ) (raws : List String)
      → Gives (Apart raws) (parse_agent_options str loads fs env_id uuids discovered k raws)
  unfolding parse_agent_options Apart Scoped
  parse_agent_options-Apart k [] = record { at = λ s. (refl, refl) }
  parse_agent_options-Apart k (raw ∷ raws) =
      Gives-bind Scoped (Apart (raw ∷ raws)) _ _ (parse_agent_option-Scoped (uuids k) raw)
        (λ spec scoped_one.
          Gives-bind (Apart raws) (Apart (raw ∷ raws)) _ _ (parse_agent_options-Apart (suc k) raws)
            (λ specs rest. record { at = λ s. (refl, rw (scoped_one, rest.1) refl) }))

  alone-Rooted :
      (spec : AgentSpec) → Gives Rooted (pure {S = List Named} {E = CliError} (with_root spec ∷ []))
  unfolding Rooted
  alone-Rooted spec = record { at = λ s. refl }

  agent_specs-Rooted :
      (flags : HostFlags) → Gives Rooted (agent_specs str loads fs env_id uuids discovered flags)
  unfolding agent_specs Apart
  agent_specs-Rooted flags = elim (Bool-cases (is_nil flags.agents)) [
    | inr e ↦ rw e (
        Gives-bind (Apart flags.agents) Rooted _ _ (parse_agent_options-Apart zero flags.agents)
          (λ specs rest. record { at = λ s. root_alone-Rooted specs (rest.0 ∙ e) rest.1 }))
    | inl e ↦ rw e (elim (Bool-cases (given flags.name)) [
      | inr k ↦ rw k (Gives-throw Rooted _)
      | inl k ↦ rw k (search (Gives-after, alone-Rooted) depth 9)
    ])
  ]

  merge_opencode_catalog-Rooted :
      (mode : String) (specs : List AgentSpec)
      → Rooted specs
      → Rooted (merge_opencode_catalog str loads fs env_id uuids discovered mode specs)
  unfolding merge_opencode_catalog
  merge_opencode_catalog-Rooted mode specs h =
      elim (Bool-cases (lower (strip mode) == "opencode")) [
        | inl e ↦ rw e (Rooted-map _ (λ spec. refl) specs h)
        | inr e ↦ rw e h
      ]

  flag_specs-Rooted :
      (flags : HostFlags) → Gives Rooted (flag_specs str loads fs env_id uuids discovered flags)
  flag_specs-Rooted flags =
      Gives-bind Rooted Rooted _ _ (agent_specs-Rooted flags)
        (λ specs h. record { at = λ s. merge_opencode_catalog-Rooted flags.executor_name specs h })

  merged-Rooted :
      (mode : String) (spec : AgentSpec) (agent_id : String)
      → Gives Rooted (
          pure {S = List Named} {E = CliError} (
            merge_opencode_catalog str loads fs env_id uuids discovered mode
              (record spec { root_mailbox = true; agent_id = some agent_id } ∷ [])))
  merged-Rooted mode spec agent_id = record {
    at = λ s.
        merge_opencode_catalog-Rooted mode
          (record spec { root_mailbox = true; agent_id = some agent_id } ∷ [])
          (unfold Rooted in refl);
  }

  local_specs-Rooted :
      (flags : HostFlags) (file : List LocalAgentConfig)
      → Gives Rooted (local_specs str loads fs env_id uuids discovered flags file)
  unfolding local_specs
  local_specs-Rooted flags file = search (Gives-after, merged-Rooted) depth 9

  pub resolve_specs-Rooted :
      (load_local_config : String → CliM (Option (List LocalAgentConfig))) (flags : HostFlags)
      → Gives Rooted (resolve_specs str loads fs env_id uuids discovered load_local_config flags)
  unfolding resolve_specs
  resolve_specs-Rooted load_local_config flags = elim (Bool-cases (is_nil flags.agents)) [
    | inr e ↦ rw e (flag_specs-Rooted flags)
    | inl e ↦ rw e (Gives-after Rooted _ _ (λ loaded. by_file loaded))
  ]
    where
      by_file :
          (loaded : Option (List LocalAgentConfig))
          → Gives Rooted (elim loaded as (λ _. StartM (List AgentSpec)) [
            | none ↦ flag_specs str loads fs env_id uuids discovered flags
            | some file ↦ local_specs str loads fs env_id uuids discovered flags file
          ])
      by_file none = flag_specs-Rooted flags
      by_file (some file) = local_specs-Rooted flags file
