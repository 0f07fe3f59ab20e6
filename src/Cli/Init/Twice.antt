-- ===== src/Cli/Init/Twice.antt =====
-- A file that `init` of src/mycoagent/cli.py wrote is one that it leaves alone.
use myco_agent.Common.{
  ℕ, zero, suc, String, ◌≡◌, refl, ap, ◌∙◌, Bool, true, false, not, ◌&&◌, ◌||◌, Option, none, some,
  List, [], ◌∷◌, all, arith, contains, is_nil, is_some, truthy, given, ◌==◌, inl, inr, Bool-cases,
  if◌then◌else◌,
}
use myco_agent.Exec.{ok}
use myco_agent.Models.{Json}
use myco_agent.Text.{strip}
use myco_agent.Text.Strip.{strip_idem}
use myco_agent.Node.Providers.{ModelsReply, providers}
use myco_agent.Node.LocalConfig.{LocalAgentConfig, agent_is_configured, is_configured}
use myco_agent.Node.LocalConfig.Configured.{open_code-configured, url-configured, echo-configured}
use myco_agent.Cli.{bad_parameter, ◌>>=◌}
use myco_agent.Cli.Yields.{Yields-Any, Any, Yields, Yields-raise, Yields-bind, yielded}
use myco_agent.Cli.Init.{
  by_provider, InitFlags, InitOutcome, already_configured, wrote, resolved, flagged_file, asked_url,
  with_url, wizard_agent, wizard_agents, seeds_of, init_wizard, init,
}
use myco_agent.Cli.Init.Flags.{
  has_name, no_agents, Ready, KnownUrl, Good, is_configured-Ready, resolved-KnownUrl,
  default_agents-nonempty, flagged_file-Good,
}

module _ (in_container : Bool) (quoted : String → String) (str : Json → String)
    (get : (url key : String) → ModelsReply) (discovered : List String × List String) where
  Named : LocalAgentConfig → Type 0
  Named a = agent_is_configured a ≡ has_name a

  module _ (answer : (prompt default : String) → String) where
    asked_url-strip :
        (chosen : String) (seed : LocalAgentConfig)
        → let url = asked_url in_container quoted str get discovered answer chosen seed in
          strip url ≡ url
    asked_url-strip chosen seed = stripped _ _
      where
        stripped :
            (b : Bool) (x : String)
            → strip (if b then "" else strip x) ≡ (if b then "" else strip x)
        stripped true x = unfold strip in refl
        stripped false x = strip_idem x

    by_provider-configured :
        (chosen name : String) (skills tools : List String) (seed : LocalAgentConfig)
        → Yields Named (
            by_provider in_container quoted str get discovered answer chosen name skills tools seed)
    unfolding by_provider with_url Named
    by_provider-configured chosen name skills tools seed =
        elim (Bool-cases (chosen == "opencode")) [
          | inl e ↦ rw e (record { at = open_code-configured _ refl })
          | inr e ↦ rw e (elim (Bool-cases (not (contains chosen providers))) [
            | inl k ↦ rw k (Yields-raise Named (bad_parameter _))
            | inr k ↦ rw k (elim (Bool-cases (chosen == "echo" || not (truthy url))) [
              | inl n ↦ rw n (record { at = echo-configured _ refl })
              | inr n ↦ rw n (record {
                at =
                    url-configured _ refl
                      (ap truthy (asked_url-strip chosen seed) ∙ ground (arith, n));
              })
            ])
          ])
        ]
      where
        url : String
        url = asked_url in_container quoted str get discovered answer chosen seed

    wizard_agent-configured :
        (preferred : String) (seed : LocalAgentConfig)
        → Yields Named (wizard_agent in_container quoted str get discovered answer preferred seed)
    unfolding wizard_agent
    wizard_agent-configured preferred seed = by_provider-configured _ _ _ _ seed

  -- As many agents as there were, each ready but for its name.
  AsMany : List LocalAgentConfig → List LocalAgentConfig → Type 0
  AsMany seeds agents = (is_nil agents ≡ is_nil seeds) × Ready agents

  wizard_agents-AsMany :
      (answer : ℕ → (prompt default : String) → String) (preferred : String) (k : ℕ)
      (seeds : List LocalAgentConfig)
      → Yields
          (AsMany seeds)
          (wizard_agents in_container quoted str get discovered answer preferred k seeds)
  unfolding wizard_agents Ready AsMany Named
  wizard_agents-AsMany answer preferred k [] = record { at = (refl, refl) }
  wizard_agents-AsMany answer preferred k (seed ∷ seeds) =
      Yields-bind Named (AsMany (seed ∷ seeds)) _ _
        (wizard_agent-configured (answer k) preferred seed)
        (λ a configured.
          Yields-bind (AsMany seeds) (AsMany (seed ∷ seeds)) _ _
            (wizard_agents-AsMany answer preferred (suc k) seeds)
            (λ agents rest. record { at = (refl, both a agents configured rest.1) }))
    where
      both :
          (a : LocalAgentConfig) (agents : List LocalAgentConfig)
          → agent_is_configured a ≡ has_name a
          → all agent_is_configured agents ≡ all has_name agents
          → all agent_is_configured (a ∷ agents) ≡ all has_name (a ∷ agents)
      both a agents e k = rw e (ap (λ b. has_name a && b) k)

  seeds_of-nonempty :
      (existing : Option (List LocalAgentConfig)) (executor : Option String)
      → is_nil (seeds_of in_container quoted str get discovered existing executor) ≡ false
  seeds_of-nonempty none executor =
      default_agents-nonempty in_container quoted str get discovered "" "" "" executor
  seeds_of-nonempty (some []) executor =
      default_agents-nonempty in_container quoted str get discovered "" "" "" executor
  seeds_of-nonempty (some (a ∷ agents)) executor = refl

  -- What an outcome that writes must write.
  Written : InitOutcome → Type 0
  Written already_configured = Unit
  Written (wrote file) = Good file

  written :
      (answer : ℕ → (prompt default : String) → String) (existing : Option (List LocalAgentConfig))
      (force assume_yes : Bool) (flags : InitFlags)
      → no_agents existing ≡ false
      → (not assume_yes || (given flags.provider || is_some flags.llm_url)) ≡ true
      → Yields Written
          (init in_container quoted str get discovered answer existing force assume_yes flags)
  unfolding init init_wizard Written Good AsMany
  written answer existing force assume_yes flags h known =
      elim (Bool-cases (is_configured existing && not force)) [
        | inl e ↦ rw e (record { at = tt })
        | inr e ↦ rw e (by_flags assume_yes known)
      ]
    where
      by_flags :
          (b : Bool)
          → (not b || (given flags.provider || is_some flags.llm_url)) ≡ true
          → Yields Written (
              resolved in_container quoted str get discovered flags >>= (λ r.
                (if b
                  then ok
                      (flagged_file in_container quoted str get discovered existing r flags.llm_key)
                  else init_wizard in_container quoted str get discovered answer existing
                      flags.provider r.executor)
                >>= (λ file. ok (wrote file))))
      by_flags true k =
          Yields-bind KnownUrl Written _ _
            (resolved-KnownUrl in_container quoted str get discovered flags k)
            (λ r url. record {
              at =
                  flagged_file-Good in_container quoted str get discovered existing r flags.llm_key
                    h url;
            })
      by_flags false k =
          Yields-bind Any Written _ _
            (Yields-Any (resolved in_container quoted str get discovered flags))
            (λ r any.
              Yields-bind
                (AsMany (seeds_of in_container quoted str get discovered existing r.executor))
                Written _ _
                (wizard_agents-AsMany answer _ zero
                  (seeds_of in_container quoted str get discovered existing r.executor))
                (λ file rest. record {
                  at = (rest.0 ∙ seeds_of-nonempty existing r.executor, rest.1);
                }))

  -- A file that the command wrote, where the file before it was absent or held an agent, where with `--yes` a provider
  -- or a URL was given, and where no name is blank: the next run without `--force` finds it configured and stops,
  -- whatever its flags and answers are.
  pub init-init :
      (answer answer' : ℕ → (prompt default : String) → String)
      (existing : Option (List LocalAgentConfig)) (force assume_yes assume_yes' : Bool)
      (flags flags' : InitFlags) (file : List LocalAgentConfig)
      → no_agents existing ≡ false
      → (not assume_yes || (given flags.provider || is_some flags.llm_url)) ≡ true
      → init in_container quoted str get discovered answer existing force assume_yes flags
        ≡ ok (wrote file)
      → all has_name file ≡ true
      → init in_container quoted str get discovered answer' (some file) false assume_yes' flags'
        ≡ ok already_configured
  unfolding init Written Good
  init-init answer answer' existing force assume_yes assume_yes' flags flags' file h known
        wrote_file named =
      let good =
        yielded Written _ (wrote file) (written answer existing force assume_yes flags h known)
          wrote_file in
      rw (is_configured-Ready file good.1 good.0 named) refl
