-- ===== src/Cli/Init/Flags.antt =====
-- What `init --yes` of src/mycoagent/cli.py makes of its flags.
use myco_agent.Common.{
  String, ◌≡◌, refl, ap, ◌∙◌, Bool, true, false, not, ◌&&◌, ◌||◌, Option, none, some, List, [], ◌∷◌,
  all, arith, is_nil, is_some, truthy, given, or_empty, ◌==◌, inl, inr, Bool-cases,
}
use myco_agent.Exec.{Result, ok, raise}
use myco_agent.Models.{Json}
use myco_agent.Text.{strip}
use myco_agent.Node.Providers.{ModelsReply, resolve_for_init}
use myco_agent.Node.LocalConfig.{
  LocalAgentConfig, agent_is_configured, is_configured, apply_flags, default_agents, default_mode,
  flagged,
}
use myco_agent.Node.LocalConfig.Configured.{flagged-configured}
use myco_agent.Cli.{bad_parameter}
use myco_agent.Cli.Yields.{Yields, Yields-ok, Yields-raise}
use myco_agent.Cli.Init.{
  InitFlags, Resolved, resolved, resolved_by, forced_executor, word, defaults, or_defaults,
  flagged_file,
}

abbrev pub has_name : LocalAgentConfig → Bool
has_name a = truthy (strip a.name)

-- Which agents are there is all that it takes.
unfoldable pub Ready : List LocalAgentConfig → Type 0
Ready agents = all agent_is_configured agents ≡ all has_name agents

abbrev pub no_agents : Option (List LocalAgentConfig) → Bool
no_agents none = false
no_agents (some agents) = is_nil agents

pub is_configured-Ready :
    (agents : List LocalAgentConfig)
    → Ready agents
    → is_nil agents ≡ false
    → all has_name agents ≡ true
    → is_configured (some agents) ≡ true
unfolding is_configured Ready
is_configured-Ready agents r n h = rw n (r ∙ h)

-- The URL is known once a provider or a URL is given.
unfoldable pub KnownUrl : Resolved → Type 0
KnownUrl r = is_some r.llm_url ≡ true

-- What is written: there are agents, and each is ready but for its name.
unfoldable pub Good : List LocalAgentConfig → Type 0
Good agents = (is_nil agents ≡ false) × Ready agents

module _ (in_container : Bool) (quoted : String → String) (str : Json → String)
    (get : (url key : String) → ModelsReply) (discovered : List String × List String) where
  pub resolved-KnownUrl :
      (flags : InitFlags)
      → (given flags.provider || is_some flags.llm_url) ≡ true
      → Yields KnownUrl (resolved in_container quoted str get discovered flags)
  unfolding resolved KnownUrl
  resolved-KnownUrl flags some_llm = elim (Bool-cases (word flags.provider == "opencode")) [
    | inl e ↦ rw e (
        Yields-ok KnownUrl
          (record { executor = some "opencode"; llm_url = some ""; llm_model = some "" }) refl)
    | inr e ↦
        rw e
          (elim (Bool-cases
            (given flags.provider || (given flags.llm_url && not (given flags.llm_model)))) [
              | inl k ↦ rw k (
                  by_provider (
                    resolve_for_init str get in_container quoted flags.provider flags.llm_url
                      flags.llm_model (or_empty flags.llm_key)))
              | inr k ↦ rw k (
                  Yields-ok KnownUrl
                    (record {
                      executor = forced_executor flags;
                      llm_url = flags.llm_url;
                      llm_model = flags.llm_model;
                    })
                    (ground (arith, some_llm, k)))
            ])
  ]
    where
      by_provider :
          (r : Result String (String × (String × List String)))
          → Yields KnownUrl (resolved_by (forced_executor flags) r)
      by_provider (ok (url, (model, notes))) =
          Yields-ok KnownUrl
            (record {
              executor = forced_executor flags;
              llm_url = some url;
              llm_model = some model;
            })
            refl
      by_provider (raise exc) = Yields-raise KnownUrl (bad_parameter exc)

  flagged-Ready :
      (u : Option String) (model key executor : Option String) (agents : List LocalAgentConfig)
      → is_some u ≡ true
      → Ready (apply_flags discovered u model key executor agents)
  unfolding apply_flags Ready
  flagged-Ready none model key executor agents k = absurd (ground (arith, k))
  flagged-Ready (some u) model key executor [] k = refl
  flagged-Ready (some u) model key executor (a ∷ agents) k =
      let ih = flagged-Ready (some u) model key executor agents k in
      rw (flagged-configured discovered u model key executor a)
        (ap (λ b. has_name (flagged discovered (some u) model key executor a) && b) ih)

  pub default_agents-nonempty :
      (url model key : String) (executor : Option String)
      → is_nil (default_agents discovered url model key executor) ≡ false
  unfolding default_agents
  default_agents-nonempty url model key executor =
      elim (Bool-cases (default_mode discovered url executor == "opencode")) [
        | inl e ↦ rw e refl
        | inr e ↦ rw e refl
      ]

  apply_flags-nonempty :
      (r : Resolved) (key : Option String) (agents : List LocalAgentConfig)
      → is_nil agents ≡ false
      → is_nil (apply_flags discovered r.llm_url r.llm_model key r.executor agents) ≡ false
  unfolding apply_flags
  apply_flags-nonempty r key [] h = h
  apply_flags-nonempty r key (a ∷ agents) h = refl

  or_defaults-nonempty :
      (existing : Option (List LocalAgentConfig)) (agents : List LocalAgentConfig)
      → no_agents existing ≡ false
      → is_nil agents ≡ false
      → is_nil (or_defaults in_container quoted str get discovered existing agents) ≡ false
  or_defaults-nonempty none agents h n = n
  or_defaults-nonempty (some existing) agents h n = h

  pub flagged_file-Good :
      (existing : Option (List LocalAgentConfig)) (r : Resolved) (key : Option String)
      → no_agents existing ≡ false
      → KnownUrl r
      → Good (flagged_file in_container quoted str get discovered existing r key)
  unfolding flagged_file Good KnownUrl
  flagged_file-Good existing r key h url =
      let agents : List LocalAgentConfig =
        or_defaults in_container quoted str get discovered existing
          (defaults in_container quoted str get discovered r key) in
      let there = apply_flags-nonempty r key agents (
        or_defaults-nonempty existing (defaults in_container quoted str get discovered r key) h (
          default_agents-nonempty (or_empty r.llm_url) (or_empty r.llm_model) (or_empty key)
            r.executor)) in
      rw (there, flagged_file)
        (there, flagged-Ready r.llm_url r.llm_model key r.executor agents url)
