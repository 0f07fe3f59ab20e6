-- ===== src/Cli/Specs/EnvId.antt =====
-- The agents of `--agent` where the environment of src/mycoagent/node/identity.py names an id.
use myco_agent.Common.{
  ℕ, zero, suc, String, ◌≡◌, refl, ap, ◌∙◌, Bool, true, false, not, Option, none, some, List, [],
  ◌∷◌, map, all, arith, is_nil, given, or_empty, truthy, ◌==◌, Bool-cases, inl, inr,
}
use myco_agent.Exec.{Result, ok, raise, pure, ◌>>=◌}
use myco_agent.Exec.Gives.{Gives, Gives-after, Gives-bind, given_by}
use myco_agent.Models.{Json, ModelSpec}
use myco_agent.Text.{lower, strip, split}
use myco_agent.Node.Names.{resolve_agent_id}
use myco_agent.Node.Capabilities.Paths.{PathLib}
use myco_agent.Node.Host.{AgentSpec}
use myco_agent.Node.LocalConfig.{LocalAgentConfig}
use myco_agent.Cli.{CliError, CliM}
use myco_agent.Cli.Specs.{
  option_spec, parse_agent_option, parse_agent_options, agent_specs, merge_opencode_catalog,
  resolve_specs,
}
use myco_agent.Cli.Options.{HostFlags, Named, fields_of, look, resolve_id, lift, root_alone}

-- The fields name no id, or a blank one.
abbrev NoId : List Named → Type 0
NoId fields = truthy (strip (or_empty (look "id" fields))) ≡ false

abbrev no_id : Result CliError (List Named) → Bool
no_id (ok fields) = not (truthy (strip (or_empty (look "id" fields))))
no_id (raise e) = true

-- A value of `--agent` that names no id
abbrev pub without_id : String → Bool
without_id raw = no_id (fields_of (split b',' raw) [])

resolve_id-env :
    (uuid : String) (explicit env_id id_file : Option String) (files : List Named)
    → truthy (strip (or_empty explicit)) ≡ false
    → given env_id ≡ true
    → (resolve_id uuid explicit env_id id_file files).0 ≡ ok (or_empty env_id)
unfolding resolve_id resolve_agent_id
resolve_id-env uuid explicit env_id id_file files blank env =
    rw (blank, env) (ground (arith, blank, env))

module _ (env_id : Option String) where
  EnvId : AgentSpec → Type 0
  EnvId spec = spec.agent_id ≡ env_id

  pub AllEnvId : List AgentSpec → Type 0
  AllEnvId [] = Unit
  AllEnvId (spec ∷ specs) = EnvId spec × AllEnvId specs

  AllEnvId-map :
      (f : AgentSpec → AgentSpec)
      → ((spec : AgentSpec) → (f spec).agent_id ≡ spec.agent_id)
      → (specs : List AgentSpec) → AllEnvId specs
      → AllEnvId (map f specs)
  unfolding AllEnvId EnvId
  AllEnvId-map f same [] h = h
  AllEnvId-map f same (spec ∷ specs) (h, rest) = (same spec ∙ h, AllEnvId-map f same specs rest)

  root_alone-AllEnvId : (specs : List AgentSpec) → AllEnvId specs → AllEnvId (root_alone specs)
  unfolding AllEnvId EnvId
  root_alone-AllEnvId [] h = h
  root_alone-AllEnvId (spec ∷ []) h = h
  root_alone-AllEnvId (a ∷ (b ∷ specs)) h = h

module _ (str : Json → String) (loads : String → Option Json) (fs : PathLib)
    (env_id : Option String) (uuids : ℕ → String) (discovered : List String × List String)
    (env : given env_id ≡ true) where
  kept_env : (id : String) → id ≡ or_empty env_id → some id ≡ env_id
  kept_env id e = or_env env_id env e
    where
      or_env : (o : Option String) → given o ≡ true → id ≡ or_empty o → some id ≡ o
      or_env none h k = absurd (ground (arith, h))
      or_env (some t) h k = ap some k

  resolved :
      (uuid : String) (explicit id_file : Option String)
      → truthy (strip (or_empty explicit)) ≡ false
      → Gives (λ id. id ≡ or_empty env_id) (resolve_id uuid explicit env_id id_file)
  resolved uuid explicit id_file h = record {
    at = λ s. rw (resolve_id-env uuid explicit env_id id_file s h env) refl;
  }

  lifted : (r : Result CliError (List Named)) → no_id r ≡ true → Gives NoId (lift r)
  lifted (ok fields) h = record { at = λ s. ground (arith, h) }
  lifted (raise e) h = record { at = λ s. tt }

  option_spec-EnvId :
      (uuid name : String) (fields : List Named) (id_file : Option String)
      (names : List String × List String) (models : List ModelSpec)
      → NoId fields
      → Gives (EnvId env_id) (
          resolve_id uuid (look "id" fields) env_id id_file >>= (λ agent_id.
            pure
              (option_spec str loads fs env_id uuids discovered name fields names models agent_id)))
  unfolding EnvId
  option_spec-EnvId uuid name fields id_file names models h =
      Gives-bind (λ id. id ≡ or_empty env_id) (λ spec. spec.agent_id ≡ env_id)
        (resolve_id uuid (look "id" fields) env_id id_file)
        (λ agent_id.
          pure (option_spec str loads fs env_id uuids discovered name fields names models agent_id))
        (resolved uuid (look "id" fields) id_file h) (λ id e. record { at = λ s. kept_env id e })

  parse_agent_option-EnvId :
      (uuid raw : String)
      → without_id raw ≡ true
      → Gives (EnvId env_id) (parse_agent_option str loads fs env_id uuids discovered uuid raw)
  unfolding parse_agent_option
  parse_agent_option-EnvId uuid raw h =
      Gives-bind NoId (EnvId env_id) _ _ (lifted (fields_of (split b',' raw) []) h)
        (λ fields blank. search (Gives-after, option_spec-EnvId) depth 9)

  parse_agent_options-AllEnvId :
      (k : ℕ) (raws : List String)
      → all without_id raws ≡ true
      → Gives (AllEnvId env_id) (parse_agent_options str loads fs env_id uuids discovered k raws)
  unfolding parse_agent_options AllEnvId
  parse_agent_options-AllEnvId k [] h = record { at = λ s. tt }
  parse_agent_options-AllEnvId k (raw ∷ raws) h =
      Gives-bind (EnvId env_id) (AllEnvId env_id) _ _
        (parse_agent_option-EnvId (uuids k) raw (ground (arith, h)))
        (λ spec same.
          Gives-bind (AllEnvId env_id) (AllEnvId env_id) _ _
            (parse_agent_options-AllEnvId (suc k) raws (ground (arith, h)))
            (λ specs rest. record { at = λ s. (same, rest) }))

  merge_opencode_catalog-AllEnvId :
      (mode : String) (specs : List AgentSpec)
      → AllEnvId env_id specs
      → AllEnvId env_id (merge_opencode_catalog str loads fs env_id uuids discovered mode specs)
  unfolding merge_opencode_catalog
  merge_opencode_catalog-AllEnvId mode specs h =
      elim (Bool-cases (lower (strip mode) == "opencode")) [
        | inl e ↦ rw e (AllEnvId-map env_id _ (λ spec. refl) specs h)
        | inr e ↦ rw e h
      ]

  agent_specs-AllEnvId :
      (flags : HostFlags)
      → is_nil flags.agents ≡ false
      → all without_id flags.agents ≡ true
      → Gives (AllEnvId env_id) (agent_specs str loads fs env_id uuids discovered flags)
  unfolding agent_specs
  agent_specs-AllEnvId flags some_agent blank = rw some_agent (
      Gives-bind (AllEnvId env_id) (AllEnvId env_id) _ _
        (parse_agent_options-AllEnvId zero flags.agents blank)
        (λ all_specs h. record { at = λ s. root_alone-AllEnvId env_id all_specs h }))

  -- While the environment names an id, all agents of the values of `--agent` have this one id if no value names an id of
  -- its own.
  pub resolve_specs-AllEnvId :
      (load_local_config : String → CliM (Option (List LocalAgentConfig))) (flags : HostFlags)
      (specs : List AgentSpec) (files files' : List Named)
      → is_nil flags.agents ≡ false
      → all without_id flags.agents ≡ true
      → resolve_specs str loads fs env_id uuids discovered load_local_config flags files
        ≡ (ok specs, files')
      → AllEnvId env_id specs
  unfolding resolve_specs
  resolve_specs-AllEnvId load_local_config flags specs files files' some_agent blank returns =
      given_by (AllEnvId env_id)
        (resolve_specs str loads fs env_id uuids discovered load_local_config flags) files files'
        specs
        (rw some_agent (
          Gives-bind (AllEnvId env_id) (AllEnvId env_id) _ _
            (agent_specs-AllEnvId flags some_agent blank)
            (λ all_specs h. record {
              at = λ s. merge_opencode_catalog-AllEnvId flags.executor_name all_specs h;
            })))
        returns
