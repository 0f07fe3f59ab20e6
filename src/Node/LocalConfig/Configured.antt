-- ===== src/Node/LocalConfig/Configured.antt =====
-- What the flags of a start make of an agent of the configuration file.
use mathlib.Core.Option
use myco_agent.Common.{
  String, ◌≡◌, refl, ap, ◌∙◌, Bool, true, false, Option, none, some, List, [], truthy, arith, ◌==◌,
  eq_iff, inl, inr, Bool-cases, is_nil, if◌then◌else◌,
}
use myco_agent.Models.{ModelSpec}
use myco_agent.Text.{strip, lower, lower_char}
use myco_agent.Node.Specs.{parse_models}
use myco_agent.Node.Host.{AgentSpec, Kind, echo, tool_loop, open_code, attach_spec_llm}
use myco_agent.Node.LocalConfig.{
  join, LocalAgentConfig, agent_is_configured, spec_from_local, spec_with, set_executor, set_url,
  set_model, set_key, name_model, flagged,
}

-- Two entries that run alike: the same name, executor and URL.
record Alike (a b : LocalAgentConfig) : Type 0 where
  pub name : a.name ≡ b.name
  pub executor : a.executor ≡ b.executor
  pub llm_url : a.llm_url ≡ b.llm_url

Alike-refl : (a : LocalAgentConfig) → Alike a a
Alike-refl a = record { name = refl; executor = refl; llm_url = refl }

Alike-trans : (a b c : LocalAgentConfig) → Alike a b → Alike b c → Alike a c
Alike-trans a b c x y = record {
  name = x.name ∙ y.name;
  executor = x.executor ∙ y.executor;
  llm_url = x.llm_url ∙ y.llm_url;
}

Alike-if :
    (b : Bool) (x y a : LocalAgentConfig) → Alike x a → Alike y a → Alike (if b then x else y) a
Alike-if true x y a h k = h
Alike-if false x y a h k = k

module _ (discovered : List String × List String) where
  set_model-Alike : (o : Option String) (a : LocalAgentConfig) → Alike (set_model discovered o a) a
  unfolding set_model
  set_model-Alike none a = Alike-refl a
  set_model-Alike (some m) a =
      Alike-if (a.executor == "opencode") a _ a (Alike-refl a)
        (record { name = refl; executor = refl; llm_url = refl })

  set_key-Alike : (o : Option String) (a : LocalAgentConfig) → Alike (set_key discovered o a) a
  unfolding set_key
  set_key-Alike none a = Alike-refl a
  set_key-Alike (some k) a =
      Alike-if (a.executor == "opencode") a _ a (Alike-refl a)
        (record { name = refl; executor = refl; llm_url = refl })

  name_model-Alike : (a : LocalAgentConfig) → Alike (name_model discovered a) a
  unfolding name_model
  name_model-Alike a =
      Alike-if _ _ a a (record { name = refl; executor = refl; llm_url = refl }) (Alike-refl a)

-- The mode of an entry, as the check and the agent's start read it
abbrev mode_of : String → String
mode_of executor = lower (strip executor)

open_code_mode : mode_of "opencode" ≡ "opencode"
open_code_mode = unfold strip lower lower_char in refl

auto_mode : mode_of "auto" ≡ "auto"
auto_mode = unfold strip lower lower_char in refl

echo_mode : mode_of "echo" ≡ "echo"
echo_mode = unfold strip lower lower_char in refl

module _ (a : LocalAgentConfig) where
  pub open_code-configured : a.executor ≡ "opencode" → agent_is_configured a ≡ truthy (strip a.name)
  unfolding agent_is_configured
  open_code-configured e = elim (Bool-cases (truthy (strip a.name))) [
    | inl n ↦ rw (n, e, open_code_mode) refl
    | inr n ↦ rw n refl
  ]

  pub url-configured :
      a.executor ≡ "auto"
      → truthy (strip a.llm_url) ≡ true
      → agent_is_configured a ≡ truthy (strip a.name)
  unfolding agent_is_configured
  url-configured e t = elim (Bool-cases (truthy (strip a.name))) [
    | inl n ↦ rw (n, e, auto_mode, t) refl
    | inr n ↦ rw n refl
  ]

  pub echo-configured : a.executor ≡ "echo" → agent_is_configured a ≡ truthy (strip a.name)
  unfolding agent_is_configured
  echo-configured e = elim (Bool-cases (truthy (strip a.name))) [
    | inl n ↦ rw (n, e, echo_mode) (ground arith)
    | inr n ↦ rw n refl
  ]

-- What an entry runs once a URL was given to it.
abbrev pub runs : (executor llm_url : String) → Kind
runs executor llm_url =
    if executor == "opencode" then open_code else if truthy (strip llm_url) then tool_loop else echo

module _ (discovered : List String × List String) (llm_url : String) where
  -- The executor and the URL that an entry has once a URL was given to it: one of three cases.
  data Given (before : String) (executor url : String) : Type 0 where
    with_open_code : before ≡ "opencode" → executor ≡ "opencode" → Given before executor url
    with_url :
        before == "opencode" ≡ false
        → truthy (strip llm_url) ≡ true
        → executor ≡ "auto"
        → url ≡ llm_url
        → Given before executor url
    with_echo :
        before == "opencode" ≡ false
        → truthy (strip llm_url) ≡ false
        → executor ≡ "echo"
        → Given before executor url

  set_url-Given :
      (a : LocalAgentConfig)
      → let b = set_url discovered (some llm_url) a in
        Given a.executor b.executor b.llm_url × (b.name ≡ a.name)
  unfolding set_url
  set_url-Given a = elim (Bool-cases (a.executor == "opencode")) [
    | inl h ↦ let e = (eq_iff a.executor "opencode").0 h in rw h (with_open_code e e, refl)
    | inr h ↦ elim (Bool-cases (truthy (strip llm_url))) [
      | inl t ↦ rw (h, t) (with_url h t refl refl, refl)
      | inr t ↦ rw (h, t) (with_echo h t refl, refl)
    ]
  ]

  configured_given :
      (before : String) (a : LocalAgentConfig)
      → Given before a.executor a.llm_url
      → agent_is_configured a ≡ truthy (strip a.name)
  configured_given before a (with_open_code p e) = open_code-configured a e
  configured_given before a (with_url p t e u) = url-configured a e (rw u t)
  configured_given before a (with_echo p t e) = echo-configured a e

  -- The mode as `spec_from_local` reads it
  abbrev start_mode : LocalAgentConfig → String
  start_mode a = mode_of (if truthy a.executor then a.executor else "auto")

  started :
      (before : String) (a : LocalAgentConfig) (models : List ModelSpec)
      → Given before a.executor a.llm_url
      → (attach_spec_llm (spec_with a (start_mode a) models)).executor ≡ some (runs before llm_url)
  unfolding attach_spec_llm
  started before a models (with_open_code p e) = rw (e, open_code_mode, p) refl
  started before a models (with_url p t e u) = rw (e, auto_mode, u, p, t, t) refl
  started before a models (with_echo p t e) = rw (e, echo_mode, p, t) refl

  started_from :
      (before : String) (a : LocalAgentConfig)
      → Given before a.executor a.llm_url
      → Option.map (λ spec. (attach_spec_llm spec).executor) (spec_from_local a)
        ≡ Option.map (λ spec. some (runs before llm_url)) (spec_from_local a)
  unfolding spec_from_local
  started_from before a given_url =
      go (if is_nil a.models then some [] else parse_models (some (join "," a.models)))
    where
      go :
          (o : Option (List ModelSpec))
          → Option.map
              (λ (spec : AgentSpec). (attach_spec_llm spec).executor)
              (elim o [ none ↦ none | some models ↦ some (spec_with a (start_mode a) models) ])
            ≡ Option.map
                (λ (spec : AgentSpec). some (runs before llm_url))
                (elim o [ none ↦ none | some models ↦ some (spec_with a (start_mode a) models) ])
      go none = refl
      go (some models) = ap some (started before a models given_url)

  Given-Alike :
      (before : String) (a b : LocalAgentConfig)
      → Alike a b
      → Given before b.executor b.llm_url
      → Given before a.executor a.llm_url
  Given-Alike before a b same (with_open_code p e) = with_open_code p (same.executor ∙ e)
  Given-Alike before a b same (with_url p t e u) =
      with_url p t (same.executor ∙ e) (same.llm_url ∙ u)
  Given-Alike before a b same (with_echo p t e) = with_echo p t (same.executor ∙ e)

  flagged-Alike :
      (llm_model llm_key executor : Option String) (agent : LocalAgentConfig)
      → Alike
          (flagged discovered (some llm_url) llm_model llm_key executor agent)
          (set_url discovered (some llm_url) (set_executor discovered executor agent))
  unfolding flagged
  flagged-Alike llm_model llm_key executor agent =
      let b = set_url discovered (some llm_url) (set_executor discovered executor agent) in
      let c = set_model discovered llm_model b in
      let d = set_key discovered llm_key c in
      Alike-trans _ d b (name_model-Alike discovered d) (
        Alike-trans d c b (set_key-Alike discovered llm_key c)
          (set_model-Alike discovered llm_model b))

  flagged-Given :
      (llm_model llm_key executor : Option String) (agent : LocalAgentConfig)
      → let a = flagged discovered (some llm_url) llm_model llm_key executor agent in
        Given (set_executor discovered executor agent).executor a.executor a.llm_url
  flagged-Given llm_model llm_key executor agent =
      let before = set_executor discovered executor agent in
      Given-Alike before.executor _ _ (flagged-Alike llm_model llm_key executor agent)
        (set_url-Given before).0

  pub flagged-configured :
      (llm_model llm_key executor : Option String) (agent : LocalAgentConfig)
      → let a = flagged discovered (some llm_url) llm_model llm_key executor agent in
        agent_is_configured a ≡ truthy (strip a.name)
  flagged-configured llm_model llm_key executor agent =
      configured_given _ _ (flagged-Given llm_model llm_key executor agent)

  -- An entry that was given a URL by a flag, and no executor by one, is configured exactly if its name is not blank;
  -- and the agent that starts from it, if its models can be read, runs OpenCode where its executor is that, and else
  -- the tool loop where the URL is not blank and the echo where it is.
  pub flagged-runs :
      (llm_model llm_key : Option String) (agent : LocalAgentConfig)
      → let a = flagged discovered (some llm_url) llm_model llm_key none agent in
        (agent_is_configured a ≡ truthy (strip agent.name))
        × (Option.map (λ spec. (attach_spec_llm spec).executor) (spec_from_local a)
            ≡ Option.map (λ spec. some (runs agent.executor llm_url)) (spec_from_local a))
  unfolding set_executor
  flagged-runs llm_model llm_key agent =
      let same_name = (set_url-Given agent).1 in
      let alike = flagged-Alike llm_model llm_key none agent in
      (
        flagged-configured llm_model llm_key none agent
            ∙ ap (λ n. truthy (strip n)) (alike.name ∙ same_name),
        started_from agent.executor _ (flagged-Given llm_model llm_key none agent),
      )
