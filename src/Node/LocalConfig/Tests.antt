-- ===== src/Node/LocalConfig/Tests.antt =====
-- Application of the theorem on flags at an agent of the configuration file.
use mathlib.Core.Option
use myco_agent.Common.{◌≡◌, none, some, [], ◌∷◌, truthy}
use myco_agent.Text.{strip}
use myco_agent.Node.Host.{attach_spec_llm}
use myco_agent.Node.LocalConfig.{LocalAgentConfig, agent_is_configured, spec_from_local, flagged}
use myco_agent.Node.LocalConfig.Configured.{runs, flagged-runs}

abbrev alpha : LocalAgentConfig
alpha = record {
  name = "alpha";
  skills = "coding" ∷ [];
  tools = "shell" ∷ [];
  executor = "echo";
  llm_url = "";
  llm_model = "";
  llm_key = "";
  models = "llama3:local:8192" ∷ [];
}

abbrev flagged_alpha : LocalAgentConfig
flagged_alpha = flagged ([], []) (some "http://h/v1") (some "llama3") none none alpha

flagged-runs_example :
    (agent_is_configured flagged_alpha ≡ truthy (strip "alpha"))
    × (Option.map (λ spec. (attach_spec_llm spec).executor) (spec_from_local flagged_alpha)
        ≡ Option.map (λ spec. some (runs "echo" "http://h/v1")) (spec_from_local flagged_alpha))
flagged-runs_example = flagged-runs ([], []) "http://h/v1" (some "llama3") none alpha
