-- ===== src/Auth/Tests.antt =====
-- Applications of the theorems on tokens at concrete inputs.
use myco_agent.Common.{◌≡◌, refl, ◌↔◌, none, some}
use myco_agent.Auth.{check_bearer}
use myco_agent.Auth.Tokens.{Carries, check_bearer_iff}

check_bearer_iff_example :
    (check_bearer (some "Bearer  key ") (some "key") ≡ none) ↔ Carries (some "Bearer  key ") "key"
check_bearer_iff_example = check_bearer_iff (some "Bearer  key ") "key" refl
