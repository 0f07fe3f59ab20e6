-- ===== src/Auth.antt =====
-- src/mycoagent/auth.py: the optional shared token, and the middleware of src/mycoagent/manager/api.py.
pub mod Tokens
mod Tests
use myco_agent.Common.{
  ℕ, String, Bool, true, false, not, ◌||◌, Option, none, some, List, [], ◌∷◌, given, truthy,
  or_empty, ◌==◌, if◌then◌else◌,
}
use myco_agent.Text.{chars, text, drop, strip, startswith, cat}

-- `value or None`
abbrev or_none : String → Option String
or_none value = if truthy value then some value else none

-- `env` is the variable `MYCOAGENT_TOKEN`.
unfoldable pub resolve_token : (explicit env : Option String) → Option String
resolve_token none env = or_none (strip (or_empty env))
resolve_token (some explicit) env = or_none (strip explicit)

unfoldable pub bearer_headers : Option String → List (String × String)
bearer_headers token =
    if not (given token) then [] else ("Authorization", cat "Bearer " (or_empty token)) ∷ []

-- A header of a request, by its name.
unfoldable pub header : String → List (String × String) → Option String
header name [] = none
header name ((k, v) ∷ rest) = let found = header name rest in if k == name then some v else found

-- The status and detail of the error that `check_bearer` raises, if it does.
unfoldable pub check_bearer : (authorization expected : Option String) → Option (ℕ × String)
check_bearer authorization expected =
    if not (given expected)
    then none
    else if not (given authorization) || not (startswith "Bearer " (or_empty authorization))
    then some (401, "missing or invalid authorization")
    else if not (strip (text (drop 7 (chars (or_empty authorization)))) == or_empty expected)
    then some (401, "invalid token")
    else none

-- `_BearerMiddleware.dispatch`, which an application with a token has: the error that a request is
-- answered with before it reaches its handler.
unfoldable pub middleware :
    (token : Option String) → (path : String) → List (String × String) → Option (ℕ × String)
middleware token path headers =
    if not (given token)
    then none
    else if path == "/health"
    then none
    else check_bearer (header "Authorization" headers) token
