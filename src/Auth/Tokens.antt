-- ===== src/Auth/Tokens.antt =====
-- Who passes the check of src/mycoagent/auth.py.
use myco_agent.Common.{
  eq_refl, String, ◌≡◌, refl, sym, ap, ◌∙◌, ◌↔◌, true, Option, none, some, ◌++◌, arith, given,
  truthy, or_empty, ◌==◌, eq_iff, if◌then◌else◌, inl, inr, Bool-cases,
}
use myco_agent.Text.{
  chars, text, chars-text, text-chars, truthy-chars, drop, begins, strip, startswith, cat,
}
use myco_agent.Text.Begins.{begins-drop}
use myco_agent.Text.Strip.{strip_idem}
use myco_agent.Auth.{resolve_token, bearer_headers, header, check_bearer, middleware}

-- The header is `Bearer`, a space, and the token, perhaps with spaces around it.
pub record Carries (authorization : Option String) (token : String) : Type 0 where
  pub rest : String
  pub spelled : authorization ≡ some (cat "Bearer " rest)
  pub same : strip rest ≡ token

startswith-cat : (rest : String) → startswith "Bearer " (cat "Bearer " rest) ≡ true
unfolding startswith cat
startswith-cat rest = refl

drop-cat : (rest : String) → text (drop 7 (chars (cat "Bearer " rest))) ≡ rest
unfolding cat
drop-cat rest = ap text (chars-text (chars rest)) ∙ text-chars rest

given-cat : (rest : String) → given (some (cat "Bearer " rest)) ≡ true
unfolding cat
given-cat rest = truthy-chars (cat "Bearer " rest) ∙ (unfold cat in refl)

check_bearer-Carries :
    (authorization : Option String) (token : String)
    → Carries authorization token
    → check_bearer authorization (some token) ≡ none
unfolding check_bearer
check_bearer-Carries authorization token c =
    rw (c.spelled, check_bearer, given-cat c.rest, startswith-cat c.rest, drop-cat c.rest, c.same)
      (ground (arith, eq_refl token))

check_bearer→Carries :
    (authorization : Option String) (token : String)
    → truthy token ≡ true
    → check_bearer authorization (some token) ≡ none
    → Carries authorization token
unfolding check_bearer startswith cat
check_bearer→Carries none token t h = absurd (ground (arith, t, h))
check_bearer→Carries (some a) token t h =
    let starts : begins (chars "Bearer ") (chars a) ≡ true = ground (arith, t, h) in
    let whole = begins-drop (chars "Bearer ") (chars a) starts in
    let rest = text (drop 7 (chars a)) in
    record {
      rest = rest;
      spelled = ap some (
          sym (text-chars a)
          ∙ ap text
              (whole ∙ ap (λ cs. chars "Bearer " ++ cs) (sym (chars-text (drop 7 (chars a))))));
      same = ground (arith, t, h, eq_iff (strip rest) token);
    }

-- A request passes the check of a set token exactly if its header is `Bearer`, a space and the token,
-- where spaces around the token do not count.
pub check_bearer_iff :
    (authorization : Option String) (token : String)
    → truthy token ≡ true
    → (check_bearer authorization (some token) ≡ none) ↔ Carries authorization token
check_bearer_iff authorization token t =
    (check_bearer→Carries authorization token t, check_bearer-Carries authorization token)

stripped :
    (t token : String)
    → (if truthy (strip t) then some (strip t) else none) ≡ some token
    → (strip token ≡ token) × (truthy token ≡ true)
stripped t token h = elim (Bool-cases (truthy (strip t))) [
  | inl e ↦
      let same : strip t ≡ token = ground (arith, e, h) in
      (ap strip (sym same) ∙ strip_idem t ∙ same, rw same at e)
  | inr e ↦ absurd (ground (arith, e, h))
]

resolved_is_stripped :
    (explicit env : Option String) (token : String)
    → resolve_token explicit env ≡ some token
    → (strip token ≡ token) × (truthy token ≡ true)
unfolding resolve_token
resolved_is_stripped none env token h = stripped (or_empty env) token h
resolved_is_stripped (some explicit) env token h = stripped explicit token h

-- A client and a server that resolve their token from the same settings understand each other: the
-- server lets every request of the client through, whether a token is set or not.
pub middleware-bearer_headers :
    (explicit env : Option String) (path : String)
    → let token = resolve_token explicit env in middleware token path (bearer_headers token) ≡ none
unfolding middleware bearer_headers header
middleware-bearer_headers explicit env path = go (resolve_token explicit env) refl
  where
    go :
        (token : Option String)
        → resolve_token explicit env ≡ token
        → middleware token path (bearer_headers token) ≡ none
    go none e = refl
    go (some token) e =
        let (same, t) = resolved_is_stripped explicit env token e in
        let passes =
          check_bearer-Carries (some (cat "Bearer " token)) token
            (record { rest = token; spelled = refl; same = same }) in
        rw t (elim (Bool-cases (path == "/health")) [
          | inl health ↦ rw health refl
          | inr other ↦ rw other passes
        ])
