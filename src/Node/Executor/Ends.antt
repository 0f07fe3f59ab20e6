-- ===== src/Node/Executor/Ends.antt =====
-- How a run of `ChildAgentExecutor` of src/mycoagent/node/executor.py ends.
use myco_agent.Common.{
  sym, subst, map, ◌++◌, Option, eq_iff, Bool-cases, inl, inr, truthy, or_empty, ℕ, zero, suc, ◌+◌,
  ◌<◌, ◌≡◌, refl, String, some, List, [], ◌∷◌, arith,
}
use myco_agent.Exec.{Result, ok, raise}
use myco_agent.Models.{ChildWork, SubtaskStatus, Json}
use myco_agent.Node.Executor.{
  Message, assistant, tool, ToolCall, LlmResponse, Workspace, dispatch_tool, Turn, answers, goes_on,
  turn, run_loop, run, system, user,
}

module _ (str : Json → String) (workspace : Workspace)
    (chat : ℕ → List Message → Result String LlmResponse) (system_prompt user_prompt : String) where
  -- How a conversation goes on: with the answer and what each of the tools it calls returned, in order; or, where
  -- it calls no tool and has no text, as it was.
  pub data GoesOn (messages : List Message) (response : LlmResponse) : List Message → Type 0 where
    with_tools :
        (call : ToolCall) (calls : List ToolCall)
        → response.tool_calls ≡ call ∷ calls
        → GoesOn messages response (
            messages
            ++ assistant response
              ∷ map
                  (λ c. tool c.id (dispatch_tool str workspace c.name c.arguments))
                  response.tool_calls)
    without_text :
        response.tool_calls ≡ []
        → workspace.strip_local_paths (or_empty response.content) ≡ ""
        → GoesOn messages response messages

  -- The conversation may have these messages when the model is asked for its `k`-th answer.
  pub data Reaches : ℕ → List Message → Type 0 where
    begins : Reaches 0 (system system_prompt ∷ (user user_prompt ∷ []))
    goes :
        (k : ℕ) (messages next : List Message) (response : LlmResponse)
        → Reaches k messages
        → chat k messages ≡ ok response
        → GoesOn messages response next
        → Reaches (suc k) next

  -- The ways that a run of at most `limit` answers may end: with a text, with the model's exception, or
  -- with the limit.
  pub data Ends (exceeded : String) (limit : ℕ) (work : ChildWork)
      (outcome : Result String ChildWork) : Type 0 where
    with_text :
        (k : ℕ) (messages : List Message) (response : LlmResponse) (result : String)
        → k < limit
        → Reaches k messages
        → chat k messages ≡ ok response
        → response.tool_calls ≡ []
        → workspace.strip_local_paths (or_empty response.content) ≡ result
        → (¬ (result ≡ ""))
        → outcome ≡ ok (record work { status = SubtaskStatus.completed; result = some result })
        → Ends exceeded limit work outcome
    with_exception :
        (k : ℕ) (messages : List Message) (exc : String)
        → k < limit
        → Reaches k messages
        → chat k messages ≡ raise exc
        → outcome ≡ raise exc
        → Ends exceeded limit work outcome
    with_limit :
        (messages : List Message)
        → Reaches limit messages
        → outcome ≡ raise exceeded
        → Ends exceeded limit work outcome

  -- What the two results of a turn say of the answer.
  abbrev TurnSays : List Message → LlmResponse → Turn → Type 0
  TurnSays messages response (answers result) =
      (response.tool_calls ≡ [])
      × (workspace.strip_local_paths (or_empty response.content) ≡ result)
      × (¬ (result ≡ ""))
  TurnSays messages response (goes_on next) = GoesOn messages response next

  turn-TurnSays :
      (messages : List Message) (response : LlmResponse)
      → TurnSays messages response (turn str workspace messages response)
  unfolding turn
  turn-TurnSays messages response = go response.content response.tool_calls
    where
      go :
          (content : Option String) (calls : List ToolCall)
          → TurnSays messages
              (record { content = content; tool_calls = calls })
              (turn str workspace messages (record { content = content; tool_calls = calls }))
      go content (call ∷ calls) = with_tools call calls refl
      go content [] = elim (Bool-cases (truthy (workspace.strip_local_paths (or_empty content)))) [
        | inl some_text ↦ rw some_text (
          refl,
          refl,
          λ e.
              ground
                (arith, e, some_text, eq_iff (workspace.strip_local_paths (or_empty content)) ""),
        )
        | inr no_text ↦ rw no_text (
            without_text refl
              (ground (arith, no_text, eq_iff (workspace.strip_local_paths (or_empty content)) "")))
      ]

  run_loop-Ends :
      (exceeded : String) (work : ChildWork) (steps k limit : ℕ) (messages : List Message)
      → k + steps ≡ limit
      → Reaches k messages
      → Ends exceeded limit work (run_loop str workspace chat exceeded work steps k messages)
  unfolding run_loop
  run_loop-Ends exceeded work zero k limit messages e reached =
      let same : k ≡ limit = omega (arith, e) in
      with_limit messages (subst (λ n. Reaches n messages) same reached) refl
  run_loop-Ends exceeded work (suc steps) k limit messages e reached =
      asked (λ next. run_loop-Ends exceeded work steps (suc k) limit next (omega (arith, e)))
        (chat k messages) refl
    where
      Outcome : ℕ → ℕ → List Message → Type 0
      Outcome steps k messages =
          Ends exceeded limit work (run_loop str workspace chat exceeded work steps k messages)

      turned :
          ((next : List Message) → Reaches (suc k) next → Outcome steps (suc k) next)
          → (response : LlmResponse) → chat k messages ≡ ok response
          → (t : Turn) → turn str workspace messages response ≡ t
          → Outcome (suc steps) k messages
      turned later response said (answers result) t =
          let says = subst (TurnSays messages response) t (turn-TurnSays messages response) in
          with_text k messages response result (omega (arith, e)) reached said says.0 says.1 says.2
            (rw (said, t, run_loop) refl)
      turned later response said (goes_on next) t =
          let goes_there : run_loop str workspace chat exceeded work (suc steps) k messages
              ≡ run_loop str workspace chat exceeded work steps (suc k) next =
            rw (said, t, run_loop) refl in
          subst (Ends exceeded limit work) (sym goes_there) (
            later next (
              goes k messages next response reached said
                (subst (TurnSays messages response) t (turn-TurnSays messages response))))

      asked :
          ((next : List Message) → Reaches (suc k) next → Outcome steps (suc k) next)
          → (r : Result String LlmResponse) → chat k messages ≡ r
          → Outcome (suc steps) k messages
      asked later (raise exc) said =
          with_exception k messages exc (omega (arith, e)) reached said (rw (said, run_loop) refl)
      asked later (ok response) said =
          turned later response said (turn str workspace messages response) refl

  -- Every run ends, after at most `max_steps` answers: with the first answer of the model that is a text
  -- without tool calls, as the work's result; with the exception that the model raised before; or, where
  -- `max_steps` answers brought no text, with the error that says so.
  pub run-Ends :
      (exceeded : String) (max_steps : ℕ) (work : ChildWork)
      → Ends exceeded max_steps work
          (run str workspace chat exceeded system_prompt user_prompt max_steps work)
  unfolding run
  run-Ends exceeded max_steps work =
      run_loop-Ends exceeded work max_steps 0 max_steps _ (omega arith) begins
