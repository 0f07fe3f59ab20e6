-- ===== src/Node/Executor/Loop.antt =====
-- The loop of src/mycoagent/node/executor.py answers only what the model said, within its steps.
use myco_agent.Common.{
  ℕ, zero, suc, ◌+◌, ◌<◌, ◌≡◌, refl, String, true, some, List, arith, is_nil, truthy, or_empty,
}
use myco_agent.Exec.{Result, ok, raise}
use myco_agent.Models.{ChildWork, SubtaskStatus, Json}
use myco_agent.Node.Executor.{
  Message, LlmResponse, Workspace, Turn, answers, goes_on, turn, run_loop, run,
}

module _ (str : Json → String) (workspace : Workspace) where
  -- The model's `k`-th answer calls no tool, and its text is the result.
  pub record Said (chat : ℕ → List Message → Result String LlmResponse) (k : ℕ) (result : String)
      : Type 0 where
    pub messages : List Message
    pub response : LlmResponse
    pub answered : chat k messages ≡ ok response
    pub no_calls : is_nil response.tool_calls ≡ true
    pub stripped : workspace.strip_local_paths (or_empty response.content) ≡ result
    pub nonempty : truthy result ≡ true

  turn-answers :
      (messages : List Message) (response : LlmResponse) (result : String)
      → turn str workspace messages response ≡ answers result
      → (is_nil response.tool_calls ≡ true)
        × (workspace.strip_local_paths (or_empty response.content) ≡ result)
        × (truthy result ≡ true)
  unfolding turn
  turn-answers messages response result e =
      (ground (arith, e), ground (arith, e), ground (arith, e))

  -- The result of a loop that starts at the `k`-th answer and has `steps` steps.
  Outcome :
      (chat : ℕ → List Message → Result String LlmResponse)
      → (work done : ChildWork) → (steps k : ℕ) → Type 0
  Outcome chat work done steps k =
      (i : ℕ) × (result : String) × (i < k + steps)
      × Said chat i result
      × (done ≡ record work { status = SubtaskStatus.completed; result = some result })

  run_loop_said :
      (chat : ℕ → List Message → Result String LlmResponse) (exceeded : String)
      (work done : ChildWork) (steps k : ℕ) (messages : List Message)
      → run_loop str workspace chat exceeded work steps k messages ≡ ok done
      → Outcome chat work done steps k
  unfolding run_loop Outcome
  run_loop_said chat exceeded work done zero k messages e = absurd (ground (arith, e))
  run_loop_said chat exceeded work done (suc steps) k messages e =
      asked (λ next. run_loop_said chat exceeded work done steps (suc k) next) (chat k messages)
        refl e
    where
      turned :
          ((next : List Message)
            → run_loop str workspace chat exceeded work steps (suc k) next ≡ ok done
            → Outcome chat work done steps (suc k))
          → (response : LlmResponse) → chat k messages ≡ ok response
          → (t : Turn) → turn str workspace messages response ≡ t
          → elim t [
            | answers result ↦
                ok (record work { status = SubtaskStatus.completed; result = some result })
            | goes_on next ↦ run_loop str workspace chat exceeded work steps (suc k) next
          ]
            ≡ ok done
          → Outcome chat work done (suc steps) k
      turned later response said (answers result) t h =
          let (no_calls, stripped, nonempty) = turn-answers messages response result t in
          (
            k,
            result,
            omega arith,
            record {
              messages = messages;
              response = response;
              answered = said;
              no_calls = no_calls;
              stripped = stripped;
              nonempty = nonempty;
            },
            ground (arith, h),
          )
      turned later response said (goes_on next) t h =
          let (i, result, small, said', same) = later next h in
          (i, result, omega (arith, small), said', same)

      asked :
          ((next : List Message)
            → run_loop str workspace chat exceeded work steps (suc k) next ≡ ok done
            → Outcome chat work done steps (suc k))
          → (r : Result String LlmResponse) → chat k messages ≡ r
          → elim r [
            | raise exc ↦ raise exc
            | ok response ↦ elim (turn str workspace messages response) [
              | answers result ↦
                  ok (record work { status = SubtaskStatus.completed; result = some result })
              | goes_on next ↦ run_loop str workspace chat exceeded work steps (suc k) next
            ]
          ]
            ≡ ok done
          → Outcome chat work done (suc steps) k
      asked later (raise exc) said h = absurd (ground (arith, h))
      asked later (ok response) said h =
          turned later response said (turn str workspace messages response) refl h

  -- A child's work ends only with a text of the model: a run that returns gives the work back with
  -- nothing changed but its status, completed, and its result, which is a non-empty answer without
  -- tool calls among the first `max_steps`, with the workspace's paths stripped.
  pub run-Said :
      (chat : ℕ → List Message → Result String LlmResponse)
      (exceeded system_prompt user_prompt : String) (max_steps : ℕ) (work done : ChildWork)
      → run str workspace chat exceeded system_prompt user_prompt max_steps work ≡ ok done
      → (i : ℕ) × (result : String) × (i < max_steps)
        × Said chat i result
        × (done ≡ record work { status = SubtaskStatus.completed; result = some result })
  unfolding run Outcome
  run-Said chat exceeded system_prompt user_prompt max_steps work done e =
      let (i, result, small, said', same) = run_loop_said chat exceeded work done max_steps 0 _ e in
      (i, result, omega (arith, small), said', same)
