-- ===== src/Node/Api.antt =====
-- src/mycoagent/node/api.py: the endpoints of an agent, with `handle_envelope` of
-- src/mycoagent/node/runtime.py. The scoped router's handlers are the same once the agent is found.
pub mod Refused
pub mod Apps
use Prim.Native.String.{◌++◌ as join_texts}
use myco_agent.Common.{ℕ, String, Bool, true, false, Option, none, some, List}
use myco_agent.Exec.{Result, ok, raise, pure, throw, ◌>>=◌}
use myco_agent.Models.{
  SubtaskSpec, JobMemory, JobSubmitRequest, ForwardRequest, NodeRecord, ChildWork, Envelope,
  assign_subtask, subtask_result, invalid_body, unknown_type,
}
use myco_agent.Node.Jobs.{Codec, get_job}
use myco_agent.Node.Agent.{
  Agent, AgentM, AgentError, busy_error, dispatch_error, parent_forbidden, runtime_error,
  missing_key, value_error, other_error, Network,
}
use myco_agent.Node.Parent.{accept_result}
use myco_agent.Node.Submit.{submit_job, forward_subtask}
use myco_agent.Node.Mailbox.{accept_child}

-- Which role a message was accepted in.
pub data Role : Type 0 where
  child parent : Role

-- The status code of a handler's outcome: `codes` are its `except` clauses, 500 what none catches.
abbrev pub status_of : {A : Type 0} → (codes : AgentError → ℕ) → Result AgentError A → ℕ
status_of codes (ok a) = 200
status_of codes (raise e) = codes e

unfoldable pub submit_codes : AgentError → ℕ
submit_codes (parent_forbidden detail) = 403
submit_codes (dispatch_error detail) = 409
submit_codes _ = 500

unfoldable pub forward_codes : AgentError → ℕ
forward_codes (missing_key key) = 404
forward_codes (dispatch_error detail) = 409
forward_codes _ = 500

unfoldable pub mailbox_codes : AgentError → ℕ
mailbox_codes (busy_error detail) = 409
mailbox_codes (missing_key key) = 404
mailbox_codes (dispatch_error detail) = 400
mailbox_codes (value_error detail) = 400
mailbox_codes _ = 500

unfoldable pub list_jobs_handler : Agent → List JobMemory
list_jobs_handler a = a.jobs.jobs

-- `none` is a response with status 404.
unfoldable pub get_job_handler : (job_id : String) → Agent → Option JobMemory
get_job_handler job_id a = get_job job_id a.jobs

unfoldable pub child_work : Agent → Option ChildWork
child_work a = a.current_child

module _ (codec : Codec) where
  -- pydantic's `ValidationError` is a `ValueError`.
  unfoldable pub handle_envelope : Envelope → AgentM Role
  handle_envelope (assign_subtask message) = do _ ← accept_child message; pure child
  handle_envelope (subtask_result message) = do _ ← accept_result codec message; pure parent
  handle_envelope (invalid_body detail) = throw (value_error detail)
  handle_envelope (unknown_type name) =
      throw (value_error (join_texts "unknown mailbox type: " name))

  unfoldable pub mailbox_handler : Envelope → Agent → ℕ × Agent
  mailbox_handler envelope a =
      let (r, a') = handle_envelope envelope a in (status_of mailbox_codes r, a')

  unfoldable pub submit_handler :
      Network
      → Option (String → List NodeRecord → String → Result String (List SubtaskSpec))
      → (run_work : ChildWork → Result String String) → (job_id : String) → (uuids : ℕ → String)
      → (now : ℕ) → JobSubmitRequest
      → Agent
      → ℕ × Agent
  submit_handler net planner run_work job_id uuids now body a =
      let (r, a') = submit_job codec net planner run_work job_id uuids now body a in
      (status_of submit_codes r, a')

  unfoldable pub forward_handler :
      Network → (uuid job_id : String) → ForwardRequest → Agent → ℕ × Agent
  forward_handler net uuid job_id body a =
      let (r, a') = forward_subtask codec net uuid job_id body a in (status_of forward_codes r, a')
