-- ===== src/Node/Parent.antt =====
-- src/mycoagent/node/runtime.py: what an agent does as the parent of jobs.
pub mod Outcome
pub mod Settled
use myco_agent.Common.{
  ℕ, suc, String, Bool, true, false, not, ◌&&◌, Option, none, some, List, [], ◌∷◌, map, contains,
  is_nil, given, or_empty, ◌==◌, if◌then◌else◌,
}
use myco_agent.Exec.{Result, ok, raise, resume, pure, throw, gets, modify, ◌>>=◌, ◌>>◌}
use myco_agent.Models.{
  MembershipStatus, NodeRecord, GroupInfo, SubtaskSpec, SubtaskRecord, SubtaskStatus, JobMemory,
  JobSubmitRequest, ForwardRequest, AssignSubtaskMessage, SubtaskResultMessage, CatalogQuery,
  Fields, text, arr, set_field, texts, optional_text, membership_eq,
}
use myco_agent.Table.{find}
use myco_agent.Node.Jobs.{
  Codec, JobStore, subtask_key, get_job, create, update_subtask, add_subtask, complete_local, fail,
}
use myco_agent.Node.Jobs.Calls.{run}
use myco_agent.Node.Agent.{
  Agent, AgentM, AgentError, dispatch_error, runtime_error, parent_forbidden, missing_key,
  other_error, Delivery, delivered, timed_out, refused, Network, joined, on_jobs, request, works_on,
}
use myco_agent.Node.Target.{choose_target}

abbrev pub assigned_to : NodeRecord → SubtaskRecord → SubtaskRecord
assigned_to target item = record item {
  status = SubtaskStatus.assigned;
  assignee_node_id = some target.id;
  assignee_mailbox_url = some target.mailbox_url;
}

abbrev pub failed_with : String → SubtaskRecord → SubtaskRecord
failed_with error item = record item { status = SubtaskStatus.failed; error = some error }

abbrev pub now_running : SubtaskRecord → SubtaskRecord
now_running item = record item { status = SubtaskStatus.running }

abbrev pub reported : SubtaskResultMessage → SubtaskRecord → SubtaskRecord
reported message item = record item {
  status = message.status;
  result = message.result;
  error = message.error;
  assignee_node_id = some message.child_node_id;
  artifact_ids = message.artifact_ids;
}

abbrev pub assignment : Agent → (job_id subtask_id : String) → SubtaskSpec → AssignSubtaskMessage
assignment a job_id subtask_id spec = record {
  job_id = job_id;
  subtask_id = subtask_id;
  parent_node_id = or_empty a.node_id;
  parent_mailbox_url = a.mailbox_url;
  description = spec.description;
  skills = spec.skills;
  tools = spec.tools;
  payload = spec.payload;
}

-- The error that a failed assignment leaves; `none` where it was delivered.
unfoldable pub delivery_error : Delivery → Option String
delivery_error delivered = none
delivery_error timed_out = some "dispatch timed out"
delivery_error (refused exc) = some (joined "dispatch failed: " exc)

unfoldable pub find_subtask : JobMemory → String → Option SubtaskRecord
find_subtask job subtask_id = find subtask_key subtask_id job.subtasks

module _ (codec : Codec) where
  -- After the assignment was sent: the record says what became of it.
  unfoldable pub settle : (job_id subtask_id : String) → Option String → AgentM (Unit {0})
  settle job_id subtask_id none = do
    _ ← on_jobs (update_subtask codec job_id subtask_id now_running)
    pure tt
  settle job_id subtask_id (some error) = do
    _ ← on_jobs (update_subtask codec job_id subtask_id (failed_with error))
    throw (dispatch_error error)

  -- The second half of `_dispatch`.
  unfoldable pub hand_over :
      Network → (job_id subtask_id : String) → SubtaskSpec → NodeRecord → AgentM (Unit {0})
  unfolding settle
  hand_over net job_id subtask_id spec target = do
    _ ← on_jobs (update_subtask codec job_id subtask_id (assigned_to target))
    message ← gets (λ (a : Agent). assignment a job_id subtask_id spec)
    modify (λ (a : Agent). record a { jobs = run codec (net.meanwhile message) a.jobs })
    settle job_id subtask_id (delivery_error (net.assign target.mailbox_url message))

  unfoldable pub dispatch :
      Network
      → (job_id subtask_id : String) → SubtaskSpec
      → (exclude : List String) → Option String
      → AgentM (Unit {0})
  dispatch net job_id subtask_id spec exclude target_node_id = do
    target ← choose_target net job_id spec exclude target_node_id
    hand_over net job_id subtask_id spec target

  -- `try: await self._dispatch(...) except DispatchError: ... FAILED`
  unfoldable pub mark_failed :
      (job_id subtask_id : String) → Result AgentError (Unit {0}) → AgentM (Unit {0})
  mark_failed job_id subtask_id (ok x) = pure x
  mark_failed job_id subtask_id (raise (dispatch_error error)) = do
    _ ← on_jobs (update_subtask codec job_id subtask_id (failed_with error))
    pure tt
  mark_failed job_id subtask_id (raise e) = throw e

  unfoldable pub try_dispatch :
      Network
      → (job_id subtask_id : String) → SubtaskSpec
      → (exclude : List String) → Option String
      → AgentM (Unit {0})
  try_dispatch net job_id subtask_id spec exclude target_node_id a =
      let (outcome, a') = dispatch net job_id subtask_id spec exclude target_node_id a in
      mark_failed job_id subtask_id outcome a'

  unfoldable pub accept_result : SubtaskResultMessage → AgentM (Unit {0})
  accept_result message = do
    job ← gets (λ (a : Agent). get_job message.job_id a.jobs)
    elim job [
      | none ↦ throw (missing_key message.job_id)
      | some found ↦ (do
        _ ← on_jobs (update_subtask codec message.job_id message.subtask_id (reported message))
        pure tt)
    ]
