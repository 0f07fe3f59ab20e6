-- ===== src/Node/Submit.antt =====
-- src/mycoagent/node/runtime.py: `submit_job` and `forward_subtask`, the parent's two ways to give work away.
pub mod Guards
use myco_agent.Common.{
  ℕ, suc, String, true, not, ◌&&◌, Option, none, some, List, [], ◌∷◌, contains, is_nil, given,
  or_empty, ◌==◌, if◌then◌else◌,
}
use myco_agent.Exec.{Result, ok, raise, pure, throw, gets, modify, ◌>>=◌, ◌>>◌}
use myco_agent.Models.{
  MembershipStatus, NodeRecord, SubtaskSpec, SubtaskRecord, SubtaskStatus, JobMemory,
  JobSubmitRequest, ForwardRequest, ChildWork, CatalogQuery, Fields, end, text, arr, set_field,
  texts, optional_text, membership_eq,
}
use myco_agent.Node.Jobs.{Codec, get_job, create, add_subtask, complete_local, fail}
use myco_agent.Node.Agent.{
  Agent, AgentM, dispatch_error, runtime_error, parent_forbidden, missing_key, other_error, Network,
  joined, on_jobs, request, works_on,
}
use myco_agent.Node.Parent.{find_subtask, try_dispatch}

unfoldable pub assert_can_parent : Network → AgentM (Unit {0})
assert_can_parent net = do
  a ← gets (λ (a : Agent). a)
  if not (given a.node_id) then throw (runtime_error "agent is not registered") else do
    node ← request (net.get_node (or_empty a.node_id))
    modify (λ (s : Agent). record s { record_of_self = some node })
    if not (membership_eq node.membership_status MembershipStatus.approved)
        then throw (parent_forbidden "node is not an approved group member")
        else do
          group ← request (net.get_group a.group)
          if not (is_nil group.allow_parent)
                && not (contains node.id group.allow_parent)
                && not (contains node.name group.allow_parent)
              then throw (parent_forbidden "not allowed to submit jobs as parent")
              else pure tt

abbrev pub spec_of : SubtaskRecord → SubtaskSpec
spec_of item = record {
  description = item.description;
  skills = item.skills;
  tools = item.tools;
  payload = item.payload;
  model = item.model;
  min_context_window = item.min_context_window;
  min_memory_mb = item.min_memory_mb;
}

-- `refreshed = await self.jobs.get(job_id); assert refreshed is not None`
unfoldable pub refreshed : String → AgentM JobMemory
refreshed job_id a = elim (get_job job_id a.jobs) [
  | none ↦ (raise (other_error ""), a)
  | some job ↦ (ok job, a)
]

unfoldable pub forward_payload : Fields → Option SubtaskRecord → Fields
forward_payload payload none = payload
forward_payload payload (some source) =
    set_field "source_artifact_ids" (arr (texts source.artifact_ids)) (
      set_field "source_result" (optional_text source.result)
        (set_field "source_subtask_id" (text source.id) payload))

-- The subtask that the payload and the exclusion come from: `none` if none is named.
unfoldable pub source_of : JobMemory → Option String → AgentM (Option SubtaskRecord)
source_of job source_subtask_id =
    if not (given source_subtask_id)
    then pure none
    else elim (find_subtask job (or_empty source_subtask_id)) [
      | none ↦ throw (missing_key (or_empty source_subtask_id))
      | some source ↦ pure (some source)
    ]

unfoldable pub excluded : (me : String) → Option SubtaskRecord → List String
excluded me none = me ∷ []
excluded me (some source) =
    if given source.assignee_node_id then or_empty source.assignee_node_id ∷ (me ∷ []) else me ∷ []

-- What `forward_subtask` checks before it adds a subtask, and the source that it found.
unfoldable pub check_forward : (job_id : String) → ForwardRequest → AgentM (Option SubtaskRecord)
unfolding source_of
check_forward job_id request = do
  a ← gets (λ (a : Agent). a)
  if not (given a.node_id)
      then throw (runtime_error "agent is not registered")
      else if works_on job_id a
      then throw (dispatch_error "child cannot re-dispatch the same job")
      else elim (get_job job_id a.jobs) [
        | none ↦ throw (missing_key job_id)
        | some job ↦
            if not (job.parent_node_id == or_empty a.node_id)
            then throw (dispatch_error "only the parent may forward")
            else source_of job request.source_subtask_id
      ]

planned :
    (String → List NodeRecord → String → Result String (List SubtaskSpec))
    → String
    → String
    → Result String (List NodeRecord)
    → Result String (List SubtaskSpec)
planned plan description me (raise exc) = raise exc
planned plan description me (ok nodes) = plan description nodes me

abbrev pub planning_query : Agent → CatalogQuery
planning_query a = record {
  group = a.group;
  idle_only = true;
  skills = [];
  tools = [];
  exclude_node_id = a.node_id;
  model = none;
  min_context_window = none;
  min_memory_mb = none;
}

module _ (codec : Codec) where
  -- `for subtask in job.subtasks: try: await self._dispatch(...)`
  unfoldable pub dispatch_all : Network → (job_id : String) → List SubtaskRecord → AgentM (Unit {0})
  dispatch_all net job_id [] = pure tt
  dispatch_all net job_id (item ∷ items) = do
    _ ← try_dispatch codec net job_id item.id (spec_of item) [] none
    dispatch_all net job_id items

  -- `for spec in planned: ...`; `uuids k` is the id of the k-th subtask.
  unfoldable pub dispatch_planned :
      Network → (job_id : String) → (uuids : ℕ → String) → ℕ → List SubtaskSpec → AgentM (Unit {0})
  dispatch_planned net job_id uuids k [] = pure tt
  dispatch_planned net job_id uuids k (spec ∷ specs) = do
    added ← on_jobs (add_subtask codec job_id (uuids k) spec)
    _ ← try_dispatch codec net job_id added.1.id spec [] none
    dispatch_planned net job_id uuids (suc k) specs

  unfoldable pub forward_subtask :
      Network → (uuid : String) → (job_id : String) → ForwardRequest → AgentM JobMemory
  unfolding refreshed
  forward_subtask net uuid job_id request = do
    me ← gets (λ (a : Agent). or_empty a.node_id)
    source ← check_forward job_id request
    let spec : SubtaskSpec = record {
      description = request.description;
      skills = request.skills;
      tools = request.tools;
      payload = forward_payload request.payload source;
      model = none;
      min_context_window = none;
      min_memory_mb = none;
    }
    added ← on_jobs (add_subtask codec job_id uuid spec)
    _ ← try_dispatch codec net job_id added.1.id spec (excluded me source) request.target_node_id
    refreshed job_id

  unfoldable pub dispatch_plan :
      Network
      → (job_id : String) → (uuids : ℕ → String) → Result String (List SubtaskSpec)
      → AgentM JobMemory
  dispatch_plan net job_id uuids (raise exc) =
      on_jobs (fail codec job_id (joined "planning failed: " exc))
  dispatch_plan net job_id uuids (ok specs) = do
    _ ← dispatch_planned net job_id uuids 0 specs
    refreshed job_id

  -- The planner's part of `submit_job`: `plan` gets the catalog and the agent's id.
  unfoldable pub submit_planned :
      Network
      → (plan : String → List NodeRecord → String → Result String (List SubtaskSpec))
      → (job_id : String) → (uuids : ℕ → String) → String
      → AgentM JobMemory
  unfolding planned dispatch_plan
  submit_planned net plan job_id uuids description = do
    a ← gets (λ (a : Agent). a)
    dispatch_plan net job_id uuids
        (planned plan description (or_empty a.node_id) (net.catalog (planning_query a)))

  -- `run_work` is the executor's run in a fresh workspace, and the paths stripped from its result.
  unfoldable pub run_local :
      (run_work : ChildWork → Result String String) → (job_id : String) → String → AgentM JobMemory
  run_local run_work job_id description = do
    a ← gets (λ (a : Agent). a)
    let work : ChildWork = record {
      job_id = job_id;
      subtask_id = "local";
      parent_node_id = or_empty a.node_id;
      parent_mailbox_url = a.mailbox_url;
      description = description;
      payload = end;
      status = SubtaskStatus.running;
      result = none;
      artifact_ids = [];
    }
    result ← request (run_work work)
    on_jobs (complete_local codec job_id result)

  unfoldable pub submit_subtasks :
      Network
      → Option (String → List NodeRecord → String → Result String (List SubtaskSpec))
      → (run_work : ChildWork → Result String String) → (uuids : ℕ → String) → String
      → JobMemory
      → AgentM JobMemory
  submit_subtasks net planner run_work uuids description job =
      if not (is_nil job.subtasks)
      then (do _ ← dispatch_all net job.job_id job.subtasks; refreshed job.job_id)
      else elim planner [
        | none ↦ run_local run_work job.job_id description
        | some plan ↦ submit_planned net plan job.job_id uuids description
      ]

  -- `job_id`, `uuids` and `now` are the fresh ids and the time.
  unfoldable pub submit_job :
      Network
      → Option (String → List NodeRecord → String → Result String (List SubtaskSpec))
      → (run_work : ChildWork → Result String String) → (job_id : String) → (uuids : ℕ → String)
      → (now : ℕ) → JobSubmitRequest
      → AgentM JobMemory
  submit_job net planner run_work job_id uuids now request = do
    a ← gets (λ (a : Agent). a)
    if not (given a.node_id) then throw (runtime_error "agent is not registered") else do
      _ ← assert_can_parent net
      job ←
          on_jobs (
            create codec job_id uuids now (or_empty a.node_id) request.description request.subtasks)
      submit_subtasks net planner run_work uuids request.description job
