-- ===== src/Node/Mailbox.antt =====
-- src/mycoagent/node/runtime.py: the child side of an agent, `_accept_child`, `_run_child` and
-- `_report_result`, and the mailbox queue between them.
pub mod Works
pub mod Order
pub mod Report
use myco_agent.Common.{
  ℕ, zero, suc, String, Bool, true, false, not, ◌&&◌, ◌||◌, Option, none, some, List, [], ◌∷◌, ◌++◌,
  length, ltb, nat_eq, is_some, is_nil, or_empty, ◌==◌, if◌then◌else◌,
}
use myco_agent.Exec.{Result, ok, raise, pure, throw, gets, modify, ◌>>=◌, ◌>>◌}
use myco_agent.Models.{
  NodeStatus, SubtaskStatus, ChildWork, AssignSubtaskMessage, SubtaskResultMessage,
}
use myco_agent.Node.Agent.{Agent, AgentM, AgentError, busy_error, dispatch_error}

unfoldable pub child_from_assign : AssignSubtaskMessage → ChildWork
child_from_assign message = record {
  job_id = message.job_id;
  subtask_id = message.subtask_id;
  parent_node_id = message.parent_node_id;
  parent_mailbox_url = message.parent_mailbox_url;
  description = message.description;
  payload = message.payload;
  status = SubtaskStatus.running;
  result = none;
  artifact_ids = [];
}

-- `status`: busy while a child works or waits.
unfoldable pub status : Agent → NodeStatus
status a =
    if is_some a.current_child || not (is_nil a.mailbox_queue)
    then NodeStatus.busy
    else NodeStatus.idle

-- `asyncio.Queue(maxsize=size or 1)`, for which `maxsize` is at least 1
abbrev pub queue_bound : Agent → ℕ
queue_bound a = if ltb 0 a.mailbox_queue_size then a.mailbox_queue_size else 1

-- `put_nowait`: `none` where it raises `QueueFull`
unfoldable pub put_nowait : AssignSubtaskMessage → Agent → Option Agent
put_nowait message a =
    if ltb (length a.mailbox_queue) (queue_bound a)
    then some (record a { mailbox_queue = a.mailbox_queue ++ message ∷ [] })
    else none

unfoldable pub enqueue : AssignSubtaskMessage → AgentM Bool
enqueue message a =
    if not (ltb 0 a.mailbox_queue_size)
    then (raise (busy_error "agent is busy with another child assignment"), a)
    else elim (put_nowait message a) [
      | none ↦ (raise (busy_error "agent is busy and mailbox queue is full"), a)
      | some a' ↦ (ok false, a')
    ]

-- `_accept_child`; the value says whether a task for `_run_child` is started.
unfoldable pub accept_child : AssignSubtaskMessage → AgentM Bool
accept_child message a =
    if message.parent_node_id == or_empty a.node_id && is_some a.node_id
    then (raise (dispatch_error "cannot accept a subtask from self"), a)
    else elim a.current_child [
      | none ↦ (ok true, record a { current_child = some (child_from_assign message) })
      | some work ↦ enqueue message a
    ]

-- The `finally` of `_run_child`: the work is over, and the next in the queue, if any, is taken; the
-- value says whether a task for it is started.
unfoldable pub finish_child : AgentM Bool
finish_child a = elim a.mailbox_queue [
  | [] ↦ (ok false, record a { current_child = none })
  | nxt ∷ rest ↦
      (ok true, record a { current_child = some (child_from_assign nxt); mailbox_queue = rest })
]

-- How `_run_child` ends its work: with the executor's outcome, the workspace's files uploaded
-- (`artifact_ids`) and its paths stripped from the texts, or with the exception's text.
unfoldable pub result_of :
    Agent → ChildWork → Result String (ChildWork × List String) → SubtaskResultMessage
result_of a work (ok (finished, artifact_ids)) = record {
  job_id = finished.job_id;
  subtask_id = finished.subtask_id;
  child_node_id = or_empty a.node_id;
  status = SubtaskStatus.completed;
  result = some (or_empty finished.result);
  error = none;
  artifact_ids = artifact_ids;
}
result_of a work (raise exc) = record {
  job_id = work.job_id;
  subtask_id = work.subtask_id;
  child_node_id = or_empty a.node_id;
  status = SubtaskStatus.failed;
  result = none;
  error = some exc;
  artifact_ids = [];
}

-- `REPORT_ATTEMPTS`
abbrev pub report_attempts : ℕ
report_attempts = 2

-- The loop of `_report_result`: `sends k` says whether the attempt `k` goes through. The value is the
-- number of attempts made, and whether the last of them went through.
unfoldable pub report_loop : (sends : ℕ → Bool) → (attempt fuel : ℕ) → ℕ × Bool
report_loop sends attempt zero = (attempt, false)
report_loop sends attempt (suc fuel) =
    let rest = report_loop sends (suc attempt) fuel in
    if sends attempt then (suc attempt, true) else rest

unfoldable pub report_result : (sends : ℕ → Bool) → ℕ × Bool
unfolding report_loop
report_result sends = report_loop sends 0 report_attempts

-- What happens to the child side: an assignment arrives, or the current work ends.
pub data ChildEvent : Type 0 where
  arrives : AssignSubtaskMessage → ChildEvent
  ends : ChildEvent

-- The task of `_run_child` returns at once where there is no work.
unfoldable pub child_step : ChildEvent → Agent → Agent
child_step (arrives message) a = (accept_child message a).1
child_step ends a = if is_some a.current_child then (finish_child a).1 else a

unfoldable pub child_run : List ChildEvent → Agent → Agent
child_run [] a = a
child_run (e ∷ es) a = child_run es (child_step e a)
