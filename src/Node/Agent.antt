-- ===== src/Node/Agent.antt =====
-- src/mycoagent/node/runtime.py: the state of an `AgentRuntime`, its errors, and what it asks of
-- the network. The subclasses of `RuntimeError`, `PermissionError`, `KeyError` and `ValueError` that
-- the runtime raises are constructors; any exception of a client or a library is `other_error`.
use Prim.Native.String.{◌++◌ as join_texts}
use myco_agent.Common.{ℕ, String, Bool, false, Option, none, some, List, ◌==◌}
use myco_agent.Exec.{Exec, Result, ok, raise}
use myco_agent.Models.{NodeRecord, GroupInfo, CatalogQuery, AssignSubtaskMessage, ChildWork}
use myco_agent.Node.Jobs.{JobStore, JobError, JobM, key_error}
use myco_agent.Node.Jobs.Calls.{JobCall}

pub data AgentError : Type 0 where
  busy_error : String → AgentError
  dispatch_error : String → AgentError
  parent_forbidden : String → AgentError
  runtime_error : String → AgentError
  missing_key : String → AgentError
  value_error : String → AgentError
  other_error : String → AgentError

-- The fields of `AgentRuntime` that its methods read or change. The queue is `_mailbox_queue`.
pub record Agent : Type 0 where
  pub node_id : Option String
  pub group : String
  pub mailbox_url : String
  pub jobs : JobStore
  pub current_child : Option ChildWork
  pub mailbox_queue_size : ℕ
  pub mailbox_queue : List AssignSubtaskMessage
  pub rr_index : ℕ
  pub record_of_self : Option NodeRecord

abbrev pub AgentM : Type 0 → Type 0
AgentM A = Exec Agent AgentError A

-- How the POST of an assignment ends, within `dispatch_timeout`.
pub data Delivery : Type 0 where
  delivered timed_out : Delivery
  refused : String → Delivery

-- The Manager and the other agents, as the clients of src/mycoagent/node/client.py reach them. A raise
-- is the text of the exception. `meanwhile` is what the agent's other tasks do to its jobs while an
-- assignment is on its way.
pub record Network : Type 0 where
  pub get_node : String → Result String NodeRecord
  pub get_group : String → Result String GroupInfo
  pub catalog : CatalogQuery → Result String (List NodeRecord)
  pub assign : String → AssignSubtaskMessage → Delivery
  pub meanwhile : AssignSubtaskMessage → List JobCall

abbrev pub joined : String → String → String
joined a b = join_texts a b

lift_error : JobError → AgentError
lift_error (key_error k) = missing_key k

-- A call on `self.jobs`.
unfoldable pub on_jobs : {A : Type 0} → JobM A → AgentM A
unfolding lift_error
on_jobs m a =
    let (r, jobs) = m a.jobs in
    elim r [
      | ok x ↦ (ok x, record a { jobs = jobs })
      | raise e ↦ (raise (lift_error e), record a { jobs = jobs })
    ]

-- A request whose exception passes through.
unfoldable pub request : {A : Type 0} → Result String A → AgentM A
request (ok x) a = (ok x, a)
request (raise e) a = (raise (other_error e), a)

-- `self._current_child is not None and self._current_child.job_id == job_id`
unfoldable pub works_on : String → Agent → Bool
works_on job_id a = elim a.current_child [ none ↦ false | some work ↦ work.job_id == job_id ]
