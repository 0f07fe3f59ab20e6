-- ===== src/Models.antt =====
-- src/mycoagent/models.py: the messages and records that the Manager and the Hosts exchange.
-- An instant is its number of microseconds, a float the text of its JSON number: no code of the
-- library computes with one. `dict[str, Any]` is a list of fields of the JSON type.
pub mod Payload
mod Enums
mod Tests
unfoldable pub use Payload.*
pub use Enums.*
pub use Tests.*
use myco_agent.Common.{ℕ, String, Bool, Option, List}

pub record MachineSpec : Type 0 where
  pub cpu_cores : String
  pub memory_mb : ℕ
  pub gpu : Option String
  pub disk_gb : Option String

pub record SystemSpec : Type 0 where
  pub os : String
  pub arch : String
  pub runtime : RuntimeKind
  pub mycoagent_version : String

pub record ModelSpec : Type 0 where
  pub name : String
  pub source : ModelSource
  pub context_window : Option ℕ

pub record GroupPolicyUpdate : Type 0 where
  pub description : Option String
  pub join_mode : Option JoinMode
  pub allow_register : Option (List String)
  pub allow_parent : Option (List String)

pub record GroupInfo : Type 0 where
  pub name : String
  pub created_at : ℕ
  pub description : String
  pub join_mode : JoinMode
  pub allow_register : List String
  pub allow_parent : List String
  pub member_ids : List String
  pub pending_ids : List String

pub record NodeRegisterRequest : Type 0 where
  pub name : String
  pub group : String
  pub mailbox_url : String
  pub machine : MachineSpec
  pub system : SystemSpec
  pub models : List ModelSpec
  pub skills : List String
  pub tools_declared : List String
  pub tools_available : List String
  pub node_id : Option String

pub record HeartbeatRequest : Type 0 where
  pub status : NodeStatus
  pub tools_available : Option (List String)
  pub models : Option (List ModelSpec)

pub record NodeRecord : Type 0 where
  pub id : String
  pub name : String
  pub group : String
  pub mailbox_url : String
  pub machine : MachineSpec
  pub system : SystemSpec
  pub models : List ModelSpec
  pub skills : List String
  pub tools_declared : List String
  pub tools_available : List String
  pub status : NodeStatus
  pub last_seen : ℕ
  pub created_at : ℕ
  pub membership_status : MembershipStatus

pub record CatalogQuery : Type 0 where
  pub group : String
  pub idle_only : Bool
  pub skills : List String
  pub tools : List String
  pub exclude_node_id : Option String
  pub model : Option String
  pub min_context_window : Option ℕ
  pub min_memory_mb : Option ℕ

pub record SubtaskSpec : Type 0 where
  pub description : String
  pub skills : List String
  pub tools : List String
  pub payload : Fields
  pub model : Option String
  pub min_context_window : Option ℕ
  pub min_memory_mb : Option ℕ

pub record JobSubmitRequest : Type 0 where
  pub description : String
  pub subtasks : List SubtaskSpec

pub record ForwardRequest : Type 0 where
  pub description : String
  pub skills : List String
  pub tools : List String
  pub payload : Fields
  pub source_subtask_id : Option String
  pub target_node_id : Option String

pub record SubtaskRecord : Type 0 where
  pub id : String
  pub description : String
  pub skills : List String
  pub tools : List String
  pub payload : Fields
  pub model : Option String
  pub min_context_window : Option ℕ
  pub min_memory_mb : Option ℕ
  pub assignee_node_id : Option String
  pub assignee_mailbox_url : Option String
  pub status : SubtaskStatus
  pub result : Option String
  pub error : Option String
  pub artifact_ids : List String

pub record JobMemory : Type 0 where
  pub job_id : String
  pub description : String
  pub parent_node_id : String
  pub status : JobStatus
  pub subtasks : List SubtaskRecord
  pub local_result : Option String
  pub error : Option String
  pub created_at : ℕ

pub record AssignSubtaskMessage : Type 0 where
  pub job_id : String
  pub subtask_id : String
  pub parent_node_id : String
  pub parent_mailbox_url : String
  pub description : String
  pub skills : List String
  pub tools : List String
  pub payload : Fields

pub record SubtaskResultMessage : Type 0 where
  pub job_id : String
  pub subtask_id : String
  pub child_node_id : String
  pub status : SubtaskStatus
  pub result : Option String
  pub error : Option String
  pub artifact_ids : List String

pub record ChildWork : Type 0 where
  pub job_id : String
  pub subtask_id : String
  pub parent_node_id : String
  pub parent_mailbox_url : String
  pub description : String
  pub payload : Fields
  pub status : SubtaskStatus
  pub result : Option String
  pub artifact_ids : List String

-- The envelope's type, with the body that the handler validates it to; `invalid_body` is a known type
-- with a body that `model_validate` refuses, and the text of its error.
pub data Envelope : Type 0 where
  assign_subtask : AssignSubtaskMessage → Envelope
  subtask_result : SubtaskResultMessage → Envelope
  invalid_body : String → Envelope
  unknown_type : String → Envelope

pub record AgentConfigureRequest : Type 0 where
  pub name : Option String
  pub skills : Option (List String)
  pub tools : Option (List String)
  pub models : Option (List String)
  pub llm_url : Option String
  pub llm_model : Option String
  pub llm_key : Option String
  pub executor : Option String
