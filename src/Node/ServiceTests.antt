-- ===== src/Node/ServiceTests.antt =====
-- The theorems about the executor, the mailbox's endpoint and the configuration at concrete inputs.
use myco_agent.Common.{
  sym, ap, or_empty, given, contains, any, map, ◌&&◌, truthy, arith, ℕ, String, ◌≡◌, ◌⊎◌, refl,
  true, false, none, some, List, ◌∷◌, [],
}
use myco_agent.Exec.{Result, ok, raise}
use myco_agent.Models.{
  ChildWork, SubtaskStatus, AssignSubtaskMessage, AgentConfigureRequest, Json, end, assign_subtask,
}
use myco_agent.Node.Jobs.{Codec}
use myco_agent.Node.Agent.{Agent}
use myco_agent.Node.Executor.{LlmResponse, Message, Workspace, run}
use myco_agent.Node.Executor.Ends.{Ends, run-Ends}
use myco_agent.Node.Api.{mailbox_handler}
use myco_agent.Node.Api.Refused.{refusal_code, mailbox_handler-refused}
use myco_agent.Text.{strip, lower, lower_char}
use myco_agent.Node.Host.{tool_loop, Profile, echo}
use myco_agent.Node.Host.Configure.{select_executor, configured, named, executor_mode, apply_config}
use myco_agent.Node.Names.{merge_names}
use myco_agent.Node.Names.Merged.{Listed, merge_names-Listed}
use myco_agent.Node.Host.Config.{Consistent, SameAgent, apply_config-fine}
use myco_agent.Models.{NodeRegisterRequest, NodeRecord}
use myco_agent.Table.{put}
use myco_agent.Node.Samples.{peer}
use myco_agent.Node.Host.{start_all, reregister, registration}
use myco_agent.Node.Host.Reach.{host_target-start_all}
use myco_agent.Node.Api.Apps.{host_target, scoped, root}

abbrev work : ChildWork
work = record {
  job_id = "j1";
  subtask_id = "t1";
  parent_node_id = "b1";
  parent_mailbox_url = "http://h/b1";
  description = "draw";
  payload = end;
  status = SubtaskStatus.running;
  result = none;
  artifact_ids = [];
}

abbrev done : ChildWork
done = record work { status = SubtaskStatus.completed; result = some "drawn" }

abbrev empty_workspace : Workspace
empty_workspace = record {
  run_shell = λ command. raise "no shell";
  write_file = λ path content. ok path;
  read_file = λ path. raise "no file";
  list_dir = λ path. ok [];
  strip_local_paths = λ t. t;
}

abbrev model : ℕ → List Message → Result String LlmResponse
model k messages = ok (record { content = some "drawn"; tool_calls = [] })

abbrev show : Json → String
show value = "value"

run-Ends_example :
    Ends show empty_workspace model "be brief" "draw" "exceeded" 12 work
      (run show empty_workspace model "exceeded" "be brief" "draw" 12 work)
run-Ends_example = run-Ends show empty_workspace model "be brief" "draw" "exceeded" 12 work

abbrev codec : Codec
codec = record { encode = λ job. job.job_id; decode = λ t. none }

abbrev agent : Agent
agent = record {
  node_id = some "a1";
  group = "lab";
  mailbox_url = "http://h/a1";
  jobs = record { jobs = []; disk = none };
  current_child = some work;
  mailbox_queue_size = 0;
  mailbox_queue = [];
  rr_index = 0;
  record_of_self = none;
}

abbrev message : AssignSubtaskMessage
message = record {
  job_id = "j9";
  subtask_id = "t9";
  parent_node_id = "b1";
  parent_mailbox_url = "http://h/b1";
  description = "draw";
  skills = [];
  tools = [];
  payload = end;
}

mailbox_handler-refused_example :
    ((mailbox_handler codec (assign_subtask message) agent).0 ≡ 200)
    ⊎ ((refusal_code (mailbox_handler codec (assign_subtask message) agent).0 ≡ true)
        × ((mailbox_handler codec (assign_subtask message) agent).1 ≡ agent))
mailbox_handler-refused_example = mailbox_handler-refused codec (assign_subtask message) agent

abbrev profile : Profile
profile = record {
  name = "alpha";
  group = "lab";
  mailbox_url = "http://h/a1";
  node_id = some "a1";
  skills = [];
  tools_declared = [];
  tools_available = [];
  models = [];
  job_db = none;
  llm_base_url = none;
  llm_api_key = none;
  llm_model = none;
  executor = echo;
  has_planner = false;
  max_steps = 12;
}

abbrev with_url : AgentConfigureRequest
with_url = record {
  name = none;
  skills = none;
  tools = none;
  models = none;
  llm_url = some "http://llm";
  llm_model = none;
  llm_key = none;
  executor = none;
}

abbrev planning : Profile
planning = record profile {
  llm_base_url = some "http://llm";
  executor = tool_loop;
  has_planner = true;
}

-- A Manager that gives every agent the id that it asks for.
abbrev register : NodeRegisterRequest → Result String NodeRecord
register req = ok (record peer { id = or_empty req.node_id })

as_asked :
    (req : NodeRegisterRequest) (answer : NodeRecord)
    → given req.node_id ≡ true
    → register req ≡ ok answer
    → answer.id ≡ or_empty req.node_id
as_asked req answer g e = ap id_of (sym e)
  where
    id_of : Result String NodeRecord → String
    id_of (ok r) = r.id
    id_of (raise exc) = exc

configures :
    apply_config register peer.machine peer.system with_url profile
    ≡ (ok (record peer { id = "a1" }), planning)
unfolding apply_config executor_mode configured named select_executor strip lower lower_char
    reregister registration
configures = refl

profile-Consistent : Consistent profile
profile-Consistent = record {
  plans_iff = ((λ h. absurd (ground (arith, h))), λ h. absurd (ground (arith, h)));
  has_url = λ h. absurd (ground (arith, h));
}

apply_config-fine_example :
    Consistent (apply_config register peer.machine peer.system with_url profile).1
    × SameAgent (apply_config register peer.machine peer.system with_url profile).1 profile
apply_config-fine_example =
    apply_config-fine register peer.machine peer.system as_asked with_url profile refl
      profile-Consistent

merge_names-Listed_example :
    Listed (merge_names (("shell" ∷ []) ∷ ((" shell" ∷ []) ∷ [])))
    × ((x : String)
        → contains x (merge_names (("shell" ∷ []) ∷ ((" shell" ∷ []) ∷ []))) ≡ (
            truthy x
            && any
                (λ group. contains x (map strip group))
                (("shell" ∷ []) ∷ ((" shell" ∷ []) ∷ []))))
merge_names-Listed_example = merge_names-Listed (("shell" ∷ []) ∷ ((" shell" ∷ []) ∷ []))

abbrev beta : Profile
beta = record profile { name = "beta"; mailbox_url = "http://h/agents/b1"; node_id = some "b1" }

started : start_all register peer.machine peer.system (profile ∷ (beta ∷ [])) [] ≡ (
  ok (record peer { id = "a1" } ∷ (record peer { id = "b1" } ∷ [])),
  ("a1", profile) ∷ (("b1", beta) ∷ []),
)
unfolding start_all reregister registration put
started = refl

host_target-start_all_example :
    (host_target (profile ∷ (beta ∷ [])) (("a1", profile) ∷ (("b1", beta) ∷ [])) (scoped "a1")
      ≡ ok profile)
    × (host_target (profile ∷ (beta ∷ [])) (("a1", profile) ∷ (("b1", beta) ∷ [])) root ≡ raise 404)
host_target-start_all_example =
    host_target-start_all register peer.machine peer.system as_asked "a1" [] (beta ∷ []) profile
      (("a1", profile) ∷ (("b1", beta) ∷ []))
      (record peer { id = "a1" } ∷ (record peer { id = "b1" } ∷ [])) refl refl refl started
