-- ===== src/Node/Samples.antt =====
-- A job, an agent and a network for the tests of the node runtime.
use myco_agent.Common.{none, some, [], ◌∷◌, ◌==◌, if◌then◌else◌}
use myco_agent.Exec.{ok, raise}
use myco_agent.Models.{
  NodeStatus, JobStatus, SubtaskStatus, MembershipStatus, RuntimeKind, NodeRecord, SubtaskSpec,
  SubtaskRecord, JobMemory, AssignSubtaskMessage, end,
}
use myco_agent.Node.Jobs.{Codec, JobStore}
use myco_agent.Node.Jobs.Calls.{complete_local_call}
use myco_agent.Node.Agent.{Agent, Network, timed_out}

abbrev pub work : SubtaskRecord
work = record {
  id = "t1";
  description = "draw";
  skills = [];
  tools = [];
  payload = end;
  model = none;
  min_context_window = none;
  min_memory_mb = none;
  assignee_node_id = some "b1";
  assignee_mailbox_url = some "http://h/b1";
  status = SubtaskStatus.running;
  result = none;
  error = none;
  artifact_ids = [];
}

abbrev pub job : JobMemory
job = record {
  job_id = "j1";
  description = "poster";
  parent_node_id = "a1";
  status = JobStatus.running;
  subtasks = work ∷ [];
  local_result = none;
  error = none;
  created_at = 7;
}

abbrev pub broken : JobMemory
broken = record job {
  job_id = "j2";
  status = JobStatus.failed;
  subtasks = [];
  error = some "planning failed: no JSON";
}

abbrev pub store : JobStore
store = record { jobs = job ∷ (broken ∷ []); disk = none }

abbrev pub finished : JobMemory
finished = record {
  job_id = "j3";
  description = "note";
  parent_node_id = "a1";
  status = JobStatus.completed;
  subtasks = [];
  local_result = some "done";
  error = none;
  created_at = 9;
}

-- A codec for the jobs of these tests: a job is written as its id.
abbrev pub by_id_codec : Codec
by_id_codec = record {
  encode = λ j. j.job_id;
  decode = λ t. if t == "j3" then some finished else none;
}

abbrev pub spec : SubtaskSpec
spec = record {
  description = "draw";
  skills = [];
  tools = [];
  payload = end;
  model = none;
  min_context_window = none;
  min_memory_mb = none;
}

abbrev pub peer : NodeRecord
peer = record {
  id = "b1";
  name = "beta";
  group = "lab";
  mailbox_url = "http://h/b1";
  machine = record { cpu_cores = "4.0"; memory_mb = 8192; gpu = none; disk_gb = none };
  system = record {
    os = "linux";
    arch = "x86_64";
    runtime = RuntimeKind.container;
    mycoagent_version = "0.1.0";
  };
  models = [];
  skills = [];
  tools_declared = [];
  tools_available = [];
  status = NodeStatus.idle;
  last_seen = 5;
  created_at = 1;
  membership_status = MembershipStatus.approved;
}

abbrev pub agent : Agent
agent = record {
  node_id = some "a1";
  group = "lab";
  mailbox_url = "http://h/a1";
  jobs = store;
  current_child = none;
  mailbox_queue_size = 1;
  mailbox_queue = [];
  rr_index = 0;
  record_of_self = none;
}

-- A network whose one node is the peer, and on which assignments time out.
abbrev pub network : Network
network = record {
  get_node = λ node_id. ok peer;
  get_group = λ name. raise "group not found";
  catalog = λ query. ok (peer ∷ []);
  assign = λ url message. timed_out;
  meanwhile = λ message. complete_local_call "j2" "late" ∷ [];
}

abbrev pub message : AssignSubtaskMessage
message = record {
  job_id = "j9";
  subtask_id = "t9";
  parent_node_id = "b1";
  parent_mailbox_url = "http://h/b1";
  description = "draw";
  skills = [];
  tools = [];
  payload = end;
}

-- The same network, on which nothing happens meanwhile.
abbrev pub calm_network : Network
calm_network = record network { meanwhile = λ message. [] }
