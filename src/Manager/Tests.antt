-- ===== src/Manager/Tests.antt =====
-- The theorems about the Manager at a small cluster: a group `lab` with one approved node, `a1`.
use mathlib.Core.List.{mem-cons_self}
use myco_agent.Common.{
  inl, String, ◌≡◌, ◌≢◌, refl, subst, ◌↔◌, ◌⊎◌, ◌≤◌, ◌+◌, true, none, some, List, [], ◌∷◌, Mem,
  arith, sort_by,
}
use myco_agent.Exec.{ok}
use myco_agent.Models.{
  NodeStatus, JoinMode, MembershipStatus, MachineSpec, SystemSpec, ModelSpec, ModelSource,
  RuntimeKind, NodeRegisterRequest, HeartbeatRequest, NodeRecord, CatalogQuery,
}
use myco_agent.Table.{find, update}
use myco_agent.Manager.Tables.{
  Store, GroupRow, NodeRow, new_store, group_named, expire_row, expire_offline, mapping_to_node,
  ids_in_group, group_info, set_node,
}
use myco_agent.Manager.Catalog.{
  covers, memory_ok, window_ok, named_models, models_ok, catalog_matches, filter_catalog_nodes,
}
use myco_agent.Manager.Catalog.Spec.{Fits, catalog_matches_iff}
use myco_agent.Manager.Store.{
  create_group, delete_group, get_group, register_node, heartbeat, get_node, query_catalog,
  by_join_mode, membership_for, write_node, require_group, require_node, insert_group,
}
use myco_agent.Manager.Api.{serve, get_node_request}
use myco_agent.Manager.Api.Caught.{documented, serve-documented}
use myco_agent.Manager.Store.Invariant.{Inv, Inv-new_store}
use myco_agent.Manager.Store.Calls.{Call, create_group_call, register_node_call, step, run, run-Inv}
use myco_agent.Manager.Store.Standing.{standing}
use myco_agent.Manager.Store.Membership.{
  Grants, approved_in, step-approved, register_node-keeps_decision,
}
use myco_agent.Manager.Store.Liveness.{
  Listed, query_catalog_lem, query_catalog-fresh, get_node-heartbeat,
}
use myco_agent.Manager.Store.Groups.{delete_group-cascade}
use myco_agent.Manager.Client as Client
use myco_agent.Node.Samples.{agent, message}
use myco_agent.Node.Mailbox.{arrives, status, child_step, accept_child, child_from_assign}
use myco_agent.Node.Heartbeat.{ClusterEvent, beats, works, another_beats, node_read, cluster_run}
use myco_agent.Node.Heartbeat.Present.{Timely, last_beat, reported, get_node-cluster_run}

abbrev machine : MachineSpec
machine = record { cpu_cores = "8.0"; memory_mb = 16384; gpu = none; disk_gb = some "512.0" }

abbrev system : SystemSpec
system = record {
  os = "linux";
  arch = "x86_64";
  runtime = RuntimeKind.bare_metal;
  mycoagent_version = "0.1.0";
}

abbrev llama : ModelSpec
llama = record { name = "llama3"; source = ModelSource.local_model; context_window = some 8192 }

abbrev request : NodeRegisterRequest
request = record {
  name = "alpha";
  group = "lab";
  mailbox_url = "http://h/a1";
  machine = machine;
  system = system;
  models = llama ∷ [];
  skills = "coding" ∷ [];
  tools_declared = "shell" ∷ [];
  tools_available = "shell" ∷ [];
  node_id = some "a1";
}

abbrev row : NodeRow
row = record {
  id = "a1";
  name = "alpha";
  group_name = "lab";
  mailbox_url = "http://h/a1";
  machine = machine;
  system = system;
  models = llama ∷ [];
  skills = "coding" ∷ [];
  tools_declared = "shell" ∷ [];
  tools_available = "shell" ∷ [];
  status = NodeStatus.idle;
  last_seen = 20;
  created_at = 20;
  membership_status = MembershipStatus.approved;
}

abbrev lab : GroupRow
lab = record {
  name = "lab";
  created_at = 1;
  description = "";
  join_mode = JoinMode.auto;
  allow_register = [];
  allow_parent = [];
}

abbrev cluster : Store
cluster = record { groups = lab ∷ []; nodes = row ∷ []; heartbeat_timeout = 15 }

abbrev history : List Call
history =
    create_group_call 1 2 "lab" "" JoinMode.auto [] []
    ∷ register_node_call 19 20 21 "u" request
    ∷ []

program : Unit {0}
unfolding create_group insert_group register_node write_node get_group get_node expire_row
    expire_offline membership_for by_join_mode require_group require_node find update step run
    mapping_to_node group_info ids_in_group query_catalog filter_catalog_nodes catalog_matches
    covers memory_ok window_ok named_models models_ok sort_by standing heartbeat set_node
program = tt

run-history : run history (new_store 15) ≡ cluster
unfolding program
run-history = refl

cluster-Inv : Inv cluster
cluster-Inv = subst Inv run-history (run-Inv history (new_store 15) (Inv-new_store 15))

run-Inv_example : Inv (run history (new_store 15))
run-Inv_example = run-Inv history (new_store 15) (Inv-new_store 15)

step-approved_example :
    (standing "a1" (run (create_group_call 1 2 "lab" "" JoinMode.auto [] [] ∷ []) (new_store 15))
      ≡ approved_in "lab")
    ⊎ Grants
        (register_node_call 19 20 21 "u" request)
        "lab"
        "a1"
        (run (create_group_call 1 2 "lab" "" JoinMode.auto [] [] ∷ []) (new_store 15))
unfolding program
step-approved_example =
    step-approved (register_node_call 19 20 21 "u" request)
      (run (create_group_call 1 2 "lab" "" JoinMode.auto [] [] ∷ []) (new_store 15)) "lab" "a1"
      (run-Inv (create_group_call 1 2 "lab" "" JoinMode.auto [] [] ∷ []) (new_store 15)
        (Inv-new_store 15))
      refl

register_node-keeps_decision_example :
    standing "a1" (register_node 30 31 32 "u" request cluster).1
    ≡ some ("lab", MembershipStatus.approved)
unfolding program
register_node-keeps_decision_example =
    register_node-keeps_decision 30 31 32 "u" request cluster MembershipStatus.approved refl

abbrev coding : CatalogQuery
coding = record {
  group = "lab";
  idle_only = true;
  skills = "coding" ∷ [];
  tools = [];
  exclude_node_id = some "a2";
  model = some "llama3";
  min_context_window = some 4096;
  min_memory_mb = none;
}

catalog_matches_iff_example :
    (catalog_matches (mapping_to_node row) coding ≡ true) ↔ Fits (mapping_to_node row) coding
catalog_matches_iff_example = catalog_matches_iff (mapping_to_node row) coding

query_catalog_lem_example :
    (nodes : List NodeRecord) × ((query_catalog 30 coding cluster).0 ≡ ok nodes)
    × ((n : NodeRecord) → Mem n nodes ↔ Listed 30 coding cluster n)
unfolding program
query_catalog_lem_example = query_catalog_lem 30 coding cluster lab refl

query_catalog-fresh_example : 30 ≤ 20 + 15
unfolding program
query_catalog-fresh_example =
    query_catalog-fresh 30 coding cluster (mapping_to_node row ∷ []) refl (mapping_to_node row)
      mem-cons_self (inl refl)

abbrev idle_beat : HeartbeatRequest
idle_beat = record { status = NodeStatus.busy; tools_available = none; models = none }

get_node-heartbeat_example :
    (n : NodeRecord) × ((get_node 60 "a1" (heartbeat 39 40 41 "a1" idle_beat cluster).1).0 ≡ ok n)
    × (n.last_seen ≡ 40)
    × (n.status ≡ NodeStatus.offline)
unfolding program
get_node-heartbeat_example =
    get_node-heartbeat 39 40 41 60 "a1" idle_beat row cluster refl (omega arith)

delete_group-cascade_example :
    (group_named "lab" (delete_group "lab" cluster).1 ≡ none)
    × ((other : String)
        → other ≢ "lab"
        → group_named other (delete_group "lab" cluster).1 ≡ group_named other cluster)
    × ((n : NodeRow)
        → Mem n (delete_group "lab" cluster).1.nodes
          ↔ (Mem n cluster.nodes × (n.group_name ≢ "lab")))
delete_group-cascade_example = delete_group-cascade "lab" cluster cluster-Inv

serve-documented_example : documented (serve (get_node_request 30 "a1") cluster) ≡ true
serve-documented_example = serve-documented (get_node_request 30 "a1") cluster

abbrev events : List ClusterEvent
events =
    beats 30 30 31
    ∷ (works (arrives message)
        ∷ (node_read 40 "a1"
            ∷ (another_beats 41 41 42 "b1"
                  (record { status = NodeStatus.busy; tools_available = none; models = none })
                ∷ (beats 44 44 44 ∷ []))))

get_node-cluster_run_example :
    (n : NodeRecord) × ((Client.get_node 59 "a1" (cluster_run events (agent, cluster)).1).0 ≡ ok n)
    × (n.status ≡ NodeStatus.busy)
    × (n.last_seen ≡ 44)
unfolding program Timely last_beat reported status child_step accept_child child_from_assign
get_node-cluster_run_example =
    get_node-cluster_run 15 "a1" refl events 59 agent cluster row refl refl refl
      (omega arith, (omega arith, (refl, omega arith, omega arith, (omega arith, tt))))
      (omega arith)
