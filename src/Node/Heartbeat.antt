-- ===== src/Node/Heartbeat.antt =====
-- `_heartbeat_loop` of src/mycoagent/node/runtime.py, beside the agent's own work and the Manager's other requests.
pub mod Kept
pub mod Present
use myco_agent.Common.{
  ℕ, String, Bool, true, false, Option, none, some, List, [], ◌∷◌, given, or_empty, if◌then◌else◌,
}
use myco_agent.Models.{NodeStatus, HeartbeatRequest, CatalogQuery}
use myco_agent.Manager.Tables.{Store}
use myco_agent.Manager.Client.{heartbeat, get_node, get_group, catalog}
use myco_agent.Manager.Store.{query_catalog}
use myco_agent.Node.Agent.{Agent}
use myco_agent.Node.Mailbox.{ChildEvent, child_step, status}

-- `HeartbeatRequest(status=self.status)`
abbrev pub beat_of : Agent → HeartbeatRequest
beat_of a = record { status = status a; tools_available = none; models = none }

-- The loop's body: an exception is logged and forgotten. `first`, `now` and `read` are the Manager's clock readings.
unfoldable pub heartbeat_once : (first now read : ℕ) → Agent → Store → Store
heartbeat_once first now read a s =
    if given a.node_id then (heartbeat first now read (or_empty a.node_id) (beat_of a) s).1 else s

-- What happens on the agent and on the Manager: the loop's body runs, the agent's work goes on, another node sends a
-- heartbeat, or somebody reads a node, a group or the catalog at an instant.
pub data ClusterEvent : Type 0 where
  beats : (first now read : ℕ) → ClusterEvent
  works : ChildEvent → ClusterEvent
  another_beats : (first now read : ℕ) → String → HeartbeatRequest → ClusterEvent
  node_read : ℕ → String → ClusterEvent
  group_read : ℕ → String → ClusterEvent
  catalog_read : ℕ → CatalogQuery → ClusterEvent

unfoldable pub cluster_step : ClusterEvent → Agent × Store → Agent × Store
cluster_step (beats first now read) (a, s) = (a, heartbeat_once first now read a s)
cluster_step (works e) (a, s) = (child_step e a, s)
cluster_step (another_beats first now read other req) (a, s) =
    (a, (heartbeat first now read other req s).1)
cluster_step (node_read at id) (a, s) = (a, (get_node at id s).1)
cluster_step (group_read at name) (a, s) = (a, (get_group at name s).1)
cluster_step (catalog_read at query) (a, s) = (a, (query_catalog at query s).1)

unfoldable pub cluster_run : List ClusterEvent → Agent × Store → Agent × Store
cluster_run [] state = state
cluster_run (e ∷ es) state = cluster_run es (cluster_step e state)
