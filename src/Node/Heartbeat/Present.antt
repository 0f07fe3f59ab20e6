-- ===== src/Node/Heartbeat/Present.antt =====
-- An agent whose heartbeats come in time is in the catalog with the status that it last reported.
use myco_agent.Common.{
  ℕ, ◌+◌, ◌≤◌, String, ◌≡◌, refl, ◌∙◌, ap, true, false, some, List, [], ◌∷◌, arith, ◌==◌, truthy,
}
use myco_agent.Exec.{ok}
use myco_agent.Models.{NodeStatus, NodeRecord, HeartbeatRequest}
use myco_agent.Manager.Tables.{
  Store, NodeRow, mapping_to_node, expire_offline, node_with_id, set_node,
}
use myco_agent.Manager.Store as Store
use myco_agent.Manager.Store.{beat}
use myco_agent.Manager.Store.Liveness.{
  heartbeat_found, node_with_id-written, get_node_found, beaten, written,
}
use myco_agent.Manager.Api.{respond, heartbeat_handler, get_node_handler, get_group_handler}
use myco_agent.Manager.Client.{heartbeat, get_node, get_group, send}
use myco_agent.Node.Agent.{Agent}
use myco_agent.Node.Mailbox.{
  ChildEvent, arrives, ends, child_step, accept_child, enqueue, put_nowait, finish_child, status,
}
use myco_agent.Node.Heartbeat.{
  ClusterEvent, beats, works, another_beats, node_read, group_read, catalog_read, beat_of,
  heartbeat_once, cluster_step, cluster_run,
}
use myco_agent.Node.Heartbeat.Kept.{
  get_node-expires, get_group-expires, query_catalog-expires, expire_row_recent,
  node_with_id_recent, node_with_id-heartbeat, heartbeat-timeout,
}

module _ (timeout : ℕ) (id : String) where
  -- The node's row shows this status and this instant of its last sign.
  record Shows (seen : ℕ) (shown : NodeStatus) (s : Store) : Type 0 where
    pub row : NodeRow
    pub there : node_with_id id s ≡ some row
    pub last_seen : row.last_seen ≡ seen
    pub its_status : row.status ≡ shown
    pub its_timeout : s.heartbeat_timeout ≡ timeout

  -- Every instant at which the Manager looks for silent nodes is within the timeout of the last sign before it.
  unfoldable pub Timely : (seen : ℕ) → List ClusterEvent → Type 0
  Timely seen [] = Unit
  Timely seen (beats first now read ∷ es) = (read ≤ now + timeout) × Timely now es
  Timely seen (works e ∷ es) = Timely seen es
  Timely seen (another_beats first now read other req ∷ es) =
      (other == id ≡ false) × (first ≤ seen + timeout) × (read ≤ seen + timeout) × Timely seen es
  Timely seen (node_read at other ∷ es) = (at ≤ seen + timeout) × Timely seen es
  Timely seen (group_read at name ∷ es) = (at ≤ seen + timeout) × Timely seen es
  Timely seen (catalog_read at query ∷ es) = (at ≤ seen + timeout) × Timely seen es

  Shows-expire_offline :
      (at seen : ℕ) (shown : NodeStatus) (s : Store)
      → at ≤ seen + timeout
      → Shows seen shown s
      → Shows seen shown (expire_offline at s)
  unfolding expire_offline
  Shows-expire_offline at seen shown s h v = record {
    row = v.row;
    there = node_with_id_recent at id s v.row v.there (rw (v.last_seen, v.its_timeout) h);
    last_seen = v.last_seen;
    its_status = v.its_status;
    its_timeout = v.its_timeout;
  }

-- The instant of the last heartbeat, and the status that the agent had then.
unfoldable pub last_beat : (seen : ℕ) → List ClusterEvent → ℕ
last_beat seen [] = seen
last_beat seen (beats first now read ∷ es) = last_beat now es
last_beat seen (_ ∷ es) = last_beat seen es

unfoldable pub reported : NodeStatus → List ClusterEvent → Agent → NodeStatus
reported shown [] a = shown
reported shown (beats first now read ∷ es) a = reported (status a) es a
reported shown (works e ∷ es) a = reported shown es (child_step e a)
reported shown (another_beats first now read other req ∷ es) a = reported shown es a
reported shown (node_read at other ∷ es) a = reported shown es a
reported shown (group_read at name ∷ es) a = reported shown es a
reported shown (catalog_read at query ∷ es) a = reported shown es a

heartbeat-sent :
    (first now read : ℕ) (id : String) (req : HeartbeatRequest) (s : Store)
    → (heartbeat first now read id req s).1 ≡ (Store.heartbeat first now read id req s).1
unfolding heartbeat send heartbeat_handler
heartbeat-sent first now read id req s = refl

child_step-node_id : (e : ChildEvent) (a : Agent) → (child_step e a).node_id ≡ a.node_id
unfolding child_step accept_child enqueue put_nowait finish_child
child_step-node_id (arrives message) a = ground arith
child_step-node_id ends a = ground arith

module _ (timeout : ℕ) (id : String) (named : truthy id ≡ true) where
  Shows-beats :
      (first now read seen : ℕ) (shown : NodeStatus) (a : Agent) (s : Store)
      → a.node_id ≡ some id
      → read ≤ now + timeout
      → Shows timeout id seen shown s
      → Shows timeout id now (status a) (heartbeat_once first now read a s)
  unfolding heartbeat_once status heartbeat
  Shows-beats first now read seen shown a s own soon v =
      let w : Store = written first now read id (beat_of a) v.row s v.there in
      let fresh : Shows timeout id now (status a) w = record {
        row = beaten first now (beat_of a) s v.row;
        there = node_with_id-written first now read id (beat_of a) v.row s v.there;
        last_seen = refl;
        its_status = refl;
        its_timeout = unfold set_node in unfold expire_offline in v.its_timeout;
      } in
      rw
        (
          own,
          named,
          heartbeat-sent first now read id (beat_of a) s,
          heartbeat_found first now read id (beat_of a) v.row s v.there,
        )
        (Shows-expire_offline timeout id read now (status a) w soon fresh)

  Shows-step :
      (e : ClusterEvent) (seen : ℕ) (shown : NodeStatus) (a : Agent) (s : Store)
      → a.node_id ≡ some id
      → Timely timeout id seen (e ∷ [])
      → Shows timeout id seen shown s
      → Shows timeout id
          (last_beat seen (e ∷ []))
          (reported shown (e ∷ []) a)
          (cluster_step e (a, s)).1
  unfolding Timely last_beat reported cluster_step get_node get_group send get_node_handler
      get_group_handler
  Shows-step (beats first now read) seen shown a s own soon v =
      Shows-beats first now read seen shown a s own soon.0 v
  Shows-step (works e) seen shown a s own soon v = v
  Shows-step (another_beats first now read other req) seen shown a s own
        (apart, recent, later, rest) v =
      record {
        row = v.row;
        there =
            ap (node_with_id id) (heartbeat-sent first now read other req s)
            ∙ node_with_id-heartbeat first now read other id req s v.row v.there apart
                (rw (v.last_seen, v.its_timeout) recent) (rw (v.last_seen, v.its_timeout) later);
        last_seen = v.last_seen;
        its_status = v.its_status;
        its_timeout =
            ap (λ (x : Store). x.heartbeat_timeout) (heartbeat-sent first now read other req s)
            ∙ heartbeat-timeout first now read other req s
            ∙ v.its_timeout;
      }
  Shows-step (node_read at other) seen shown a s own soon v =
      rw (get_node-expires at other s) (Shows-expire_offline timeout id at seen shown s soon.0 v)
  Shows-step (group_read at name) seen shown a s own soon v =
      rw (get_group-expires at name s) (Shows-expire_offline timeout id at seen shown s soon.0 v)
  Shows-step (catalog_read at query) seen shown a s own soon v =
      rw (query_catalog-expires at query s)
        (Shows-expire_offline timeout id at seen shown s soon.0 v)

  cluster_run-Shows :
      (es : List ClusterEvent) (seen : ℕ) (shown : NodeStatus) (a : Agent) (s : Store)
      → a.node_id ≡ some id
      → Timely timeout id seen es
      → Shows timeout id seen shown s
      → Shows timeout id (last_beat seen es) (reported shown es a) (cluster_run es (a, s)).1
  unfolding cluster_run Timely last_beat reported cluster_step
  cluster_run-Shows [] seen shown a s own soon v = v
  cluster_run-Shows (beats first now read ∷ es) seen shown a s own (h, rest) v =
      cluster_run-Shows es now (status a) a _ own rest
        (Shows-step (beats first now read) seen shown a s own (h, tt) v)
  cluster_run-Shows (works e ∷ es) seen shown a s own rest v =
      cluster_run-Shows es seen shown (child_step e a) s (child_step-node_id e a ∙ own) rest v
  cluster_run-Shows (another_beats first now read other req ∷ es) seen shown a s own
        (apart, recent, later, rest) v =
      cluster_run-Shows es seen shown a _ own rest (
        Shows-step (another_beats first now read other req) seen shown a s own
          (apart, recent, later, tt) v)
  cluster_run-Shows (node_read at other ∷ es) seen shown a s own (h, rest) v =
      cluster_run-Shows es seen shown a _ own rest
        (Shows-step (node_read at other) seen shown a s own (h, tt) v)
  cluster_run-Shows (group_read at name ∷ es) seen shown a s own (h, rest) v =
      cluster_run-Shows es seen shown a _ own rest
        (Shows-step (group_read at name) seen shown a s own (h, tt) v)
  cluster_run-Shows (catalog_read at query ∷ es) seen shown a s own (h, rest) v =
      cluster_run-Shows es seen shown a _ own rest
        (Shows-step (catalog_read at query) seen shown a s own (h, tt) v)

  -- The heartbeats of a registered agent, its work, the heartbeats of other nodes and anybody's reads, in any order in
  -- which no reading of the Manager's clock is later than the timeout after the agent's last sign: a reader then gets
  -- the status that the agent had at its last heartbeat, or at first the status of its row, and never `offline` for it.
  pub get_node-cluster_run :
      (es : List ClusterEvent) (at : ℕ) (a : Agent) (s : Store) (row : NodeRow)
      → a.node_id ≡ some id
      → node_with_id id s ≡ some row
      → s.heartbeat_timeout ≡ timeout
      → Timely timeout id row.last_seen es
      → at ≤ last_beat row.last_seen es + timeout
      → (n : NodeRecord) × ((get_node at id (cluster_run es (a, s)).1).0 ≡ ok n)
        × (n.status ≡ reported row.status es a)
        × (n.last_seen ≡ last_beat row.last_seen es)
  unfolding get_node send get_node_handler respond mapping_to_node
  get_node-cluster_run es at a s row own there its_timeout soon recent =
      let v = cluster_run-Shows es row.last_seen row.status a s own soon (record {
        row = row;
        there = there;
        last_seen = refl;
        its_status = refl;
        its_timeout = its_timeout;
      }) in
      let s' = (cluster_run es (a, s)).1 in
      let shown = get_node_found at id s' v.row v.there in
      let fresh =
        expire_row_recent s'.heartbeat_timeout at v.row (rw (v.last_seen, v.its_timeout) recent) in
      (mapping_to_node v.row, rw (shown, fresh) refl, v.its_status, v.last_seen)
