-- ===== src/Manager/Store/Liveness.antt =====
-- What the catalog lists, and how long a heartbeat keeps a node in it.
use mathlib.Core.List.Perm
use mathlib.Core.List.{mem-filter, mem-map, mem-map_of_mem, Mem-prop}
use mathlib.Core.Logic.{∥∥₁_elim, ∥∥₁_map, ∥∥₁_prop}
use mathlib.Core.Option
use native.Mathlib.Bridge.{le_prop}
use myco_agent.Common.{
  ℕ, ◌+◌, ◌-◌, ◌≤◌, String, ◌≡◌, refl, sym, ◌∙◌, ap, ◌↔◌, ◌≢◌, ◌⊎◌, inl, inr, true, none, some,
  List, Mem, arith, eq_refl, if◌then◌else◌, ltb, keep, sort_by, sort_by-perm, dec_true,
  Option-cases, map,
}
use myco_agent.Exec.{Result, ok, raise}
use myco_agent.Models.{NodeStatus, MembershipStatus, NodeRecord, CatalogQuery, HeartbeatRequest}
use myco_agent.Manager.Tables.{
  Store, NodeRow, GroupRow, group_named, node_with_id, in_group, mapping_to_node, expire_row,
  expire_offline, set_node,
}
use myco_agent.Manager.Catalog.{catalog_matches, filter_catalog_nodes}
use myco_agent.Manager.Catalog.Spec.{Fits, catalog_matches_iff}
use myco_agent.Manager.Store.{
  require_group, require_node, query_catalog, heartbeat, get_node, by_last_seen, beat,
  group_not_found, StoreError,
}
use myco_agent.Manager.Store.Laws.{in_group_iff, node_with_id-expire_offline, node_with_id-set_node}

module _ (now : ℕ) (query : CatalogQuery) (s : Store) where
  -- What the catalog shows of a row: the node's status is offline where its last sign is too old.
  abbrev pub shown : NodeRow → NodeRecord
  shown row = mapping_to_node (expire_row (now - s.heartbeat_timeout) row)

  abbrev pub Listed : NodeRecord → Type 0
  Listed n = ∥ (
      (row : NodeRow) × Mem row s.nodes
      × (row.group_name ≡ query.group)
      × (row.membership_status ≡ MembershipStatus.approved)
      × (shown row ≡ n)
      × Fits n query) ∥₁

  abbrev selected : List NodeRow
  selected =
      sort_by by_last_seen
        (keep (in_group query.group MembershipStatus.approved) (expire_offline now s).nodes)

  mem-selected :
      (row : NodeRow)
      → Mem row selected ↔ (
          Mem row (expire_offline now s).nodes
          × (in_group query.group MembershipStatus.approved row ≡ true))
  mem-selected row =
      let sorted = Perm.mem_iff {a = row} (sort_by-perm by_last_seen _) in
      let kept = mem-filter (λ a. dec_true (in_group query.group MembershipStatus.approved a)) in
      ((λ m. kept.0 (sorted.0 m)), (λ m. sorted.1 (kept.1 m)))

  expire_row-in_group :
      (cutoff : ℕ) (row : NodeRow)
      → in_group query.group MembershipStatus.approved (expire_row cutoff row)
        ≡ in_group query.group MembershipStatus.approved row
  unfolding expire_row
  expire_row-in_group cutoff row = ground arith

  answer : List NodeRecord
  answer = filter_catalog_nodes (map mapping_to_node selected) query

  answer→Listed : (n : NodeRecord) → Mem n answer → Listed n
  unfolding answer filter_catalog_nodes expire_offline
  answer→Listed n m =
      let (mapped, fits) = (mem-filter (λ node. dec_true (catalog_matches node query))).0 m in
      ∥∥₁_elim (mem-map.0 mapped) ∥∥₁_prop λ (row, t, e).
        let (held, here) = (mem-selected row).0 t in
        ∥∥₁_map (mem-map.0 held) λ (old, o, f).
          let place = (in_group_iff query.group MembershipStatus.approved old).0 (
            sym (expire_row-in_group (now - s.heartbeat_timeout) old)
            ∙ ap (in_group query.group MembershipStatus.approved) f
            ∙ here) in
          (old, o, place.0, place.1, ap mapping_to_node f ∙ e, (catalog_matches_iff n query).0 fits)

  Listed→answer : (n : NodeRecord) → Listed n → Mem n answer
  unfolding answer filter_catalog_nodes expire_offline
  Listed→answer n l = ∥∥₁_elim l Mem-prop λ (row, m, g, a, e, f).
      let here =
        expire_row-in_group (now - s.heartbeat_timeout) row
        ∙ (in_group_iff query.group MembershipStatus.approved row).1 (g, a) in
      let t =
        (mem-selected (expire_row (now - s.heartbeat_timeout) row)).1 (mem-map_of_mem _ m, here) in
      (mem-filter (λ node. dec_true (catalog_matches node query))).1
        (rw e at (mem-map_of_mem mapping_to_node t), (catalog_matches_iff n query).1 f)

  -- The catalog of a group that is there lists exactly the approved nodes of the group that fit the
  -- query, each with the status that it has once silent nodes are marked offline.
  pub query_catalog_lem :
      (group : GroupRow)
      → group_named query.group s ≡ some group
      → (nodes : List NodeRecord) × ((query_catalog now query s).0 ≡ ok nodes)
        × ((n : NodeRecord) → Mem n nodes ↔ Listed n)
  unfolding query_catalog answer
  query_catalog_lem group e =
      let e' : group_named query.group (expire_offline now s) ≡ some group =
        (unfold expire_offline in e) in
      (answer, rw (e', require_group), (λ n. (answer→Listed n, Listed→answer n)))

  expire_row-fresh :
      (row : NodeRow)
      → (expire_row (now - s.heartbeat_timeout) row).status ≢ NodeStatus.offline
      → now ≤ row.last_seen + s.heartbeat_timeout
  unfolding expire_row
  expire_row-fresh row h = ground arith

  not_offline :
      (q : CatalogQuery) (n : NodeRecord)
      → (q.idle_only ≡ true) ⊎ (n.status ≢ NodeStatus.offline)
      → (q.idle_only ≡ true → n.status ≡ NodeStatus.idle)
      → n.status ≢ NodeStatus.offline
  not_offline q n (inl only) idle off = ground (arith, idle only, off)
  not_offline q n (inr h) idle off = h off

  last_seen-expire_row :
      (cutoff : ℕ) (row : NodeRow) → (expire_row cutoff row).last_seen ≡ row.last_seen
  unfolding expire_row
  last_seen-expire_row cutoff row = ground arith

  ok_injective :
      (a b : List NodeRecord) → Path (Result StoreError (List NodeRecord)) (ok a) (ok b) → a ≡ b
  ok_injective a b e = cc

  no_group :
      group_named query.group s ≡ none
      → (query_catalog now query s).0 ≡ raise (group_not_found query.group)
  unfolding query_catalog
  no_group e =
      let e' : group_named query.group (expire_offline now s) ≡ none =
        (unfold expire_offline in e) in
      rw (e', require_group)

  -- A node that the catalog lists, for a query for idle nodes or with a status other than offline, has shown a sign of
  -- life within the heartbeat timeout.
  pub query_catalog-fresh :
      (nodes : List NodeRecord)
      → (query_catalog now query s).0 ≡ ok nodes
      → (n : NodeRecord) → Mem n nodes
      → (query.idle_only ≡ true) ⊎ (n.status ≢ NodeStatus.offline)
      → now ≤ n.last_seen + s.heartbeat_timeout
  unfolding mapping_to_node
  query_catalog-fresh nodes e n m silent = elim (Option-cases (group_named query.group s)) [
    | inl absent ↦ cc (no_group absent)
    | inr (group, found) ↦
        let (listed, same, members) = query_catalog_lem group found in
        let there : Mem n listed = rw (ok_injective listed nodes (sym same ∙ e)) m in
        ∥∥₁_elim ((members n).0 there) le_prop λ (row, t, g, a, f, fits).
          let recent = expire_row-fresh row (λ off.
            not_offline query n silent fits.is_idle
              (sym (ap (λ (r : NodeRecord). r.status) f) ∙ off)) in
          let seen =
            sym (last_seen-expire_row (now - s.heartbeat_timeout) row)
            ∙ ap (λ (r : NodeRecord). r.last_seen) f in
          omega arith
  ]

-- When a node's last sign stands at `seen`, what a reader at `at` sees of its status.
abbrev pub status_at : (timeout seen at : ℕ) → NodeStatus → NodeStatus
status_at timeout seen at status = if ltb (seen + timeout) at then NodeStatus.offline else status

-- Expiring at an earlier instant makes no difference to a later one.
expire_row_twice :
    (timeout read at : ℕ) (row : NodeRow)
    → read ≤ at
    → let late = expire_row (at - timeout) (expire_row (read - timeout) row) in
      (late.last_seen ≡ row.last_seen)
      × (late.status ≡ status_at timeout row.last_seen at row.status)
unfolding expire_row
expire_row_twice timeout read at row h = ground arith

pub get_node_found :
    (read : ℕ) (node_id : String) (s : Store) (row : NodeRow)
    → node_with_id node_id s ≡ some row
    → get_node read node_id s
      ≡ (ok (mapping_to_node (expire_row (read - s.heartbeat_timeout) row)), expire_offline read s)
unfolding get_node
get_node_found read node_id s row e =
    let e' = node_with_id-expire_offline read s node_id ∙ ap (Option.map _) e in
    rw (e', require_node)

-- The row of the node once a heartbeat is written.
abbrev pub beaten : (first now : ℕ) → HeartbeatRequest → Store → NodeRow → NodeRow
beaten first now req s row = beat now req (expire_row (first - s.heartbeat_timeout) row)

module _ (first now read : ℕ) (node_id : String) (req : HeartbeatRequest) (row : NodeRow)
    (s : Store) (there : node_with_id node_id s ≡ some row) where
  abbrev pub written : Store
  written = set_node node_id (beat now req) (expire_offline first s)

  pub node_with_id-written : node_with_id node_id written ≡ some (beaten first now req s row)
  node_with_id-written = ground (
    arith,
    eq_refl node_id,
    there,
    node_with_id-expire_offline first s node_id,
    node_with_id-set_node node_id (beat now req) (λ a. refl) (expire_offline first s) node_id,
  )

  pub heartbeat_found : (heartbeat first now read node_id req s).1 ≡ expire_offline read written
  unfolding heartbeat
  heartbeat_found =
      let e' = node_with_id-expire_offline first s node_id ∙ ap (Option.map _) there in
      rw (e', require_node)
        (ap (λ (x : Result StoreError NodeRecord × Store). x.1)
          (get_node_found read node_id written _ node_with_id-written))

-- After a heartbeat at `now`, a reader sees the reported status exactly as long as the heartbeat
-- timeout has not passed since, and `offline` from then on.
pub get_node-heartbeat :
    (first now read at : ℕ) (node_id : String) (req : HeartbeatRequest) (row : NodeRow) (s : Store)
    → node_with_id node_id s ≡ some row
    → read ≤ at
    → (n : NodeRecord) × ((get_node at node_id (heartbeat first now read node_id req s).1).0 ≡ ok n)
      × (n.last_seen ≡ now)
      × (n.status ≡ status_at s.heartbeat_timeout now at req.status)
unfolding expire_offline set_node mapping_to_node
get_node-heartbeat first now read at node_id req row s e later =
    let timeout = s.heartbeat_timeout in
    let r = beaten first now req s row in
    let w = written first now read node_id req row s e in
    let after : node_with_id node_id (expire_offline read w)
        ≡ some (expire_row (read - timeout) r) =
      node_with_id-expire_offline read w node_id
      ∙ ap (Option.map _) (node_with_id-written first now read node_id req row s e) in
    let (seen, status) = expire_row_twice timeout read at r later in
    (
      mapping_to_node (expire_row (at - timeout) (expire_row (read - timeout) r)),
      rw (
        heartbeat_found first now read node_id req row s e,
        get_node_found at node_id (expire_offline read w) _ after,
      ),
      seen,
      status,
    )
