-- ===== src/Manager/Store/Standing.antt =====
-- A node's group and membership, and which calls leave them alone.
use mathlib.Core.Option
use myco_agent.Common.{
  ℕ, ◌-◌, String, ◌≡◌, refl, ◌∙◌, inl, inr, ◌⊎◌, Option, some, List, [], ◌∷◌, arith, ◌==◌, eq_iff,
  if◌then◌else◌, Bool-cases, Option-cases,
}
use myco_agent.Exec.{ok, raise}
use myco_agent.Models.{
  JoinMode, MembershipStatus, GroupPolicyUpdate, HeartbeatRequest, CatalogQuery,
}
use myco_agent.Table.Rows.{find_of_find-keep}
use myco_agent.Manager.Tables.{
  Store, NodeRow, GroupRow, node_key, group_named, node_with_id, expire_row, expire_offline,
  set_node, delete_group_rows,
}
use myco_agent.Manager.Store.{
  get_each, beat, set_group, get_group, create_group, insert_group, update_group, delete_group,
  list_groups, get_node, set_membership, heartbeat, query_catalog, require_node,
}
use myco_agent.Manager.Store.Laws.{node_with_id-expire_offline, node_with_id-set_node}
use myco_agent.Manager.Store.Invariant.{Inv}

abbrev pub place : NodeRow → String × MembershipStatus
place n = (n.group_name, n.membership_status)

-- A node's group and membership, where the node is there.
unfoldable pub standing : String → Store → Option (String × MembershipStatus)
standing node_id s = Option.map place (node_with_id node_id s)

expire_row-standing :
    (cutoff : ℕ) (n : NodeRow)
    → ((expire_row cutoff n).group_name ≡ n.group_name)
      × ((expire_row cutoff n).membership_status ≡ n.membership_status)
unfolding expire_row
expire_row-standing cutoff n = ground arith

pub standing-expire_offline :
    (now : ℕ) (j : String) (s : Store) → standing j (expire_offline now s) ≡ standing j s
unfolding standing
standing-expire_offline now j s = elim (Option-cases (node_with_id j s)) [
  | inl e ↦ rw (node_with_id-expire_offline now s j, e)
  | inr (n, e) ↦
      let (g, m) = expire_row-standing (now - s.heartbeat_timeout) n in
      rw (node_with_id-expire_offline now s j, e, g, m)
]

-- Reading a group or a node changes no standing.
module _ (j : String) (s : Store) where
  pub standing-get_group :
      (read : ℕ) (name : String) → standing j (get_group read name s).1 ≡ standing j s
  unfolding get_group
  standing-get_group read name = ground (arith, standing-expire_offline read j s)

  pub standing-get_node : (read : ℕ) (n : String) → standing j (get_node read n s).1 ≡ standing j s
  unfolding get_node
  standing-get_node read n = ground (arith, standing-expire_offline read j s)

  pub standing-insert_group : (row : GroupRow) → standing j (insert_group row s).1 ≡ standing j s
  unfolding insert_group standing
  standing-insert_group row = ground arith

  pub standing-set_group :
      (name : String) (f : GroupRow → GroupRow) → standing j (set_group name f s) ≡ standing j s
  unfolding set_group standing
  standing-set_group name f = refl

  pub standing-beat :
      (n : String) (now : ℕ) (req : HeartbeatRequest)
      → standing j (set_node n (beat now req) s) ≡ standing j s
  unfolding standing
  standing-beat n now req = ground (arith, node_with_id-set_node n (beat now req) (λ a. refl) s j)

  pub standing-set :
      (n : String) (status : MembershipStatus)
      → standing j (set_node n (λ a. record a { membership_status = status }) s)
        ≡ (if n == j then Option.map (λ x. (x.0, status)) (standing j s) else standing j s)
  unfolding standing
  standing-set n status = ground (
    arith,
    node_with_id-set_node n (λ a. record a { membership_status = status }) (λ a. refl) s j,
  )

  pub standing-delete_group_rows :
      (name : String) (x : String × MembershipStatus)
      → Inv s
      → standing j (delete_group_rows name s) ≡ some x
      → standing j s ≡ some x
  unfolding standing delete_group_rows
  standing-delete_group_rows name x v h =
      elim (Option-cases (node_with_id j (delete_group_rows name s))) [
        | inl e ↦ ground arith
        | inr (n, e) ↦
            let before = find_of_find-keep node_key _ j s.nodes n v.ids_distinct e in ground arith
      ]

module _ (j : String) where
  pub standing-create_group :
      (now read : ℕ) (name d : String) (m : JoinMode) (r p : List String) (s : Store)
      → standing j (create_group now read name d m r p s).1 ≡ standing j s
  unfolding create_group insert_group
  standing-create_group now read name d m r p s = elim (Option-cases (group_named name s)) [
    | inl e ↦ rw (e, insert_group) (standing-get_group j _ read name ∙ unfold standing in refl)
    | inr (g, e) ↦ rw (e, insert_group)
  ]

  pub standing-update_group :
      (first read : ℕ) (name : String) (patch : GroupPolicyUpdate) (s : Store)
      → standing j (update_group first read name patch s).1 ≡ standing j s
  unfolding update_group
  standing-update_group first read name patch s = go (get_group first name s).0 refl
    where
      s' : Store
      s' = (get_group first name s).1

      go :
          (r : _)
          → (get_group first name s).0 ≡ r
          → standing j (update_group first read name patch s).1 ≡ standing j s
      go (ok current) e =
          rw (e, update_group)
            (standing-get_group j _ read name
              ∙ standing-set_group j s' name _
              ∙ standing-get_group j s first name)
      go (raise x) e = rw (e, update_group) (standing-get_group j s first name)

  pub standing-get_each :
      (read : String → ℕ) (names : List String) (s : Store)
      → standing j (get_each read names s).1 ≡ standing j s
  unfolding get_each
  standing-get_each read [] s = refl
  standing-get_each read (name ∷ names) s = ground (
    arith,
    standing-get_group j s (read name) name,
    standing-get_each read names (get_group (read name) name s).1,
  )

  pub standing-list_groups :
      (now : ℕ) (read : String → ℕ) (s : Store)
      → standing j (list_groups now read s).1 ≡ standing j s
  unfolding list_groups
  standing-list_groups now read s =
      standing-get_each read _ (expire_offline now s) ∙ standing-expire_offline now j s

  pub standing-query_catalog :
      (now : ℕ) (query : CatalogQuery) (s : Store)
      → standing j (query_catalog now query s).1 ≡ standing j s
  unfolding query_catalog
  standing-query_catalog now query s = ground (arith, standing-expire_offline now j s)

  pub standing-heartbeat :
      (first now read : ℕ) (n : String) (req : HeartbeatRequest) (s : Store)
      → standing j (heartbeat first now read n req s).1 ≡ standing j s
  unfolding heartbeat
  standing-heartbeat first now read n req s =
      let s' = expire_offline first s in
      ground (
        arith,
        standing-expire_offline first j s,
        standing-beat j s' n now req,
        standing-get_node j (set_node n (beat now req) s') read n,
      )

  pub standing-delete_group :
      (name : String) (x : String × MembershipStatus) (s : Store)
      → Inv s
      → standing j (delete_group name s).1 ≡ some x
      → standing j s ≡ some x
  unfolding delete_group
  standing-delete_group name x s v h = ground (arith, standing-delete_group_rows j s name x v)

  -- The standing that `set_membership` leaves: a change only of the node named, and only where it
  -- is in the group named.
  pub standing-set_membership :
      (first read : ℕ) (group n : String) (status : MembershipStatus) (s : Store)
      → (standing j (set_membership first read group n status s).1 ≡ standing j s)
        ⊎ ((n ≡ j)
            × (standing j (set_membership first read group n status s).1 ≡ some (group, status)))
  unfolding set_membership standing require_node
  standing-set_membership first read group n status s =
      let s' = expire_offline first s in
      let f = λ (a : NodeRow). record a { membership_status = status } in
      elim (Option-cases (node_with_id n s')) [
        | inl e ↦ inl (rw (e, require_node) (standing-expire_offline first j s))
        | inr (row, e) ↦ elim (Bool-cases (row.group_name == group)) [
          | inl same ↦
              rw (e, require_node, same)
                (ground (
                  arith,
                  standing-expire_offline first j s,
                  eq_iff n j,
                  eq_iff row.group_name group,
                  e,
                  standing-get_node j (set_node n f s') read n,
                  standing-set j s' n status,
                ))
          | inr other ↦ inl (rw (e, require_node, other) (standing-expire_offline first j s))
        ]
      ]
