-- ===== src/Manager/Store/Membership.antt =====
-- Who becomes an approved member: nothing but an approval, or a registration in an open group.
use mathlib.Core.Option
use myco_agent.Common.{
  ℕ, String, ◌≡◌, refl, sym, ◌∙◌, ap, inl, inr, ◌⊎◌, false, Option, none, some, [], ◌∷◌, arith,
  ◌==◌, eq_iff, eq_refl, if◌then◌else◌, Bool-cases, Option-cases,
}
use myco_agent.Models.{JoinMode, MembershipStatus, NodeRegisterRequest}
use myco_agent.Table.{find}
use myco_agent.Table.Laws.{find_key, find-append}
use myco_agent.Manager.Tables.{
  Store, NodeRow, GroupRow, group_key, node_key, group_named, node_with_id, expire_offline,
}
use myco_agent.Manager.Store.{
  membership_for, registered_row, by_join_mode, chosen_id, refused, register_node, write_node,
  require_group,
}
use myco_agent.Manager.Store.Laws.{node_with_id-set_node}
use myco_agent.Manager.Store.Invariant.{Inv}
use myco_agent.Manager.Store.Calls.{
  Call, create_group_call, update_group_call, delete_group_call, get_group_call, list_groups_call,
  register_node_call, set_membership_call, heartbeat_call, get_node_call, query_catalog_call, step,
}
use myco_agent.Manager.Store.Standing.{
  place, standing, standing-create_group, standing-delete_group, standing-expire_offline,
  standing-get_group, standing-get_node, standing-heartbeat, standing-list_groups,
  standing-query_catalog, standing-set_membership, standing-update_group,
}

module _ (req : NodeRegisterRequest) (n : String) (now : ℕ) (group : GroupRow) (j : String)
    (s : Store) where
  standing-write_node :
      (existing : Option NodeRow)
      → node_with_id n s ≡ existing
      → standing j (write_node req n now group existing s)
        ≡ (if n == j then some (req.group, membership_for group existing) else standing j s)
  unfolding write_node standing find
  standing-write_node none e = ground (
    arith,
    eq_iff n j,
    find-append node_key j s.nodes (registered_row req n now now (membership_for group none) ∷ []),
  )
  standing-write_node (some row) e = ground (
    arith,
    eq_iff n j,
    e,
    node_with_id-set_node n
        (λ old. registered_row req old.id now old.created_at (membership_for group (some row)))
        (λ a. refl) s j,
  )

-- What `register_node` leaves: nothing new, or the node under the group asked for.
abbrev Registers : NodeRegisterRequest → String → String → Store → Store → Type 0
Registers req n j s s' =
    (group : GroupRow) × (group_named req.group s ≡ some group)
    × (refused group req.name ≡ false)
    × (existing : Option NodeRow) × (Option.map place existing ≡ standing n s)
    × (standing j s'
        ≡ (if n == j then some (req.group, membership_for group existing) else standing j s))

module _ (first now read : ℕ) (uuid : String) (req : NodeRegisterRequest) (j : String)
    (s : Store) where
  register_node-cases :
      (standing j (register_node first now read uuid req s).1 ≡ standing j s)
      ⊎ Registers req (chosen_id req uuid) j s (register_node first now read uuid req s).1
  unfolding register_node
  register_node-cases =
      let n = chosen_id req uuid in
      let s' = expire_offline first s in
      let same : standing j s' ≡ standing j s = standing-expire_offline first j s in
      elim (Option-cases (group_named req.group s')) [
        | inl e ↦ inl (rw (e, require_group) same)
        | inr (group, e) ↦ elim (Bool-cases (refused group req.name)) [
          | inl no_entry ↦ inl (rw (e, require_group, no_entry) same)
          | inr entry ↦ inr (
            group,
            (unfold expire_offline in e),
            entry,
            node_with_id n s',
            (unfold standing in standing-expire_offline first n s),
            rw (e, require_group, entry)
                (standing-get_node j _ read n
                  ∙ standing-write_node req n now group j s' (node_with_id n s') refl
                  ∙ ap
                      (λ x.
                        if n == j
                        then some (req.group, membership_for group (node_with_id n s'))
                        else x)
                      same),
          )
        ]
      ]

-- The calls that may make `j` an approved member of `g`: an approval of it, and a registration
-- of it in `g`, where `g` admits on its own.
abbrev pub Grants : Call → String → String → Store → Type 0
Grants (set_membership_call first read group n status) g j s =
    (n ≡ j) × (group ≡ g) × (status ≡ MembershipStatus.approved)
Grants (register_node_call first now read uuid req) g j s =
    (chosen_id req uuid ≡ j)
    × (req.group ≡ g)
    × (row : GroupRow) × (group_named g s ≡ some row)
    × (row.join_mode ≡ JoinMode.auto)
Grants _ g j s = ⊥

abbrev pub approved_in : String → Option (String × MembershipStatus)
approved_in g = some (g, MembershipStatus.approved)

membership_for-approved :
    (group : GroupRow) (existing : Option NodeRow)
    → membership_for group existing ≡ MembershipStatus.approved
    → (group.join_mode ≡ JoinMode.auto) ⊎ (Option.map place existing ≡ approved_in group.name)
unfolding membership_for by_join_mode
membership_for-approved group none h = ground arith
membership_for-approved group (some row) h = ground (arith, eq_iff row.group_name group.name)

membership_for-known :
    (group : GroupRow) (existing : Option NodeRow) (name : String) (status : MembershipStatus)
    → Option.map place existing ≡ some (name, status)
    → group.name ≡ name
    → membership_for group existing ≡ status
unfolding membership_for
membership_for-known group none name status h e = cc
membership_for-known group (some row) name status h e =
    ground (arith, eq_iff row.group_name group.name)

approved_by_registering :
    (req : NodeRegisterRequest) (n g j : String) (s s' : Store)
    → Registers req n j s s'
    → standing j s' ≡ approved_in g
    → (standing j s ≡ approved_in g)
      ⊎ ((n ≡ j)
          × (req.group ≡ g)
          × (row : GroupRow) × (group_named g s ≡ some row)
          × (row.join_mode ≡ JoinMode.auto))
approved_by_registering req n g j s s' (group, found, entry, existing, was, e) h =
    elim (Bool-cases (n == j)) [
      | inl same ↦
          let wrote : some (req.group, membership_for group existing) ≡ approved_in g =
            ground arith in
          let known = find_key group_key req.group s.groups group found in
          elim (membership_for-approved group existing (ground arith)) [
            | inl open_group ↦
                inr (ground (arith, eq_iff n j), ground arith, group, ground arith, open_group)
            | inr kept ↦ inl (ground (arith, eq_iff n j))
          ]
      | inr other ↦ inl (ground arith)
    ]

-- A call makes a node an approved member of a group only if it is an approval of that node in that
-- group, or a registration of it there while the group's join mode is automatic.
pub step-approved :
    (c : Call) (s : Store) (g j : String)
    → Inv s
    → standing j (step c s) ≡ approved_in g
    → (standing j s ≡ approved_in g) ⊎ Grants c g j s
unfolding step
step-approved (create_group_call now read name d m r p) s g j v h =
    inl (sym (standing-create_group j now read name d m r p s) ∙ h)
step-approved (update_group_call first read name patch) s g j v h =
    inl (sym (standing-update_group j first read name patch s) ∙ h)
step-approved (delete_group_call name) s g j v h =
    inl (standing-delete_group j name (g, MembershipStatus.approved) s v h)
step-approved (get_group_call read name) s g j v h =
    inl (sym (standing-get_group j s read name) ∙ h)
step-approved (list_groups_call now read) s g j v h =
    inl (sym (standing-list_groups j now read s) ∙ h)
step-approved (register_node_call first now read uuid req) s g j v h =
    elim (register_node-cases first now read uuid req j s) [
      | inl same ↦ inl (sym same ∙ h)
      | inr wrote ↦ approved_by_registering req (chosen_id req uuid) g j s _ wrote h
    ]
step-approved (set_membership_call first read group n status) s g j v h =
    elim (standing-set_membership j first read group n status s) [
      | inl same ↦ inl (sym same ∙ h)
      | inr (e, now) ↦ inr (e, ground arith, ground arith)
    ]
step-approved (heartbeat_call first now read n req) s g j v h =
    inl (sym (standing-heartbeat j first now read n req s) ∙ h)
step-approved (get_node_call read n) s g j v h = inl (sym (standing-get_node j s read n) ∙ h)
step-approved (query_catalog_call now query) s g j v h =
    inl (sym (standing-query_catalog j now query s) ∙ h)

-- While a node keeps its group, registering it again never changes the decision on its membership,
-- whatever the request says and whether or not it is accepted.
pub register_node-keeps_decision :
    (first now read : ℕ) (uuid : String) (req : NodeRegisterRequest) (s : Store)
    (status : MembershipStatus)
    → standing (chosen_id req uuid) s ≡ some (req.group, status)
    → standing (chosen_id req uuid) (register_node first now read uuid req s).1
      ≡ some (req.group, status)
register_node-keeps_decision first now read uuid req s status h =
    elim (register_node-cases first now read uuid req (chosen_id req uuid) s) [
      | inl same ↦ same ∙ h
      | inr (group, found, entry, existing, was, e) ↦
          let known = find_key group_key req.group s.groups group found in
          let kept = membership_for-known group existing req.group status in
          ground (arith, kept, eq_refl (chosen_id req uuid))
    ]
