-- ===== src/Manager/Store/Groups.antt =====
-- Groups: creation, policy updates, the cascade of a deletion, and the lists of members.
use mathlib.Core.List.Perm
use mathlib.Core.List.{mem-filter, mem-map, mem-map_of_mem}
use mathlib.Core.Logic.{∥∥₁_elim}
use myco_agent.Common.{
  ℕ, String, ◌≡◌, ◌≢◌, refl, sym, ◌∙◌, ap, ◌↔◌, inl, inr, true, Option, none, some, List, Mem, Perm,
  arith, ◌==◌, eq_iff, eq_refl, if◌then◌else◌, keep, sort_by, sort_by-perm, dec_true, is_some,
  text_set, Option-cases, not,
}
use myco_agent.Exec.{ok, raise}
use myco_agent.Models.{JoinMode, MembershipStatus, GroupInfo, GroupPolicyUpdate}
use myco_agent.Table.{find}
use myco_agent.Table.Laws.{find_key, find-append, find-remove, find-update}
use myco_agent.Table.Rows.{find-mem, find_of_mem, not-mem_of_find-none}
use myco_agent.Manager.Tables.{
  Store, NodeRow, GroupRow, group_key, node_key, group_named, node_with_id, in_group, by_name,
  ids_in_group, group_info, expire_offline, delete_group_rows,
}
use myco_agent.Manager.Store.{
  require_group, get_group, insert_group, create_group, update_group, set_group, patch_row, patched,
  delete_group, group_exists,
}
use myco_agent.Manager.Store.Laws.{in_group_iff}
use myco_agent.Manager.Store.Invariant.{Inv, expire_offline-Inv}
use myco_agent.Manager.Store.Standing.{standing, standing-expire_offline}

NodeRow-set : IsSet NodeRow
NodeRow-set = hlevel text_set

Standing-set : IsSet (Option (String × MembershipStatus))
Standing-set = hlevel text_set

-- The ids that are listed under a status are those of the nodes that have it in the group.
pub mem-ids_in_group :
    (name j : String) (status : MembershipStatus) (s : Store)
    → Inv s
    → Mem j (ids_in_group name status s.nodes) ↔ (standing j s ≡ some (name, status))
unfolding ids_in_group standing
mem-ids_in_group name j status s v = (
  (λ m. ∥∥₁_elim (mem-map.0 m) (Standing-set _ _) λ (row, t, e).
      let (held, here) = chosen.0 ((Perm.mem_iff sorted).0 t) in
      let (g, a) = (in_group_iff name status row).0 here in
      let found = find_of_mem node_key NodeRow-set s.nodes row v.ids_distinct held in
      ground (arith, found, e, g, a)),
  (λ e. elim (Option-cases (node_with_id j s)) [
    | inl absent ↦ absurd (ground arith)
    | inr (row, found) ↦
        let here = (in_group_iff name status row).1 (ground arith, ground arith) in
        let held = chosen.1 (find-mem node_key j s.nodes row found, here) in
        rw (find_key node_key j s.nodes row found) at
          (mem-map_of_mem node_key ((Perm.mem_iff sorted).1 held))
  ]),
)
  where
    sorted :
        Perm
          (sort_by by_name (keep (in_group name status) s.nodes))
          (keep (in_group name status) s.nodes)
    sorted = sort_by-perm by_name (keep (in_group name status) s.nodes)

    chosen :
        {a : NodeRow}
        → Mem a (keep (in_group name status) s.nodes)
          ↔ (Mem a s.nodes × (in_group name status a ≡ true))
    chosen = mem-filter (λ a. dec_true (in_group name status a))

-- What `get_group` tells of a group that is there: its policy, and as members and as pending ids
-- exactly the nodes of the group that are approved and that are pending.
pub get_group_lem :
    (read : ℕ) (name : String) (group : GroupRow) (s : Store)
    → Inv s
    → group_named name s ≡ some group
    → (info : GroupInfo) × ((get_group read name s).0 ≡ ok info)
      × (info.allow_register ≡ group.allow_register)
      × (info.allow_parent ≡ group.allow_parent)
      × ((j : String)
          → Mem j info.member_ids ↔ (standing j s ≡ some (name, MembershipStatus.approved)))
      × ((j : String)
          → Mem j info.pending_ids ↔ (standing j s ≡ some (name, MembershipStatus.pending)))
unfolding get_group group_info
get_group_lem read name group s v e =
    let s' = expire_offline read s in
    let e' : group_named name s' ≡ some group = (unfold expire_offline in e) in
    let same = find_key group_key name s.groups group e in
    let listed = λ (status : MembershipStatus) (j : String).
      let (there, back) = mem-ids_in_group group.name j status s' (expire_offline-Inv s v read) in
      let kept = standing-expire_offline read j s in
      let known = ap (λ (x : String). some (x, status)) same in
      let both : Mem j (ids_in_group group.name status s'.nodes)
          ↔ (standing j s ≡ some (name, status)) =
        ((λ m. sym kept ∙ there m ∙ known), (λ h. back (kept ∙ h ∙ sym known))) in
      both in
    (
      group_info group s'.nodes,
      rw (e', require_group),
      refl,
      refl,
      listed MembershipStatus.approved,
      listed MembershipStatus.pending,
    )

groups-get_group :
    (read : ℕ) (name : String) (s : Store) → (get_group read name s).1.groups ≡ s.groups
unfolding get_group expire_offline
groups-get_group read name s = ground arith

module _ (now read : ℕ) (name d : String) (m : JoinMode) (r p : List String) (s : Store) where
  create_taken :
      is_some (group_named name s) ≡ true
      → create_group now read name d m r p s ≡ (raise (group_exists name), s)
  unfolding create_group insert_group
  create_taken e = rw e

  create_free :
      group_named name s ≡ none
      → is_some (group_named name (create_group now read name d m r p s).1) ≡ true
  unfolding create_group insert_group find
  create_free e = rw (e, groups-get_group, find-append, e) (ground (arith, eq_refl name))

-- A name can be created once: whatever the first call did, a second one raises and changes nothing.
pub create_group_twice :
    (now read now' read' : ℕ) (name d d' : String) (m m' : JoinMode) (r p r' p' : List String)
    (s : Store)
    → let once = (create_group now read name d m r p s).1 in
      create_group now' read' name d' m' r' p' once ≡ (raise (group_exists name), once)
create_group_twice now read now' read' name d d' m m' r p r' p' s =
    elim (Option-cases (group_named name s)) [
      | inl absent ↦
          create_taken now' read' name d' m' r' p' _ (create_free now read name d m r p s absent)
      | inr (group, found) ↦
          let same = create_taken now read name d m r p s (rw found) in
          rw same (create_taken now' read' name d' m' r' p' s (rw found))
    ]

-- A deletion leaves no trace of the group: the name is free, its nodes are gone with it, and every
-- other group and node is as it was.
pub delete_group-cascade :
    (name : String) (s : Store)
    → Inv s
    → let s' = (delete_group name s).1 in
      (group_named name s' ≡ none)
      × ((other : String) → other ≢ name → group_named other s' ≡ group_named other s)
      × ((n : NodeRow) → Mem n s'.nodes ↔ (Mem n s.nodes × (n.group_name ≢ name)))
unfolding delete_group delete_group_rows
delete_group-cascade name s v = elim (Option-cases (group_named name s)) [
  | inl absent ↦
      rw (absent, delete_group)
        (
          absent,
          (λ other h. refl),
          (λ n. (
            (λ m. (
              m,
              (λ e. not-mem_of_find-none group_key name s.groups absent (rw e at (v.grouped n m))),
            )),
            (λ t. t.0),
          )),
        )
  | inr (group, found) ↦
      rw (found, delete_group)
        (
          find-remove group_key name name s.groups ∙ ground (arith, eq_refl name),
          (λ other h.
              find-remove group_key name other s.groups ∙ ground (arith, eq_iff name other, h)),
          (λ n.
              let kept = mem-filter (λ (a : NodeRow). dec_true (not (a.group_name == name))) in
              (
                (λ m.
                    let (t, o) = kept.0 m in (t, (λ e. ground (arith, eq_iff n.group_name name)))),
                (λ (t, o). kept.1 (t, ground (arith, eq_iff n.group_name name))),
              )),
        )
]

get_group_found :
    (read : ℕ) (name : String) (group : GroupRow) (s : Store)
    → group_named name s ≡ some group
    → get_group read name s
      ≡ (ok (group_info group (expire_offline read s).nodes), expire_offline read s)
unfolding get_group
get_group_found read name group s e =
    let e' : group_named name (expire_offline read s) ≡ some group = (unfold expire_offline in e) in
    rw (e', require_group)

-- A policy update writes the fields that it gives, keeps the others, and touches no other group.
pub group_named-update_group :
    (first read : ℕ) (name : String) (patch : GroupPolicyUpdate) (group : GroupRow) (s : Store)
    (j : String)
    → group_named name s ≡ some group
    → group_named j (update_group first read name patch s).1 ≡ (
        if name == j
        then some (record group {
          description = patched patch.description group.description;
          join_mode = patched patch.join_mode group.join_mode;
          allow_register = patched patch.allow_register group.allow_register;
          allow_parent = patched patch.allow_parent group.allow_parent;
        })
        else group_named j s)
unfolding update_group
group_named-update_group first read name patch group s j e =
    let s' = expire_offline first s in
    let info = group_info group s'.nodes in
    rw (get_group_found first name group s e, groups-get_group)
      (unfold set_group expire_offline group_info in
        find-update group_key name j (patch_row info patch) s.groups (λ g. refl)
        ∙ ground (arith, eq_iff name j, e))
