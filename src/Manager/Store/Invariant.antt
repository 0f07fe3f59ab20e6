-- ===== src/Manager/Store/Invariant.antt =====
-- The constraints of the schema hold after any calls: the primary keys are unique, and every
-- node's group is there.
use mathlib.Core.List.{
  Nodup-nil, not-mem-nil, mem-append_left, eq-or-mem_of_mem-cons, map-append, mem-filter, Mem-prop,
}
use mathlib.Core.Logic.Or
use myco_agent.Common.{
  ℕ, ◌-◌, String, ◌≡◌, sym, subst, inl, inr, none, [], ◌∷◌, ◌++◌, Mem, Nodup, arith, ◌==◌, not,
  Option-cases, dec_true,
}
use myco_agent.Table.{keys}
use myco_agent.Table.Laws.{keys-update}
use myco_agent.Table.Rows.{
  Nodup-snoc, Nodup-remove, Nodup-keep, All-map, All-update, All-append, mem-keys-remove,
}
use myco_agent.Manager.Tables.{
  Store, NodeRow, GroupRow, new_store, node_key, group_key, group_named, node_with_id,
  expire_offline, set_node, delete_group_rows,
}
use myco_agent.Manager.Store.{insert_group, set_group}
use myco_agent.Manager.Store.Laws.{ids-expire_offline, expire_row_group}

pub record Inv (s : Store) : Type 0 where
  pub names_distinct : Nodup (keys group_key s.groups)
  pub ids_distinct : Nodup (keys node_key s.nodes)
  pub grouped : (n : NodeRow) → Mem n s.nodes → Mem n.group_name (keys group_key s.groups)

pub Inv-new_store : (timeout : ℕ) → Inv (new_store timeout)
Inv-new_store timeout = record {
  names_distinct = Nodup-nil;
  ids_distinct = Nodup-nil;
  grouped = λ n m. absurd (not-mem-nil m);
}

module _ (s : Store) (v : Inv s) where
  pub expire_offline-Inv : (now : ℕ) → Inv (expire_offline now s)
  unfolding expire_offline
  expire_offline-Inv now = record {
    names_distinct = v.names_distinct;
    ids_distinct = rw (ids-expire_offline now s) v.ids_distinct;
    grouped =
        All-map (λ n. Mem n.group_name (keys group_key s.groups)) _ s.nodes (λ n. Mem-prop)
          (λ n h. rw (expire_row_group (now - s.heartbeat_timeout) n) h) v.grouped;
  }

  pub set_node-Inv :
      (k : String) (f : NodeRow → NodeRow)
      → ((n : NodeRow) → (f n).id ≡ n.id)
      → ((n : NodeRow)
          → Mem n.group_name (keys group_key s.groups)
          → Mem (f n).group_name (keys group_key s.groups))
      → Inv (set_node k f s)
  unfolding set_node
  set_node-Inv k f same stays = record {
    names_distinct = v.names_distinct;
    ids_distinct = rw (keys-update node_key k f s.nodes same) v.ids_distinct;
    grouped =
        All-update node_key (λ n. Mem n.group_name (keys group_key s.groups)) k f s.nodes
          (λ n. Mem-prop) stays v.grouped;
  }

  pub set_group-Inv :
      (k : String) (f : GroupRow → GroupRow)
      → ((g : GroupRow) → (f g).name ≡ g.name)
      → Inv (set_group k f s)
  unfolding set_group
  set_group-Inv k f same =
      let e = keys-update group_key k f s.groups same in
      record {
        names_distinct = rw e v.names_distinct;
        ids_distinct = v.ids_distinct;
        grouped = λ n m. rw e (v.grouped n m);
      }

  pub insert_group-Inv : (row : GroupRow) → Inv (insert_group row s).1
  unfolding insert_group
  insert_group-Inv row = elim (Option-cases (group_named row.name s)) [
    | inl e ↦
        rw (e, insert_group)
          (record {
            names_distinct = Nodup-snoc group_key s.groups row e v.names_distinct;
            ids_distinct = v.ids_distinct;
            grouped = λ n m. rw map-append (mem-append_left (row.name ∷ []) (v.grouped n m));
          })
    | inr (g, e) ↦ rw (e, insert_group) v
  ]

  pub delete_group_rows-Inv : (name : String) → Inv (delete_group_rows name s)
  unfolding delete_group_rows
  delete_group_rows-Inv name = record {
    names_distinct = Nodup-remove group_key name s.groups v.names_distinct;
    ids_distinct = Nodup-keep node_key _ s.nodes v.ids_distinct;
    grouped = λ n m.
        let (kept, other) =
          (mem-filter (λ (a : NodeRow). dec_true (not (a.group_name == name)))).0 m in
        mem-keys-remove group_key name n.group_name s.groups (ground arith) (v.grouped n kept);
  }

  -- A row whose group is there and whose id is new may be added.
  pub append_node-Inv :
      (row : NodeRow)
      → node_with_id row.id s ≡ none
      → Mem row.group_name (keys group_key s.groups)
      → Inv (record s { nodes = s.nodes ++ row ∷ [] })
  append_node-Inv row fresh there = record {
    names_distinct = v.names_distinct;
    ids_distinct = Nodup-snoc node_key s.nodes row fresh v.ids_distinct;
    grouped =
        All-append (λ n. Mem n.group_name (keys group_key s.groups)) s.nodes (row ∷ [])
          (λ n. Mem-prop) v.grouped
          (λ n m.
            Or.elim Mem-prop (eq-or-mem_of_mem-cons m)
              (λ e.
                subst (λ (a : NodeRow). Mem a.group_name (keys group_key s.groups)) (sym e) there)
              (λ t. absurd (not-mem-nil t)));
  }
