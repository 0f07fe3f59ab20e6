-- ===== src/Manager/Postgres/Refines.antt =====
-- The Postgres store of src/mycoagent/manager/postgres_store.py does what the SQLite store does, up to the
-- order that the collation gives the lists.
use mathlib.Core.List.Perm
use mathlib.Core.Path.{fun_ext}
use myco_agent.Common.{
  arith, leb, ◌-◌, sym, ℕ, String, ◌≡◌, refl, ap, subst, Bool, List, map, keep, Perm, dec_true,
}
use myco_agent.Exec.{pure, gets, modify, ◌>>=◌, ◌>>◌}
use myco_agent.Exec.Agrees.{Agrees, Agrees-refl, Agrees-bind}
use myco_agent.Models.{
  MembershipStatus, GroupInfo, NodeRecord, GroupPolicyUpdate, JoinMode, CatalogQuery,
}
use myco_agent.Manager.Tables.{
  expire_row, Store, NodeRow, GroupRow, in_group, node_key, mapping_to_node, expire_offline,
}
use myco_agent.Manager.Tables as Tables
use myco_agent.Manager.Catalog.{catalog_matches, filter_catalog_nodes}
use myco_agent.Manager.Store as Sqlite
use myco_agent.Manager.Store.{StoreM, StoreError, require_group, set_group, patch_row}
use myco_agent.Manager.Postgres as Postgres
use myco_agent.Manager.Postgres.Same.{SameGroup, SameListing, resorted}
use myco_agent.Manager.Postgres.Listed.{list_groups-Agrees}
use myco_agent.Manager.Store.Calls.{
  Call, create_group_call, update_group_call, delete_group_call, get_group_call, list_groups_call,
  register_node_call, set_membership_call, heartbeat_call, get_node_call, query_catalog_call,
}

-- What a call returns.
pub data Reply : Type 0 where
  group : GroupInfo → Reply
  node : NodeRecord → Reply
  nodes : List NodeRecord → Reply
  groups : List GroupInfo → Reply
  done : Reply

abbrev pub SameReply : Reply → Reply → Type 0
SameReply (group a) (group b) = SameGroup a b
SameReply (node a) (node b) = a ≡ b
SameReply (nodes a) (nodes b) = Perm a b
SameReply done done = Unit
SameReply (groups a) (groups b) = SameListing a b
SameReply _ _ = ⊥

abbrev returns : {A : Type 0} → (A → Reply) → StoreM A → StoreM Reply
returns f m = m >>= λ a. pure (f a)

-- `ManagerStore`
unfoldable pub perform : Call → StoreM Reply
perform (create_group_call now read name d m r p) =
    returns group (Sqlite.create_group now read name d m r p)
perform (update_group_call first read name patch) =
    returns group (Sqlite.update_group first read name patch)
perform (delete_group_call name) = returns (λ u. done) (Sqlite.delete_group name)
perform (get_group_call read name) = returns group (Sqlite.get_group read name)
perform (list_groups_call now read) = returns groups (Sqlite.list_groups now read)
perform (register_node_call first now read uuid req) =
    returns node (Sqlite.register_node first now read uuid req)
perform (set_membership_call first read g n status) =
    returns node (Sqlite.set_membership first read g n status)
perform (heartbeat_call first now read n req) = returns node (Sqlite.heartbeat first now read n req)
perform (get_node_call read n) = returns node (Sqlite.get_node read n)
perform (query_catalog_call now query) = returns nodes (Sqlite.query_catalog now query)

module _ (collate : String → String → Bool) where
  module _ (iso : ℕ → String) where
    -- `PostgresManagerStore` of a database with this collation, where `expire` is `_expire_offline`
    unfoldable pub perform_with : (expire : (now : ℕ) → Store → Store) → Call → StoreM Reply
    perform_with expire (create_group_call now read name d m r p) =
        returns group (Postgres.create_group expire collate now read name d m r p)
    perform_with expire (update_group_call first read name patch) =
        returns group (Postgres.update_group expire collate first read name patch)
    perform_with expire (delete_group_call name) = returns (λ u. done) (Postgres.delete_group name)
    perform_with expire (get_group_call read name) =
        returns group (Postgres.get_group expire collate read name)
    perform_with expire (list_groups_call now read) =
        returns groups (Postgres.list_groups expire collate now read)
    perform_with expire (register_node_call first now read uuid req) =
        returns node (Postgres.register_node expire first now read uuid req)
    perform_with expire (set_membership_call first read g n status) =
        returns node (Postgres.set_membership expire first read g n status)
    perform_with expire (heartbeat_call first now read n req) =
        returns node (Postgres.heartbeat expire first now read n req)
    perform_with expire (get_node_call read n) = returns node (Postgres.get_node expire read n)
    perform_with expire (query_catalog_call now query) =
        returns nodes (Postgres.query_catalog expire collate iso now query)

    unfoldable pub perform_pg : Call → StoreM Reply
    unfolding perform_with
    perform_pg c = perform_with (Postgres.expire_offline_pg collate iso) c

  ids-Perm :
      (name : String) (status : MembershipStatus) (rows : List NodeRow)
      → Perm (Postgres.ids_in_group collate name status rows) (Tables.ids_in_group name status rows)
  unfolding Tables.ids_in_group
  ids-Perm name status rows = Perm.map node_key (resorted _ _ (keep (in_group name status) rows))

  group_info-Same :
      (row : GroupRow) (rows : List NodeRow)
      → SameGroup (Postgres.group_info collate row rows) (Tables.group_info row rows)
  unfolding Postgres.group_info Tables.group_info
  group_info-Same row rows = record {
    policy = refl;
    members = ids-Perm row.name MembershipStatus.approved rows;
    pending = ids-Perm row.name MembershipStatus.pending rows;
  }

  gets-Agrees :
      {A B : Type 0} (R : A → B → Type 0) (f : Store → A) (g : Store → B)
      → ((s : Store) → R (f s) (g s))
      → Agrees {E = StoreError} R (gets f) (gets g)
  gets-Agrees R f g h = record { at = λ s. (h s, refl) }

  -- Behind a first part that is the same, only the rest matters.
  after :
      {A B C : Type 0} (Q : B → C → Type 0) (m : StoreM A) (f : A → StoreM B) (g : A → StoreM C)
      → ((a : A) → Agrees Q (f a) (g a))
      → Agrees Q (m >>= f) (m >>= g)
  after Q m f g h =
      Agrees-bind ◌≡◌ Q m m f g (Agrees-refl ◌≡◌ (λ a. refl) m)
        (λ a b e. subst (λ x. Agrees Q (f a) (g x)) e (h a))

  get_group-Agrees :
      (read : ℕ) (name : String)
      → Agrees SameGroup
          (Postgres.get_group expire_offline collate read name)
          (Sqlite.get_group read name)
  unfolding Postgres.get_group Sqlite.get_group
  get_group-Agrees read name = after SameGroup (modify (expire_offline read)) _ _ (λ u.
      after SameGroup (require_group name) _ _
        (λ row. gets-Agrees SameGroup _ _ (λ s. group_info-Same row s.nodes)))

  create_group-Agrees :
      (now read : ℕ) (name description : String) (mode : JoinMode) (register parent : List String)
      → Agrees SameGroup
          (Postgres.create_group expire_offline collate now read name description mode register
            parent)
          (Sqlite.create_group now read name description mode register parent)
  unfolding Postgres.create_group Sqlite.create_group Postgres.insert_group Sqlite.insert_group
  create_group-Agrees now read name description mode register parent =
      after SameGroup _ _ _ (λ u. get_group-Agrees read name)

  patch_row_same :
      (a b : GroupInfo) (patch : GroupPolicyUpdate)
      → SameGroup a b
      → patch_row a patch ≡ patch_row b patch
  patch_row_same a b patch same = ap (λ g. patch_row g patch) same.policy

  update_group-Agrees :
      (first read : ℕ) (name : String) (patch : GroupPolicyUpdate)
      → Agrees SameGroup
          (Postgres.update_group expire_offline collate first read name patch)
          (Sqlite.update_group first read name patch)
  unfolding Postgres.update_group Sqlite.update_group
  update_group-Agrees first read name patch =
      Agrees-bind SameGroup SameGroup _ _ _ _ (get_group-Agrees first name) λ a b same.
        subst
          (λ row.
            Agrees SameGroup
              (modify (set_group name (patch_row a patch))
                >> Postgres.get_group expire_offline collate read name)
              (modify (set_group name row) >> Sqlite.get_group read name))
          (patch_row_same a b patch same)
          (after SameGroup (modify (set_group name (patch_row a patch))) _ _
            (λ u. get_group-Agrees read name))

  query_catalog-Agrees :
      (iso : ℕ → String) (now : ℕ) (query : CatalogQuery)
      → Agrees Perm
          (Postgres.query_catalog expire_offline collate iso now query)
          (Sqlite.query_catalog now query)
  unfolding Postgres.query_catalog Sqlite.query_catalog filter_catalog_nodes
  query_catalog-Agrees iso now query = after Perm (modify (expire_offline now)) _ _ λ u.
      after Perm (require_group query.group) _ _ λ row.
        Agrees-bind Perm Perm _ _
          (λ rows. pure (filter_catalog_nodes (map mapping_to_node rows) query))
          (λ rows. pure (filter_catalog_nodes (map mapping_to_node rows) query))
          (gets-Agrees Perm _ _ (λ s.
            resorted (Postgres.by_last_seen collate iso) Sqlite.by_last_seen
              (keep (in_group query.group MembershipStatus.approved) s.nodes)))
          λ a b same. record {
            at = λ s. (
              Perm.filter (λ node. dec_true (catalog_matches node query))
                  (Perm.map mapping_to_node same),
              refl,
            );
          }

  returned :
      {A B : Type 0} (R : A → B → Type 0) (m : StoreM A) (n : StoreM B) (f : A → Reply)
      (g : B → Reply)
      → Agrees R m n
      → ((a : A) (b : B) → R a b → SameReply (f a) (g b))
      → Agrees SameReply (returns f m) (returns g n)
  returned R m n f g mn fg =
      Agrees-bind R SameReply m n _ _ mn (λ a b same. record { at = λ s. (fg a b same, refl) })

  -- The same method on both sides
  same_method :
      {A : Type 0} (m : StoreM A) (f : A → Reply)
      → ((a : A) → SameReply (f a) (f a))
      → Agrees SameReply (returns f m) (returns f m)
  same_method m f h = after SameReply m _ _ (λ a. record { at = λ s. (h a, refl) })

  expire_row_pg-same :
      (iso : ℕ → String)
      → ((a b : ℕ) → collate (iso a) (iso b) ≡ leb a b)
      → (cutoff : ℕ) (row : NodeRow)
      → Postgres.expire_row_pg collate iso cutoff row ≡ expire_row cutoff row
  unfolding Postgres.expire_row_pg expire_row
  expire_row_pg-same iso dated cutoff row = rw (dated cutoff row.last_seen) (ground arith)

  expire_offline_pg-same :
      (iso : ℕ → String)
      → ((a b : ℕ) → collate (iso a) (iso b) ≡ leb a b)
      → Postgres.expire_offline_pg collate iso ≡ expire_offline
  unfolding Postgres.expire_offline_pg expire_offline
  expire_offline_pg-same iso dated = fun_ext λ now. fun_ext λ s.
      ap (λ (f : NodeRow → NodeRow). record s { nodes = map f s.nodes })
        (fun_ext (expire_row_pg-same iso dated (now - s.heartbeat_timeout)))

  perform_with-Agrees :
      (iso : ℕ → String) (c : Call)
      → Agrees SameReply (perform_with iso expire_offline c) (perform c)
  unfolding perform_with perform Postgres.delete_group Sqlite.delete_group Postgres.get_node
      Sqlite.get_node Postgres.register_node Sqlite.register_node Postgres.set_membership
      Sqlite.set_membership Postgres.heartbeat Sqlite.heartbeat
  perform_with-Agrees iso (create_group_call now read name d m r p) =
      returned SameGroup _ _ group group (create_group-Agrees now read name d m r p) (λ a b h. h)
  perform_with-Agrees iso (update_group_call first read name patch) =
      returned SameGroup _ _ group group (update_group-Agrees first read name patch) (λ a b h. h)
  perform_with-Agrees iso (delete_group_call name) = same_method _ (λ u. done) (λ u. tt)
  perform_with-Agrees iso (get_group_call read name) =
      returned SameGroup _ _ group group (get_group-Agrees read name) (λ a b h. h)
  perform_with-Agrees iso (list_groups_call now read) =
      returned SameListing _ _ groups groups (list_groups-Agrees collate now read) (λ a b h. h)
  perform_with-Agrees iso (register_node_call first now read uuid req) =
      same_method _ node (λ a. refl)
  perform_with-Agrees iso (set_membership_call first read g n status) =
      same_method _ node (λ a. refl)
  perform_with-Agrees iso (heartbeat_call first now read n req) = same_method _ node (λ a. refl)
  perform_with-Agrees iso (get_node_call read n) = same_method _ node (λ a. refl)
  perform_with-Agrees iso (query_catalog_call now query) =
      returned Perm _ _ nodes nodes (query_catalog-Agrees iso now query) (λ a b h. h)

  -- With a collation that orders the texts of the time stamps as the instants, and other texts in any
  -- way, a call on the Postgres store raises what the SQLite store raises or returns the same, up to
  -- the order of groups, of ids and of catalog entries, and it leaves the same tables.
  pub perform-Agrees :
      (iso : ℕ → String)
      → ((a b : ℕ) → collate (iso a) (iso b) ≡ leb a b)
      → (c : Call) → Agrees SameReply (perform_pg iso c) (perform c)
  unfolding perform_pg
  perform-Agrees iso dated c =
      subst (λ expire. Agrees SameReply (perform_with iso expire c) (perform c))
        (sym (expire_offline_pg-same iso dated)) (perform_with-Agrees iso c)
