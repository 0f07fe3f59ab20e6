-- ===== src/Manager/Postgres/Listing.antt =====
-- The listing of all groups, which `list_groups` of both stores reads one group after the other.
use myco_agent.Common.{
  ℕ, ◌-◌, String, ◌≡◌, refl, ap, ◌∙◌, Bool, true, Option, none, some, List, [], ◌∷◌, map, all, keep,
  sort_by, arith, is_some, inl, inr, Option-cases, eq_refl, sort_by-map, keep-map, run_all,
}
use myco_agent.Exec.{Result, ok, resume, pure, gets, modify, ◌>>=◌, ◌>>◌}
use myco_agent.Models.{MembershipStatus, JoinMode, GroupInfo}
use myco_agent.Table.{find}
use myco_agent.Manager.Tables.{
  Store, NodeRow, GroupRow, in_group, node_key, group_key, group_named, expire_row, expire_offline,
}
use myco_agent.Manager.Store.{StoreM, StoreError, require_group}

pub expire_offline-commute :
    (a b : ℕ) (s : Store)
    → expire_offline a (expire_offline b s) ≡ expire_offline b (expire_offline a s)
unfolding expire_offline
expire_offline-commute a b s =
    ap (λ (rows : List NodeRow). record s { nodes = rows }) (both s.nodes)
  where
    one :
        (row : NodeRow)
        → expire_row (a - s.heartbeat_timeout) (expire_row (b - s.heartbeat_timeout) row)
          ≡ expire_row (b - s.heartbeat_timeout) (expire_row (a - s.heartbeat_timeout) row)
    one row = unfold expire_row in ground arith

    both :
        (rows : List NodeRow)
        → map
            (expire_row (a - s.heartbeat_timeout))
            (map (expire_row (b - s.heartbeat_timeout)) rows)
          ≡ map
              (expire_row (b - s.heartbeat_timeout))
              (map (expire_row (a - s.heartbeat_timeout)) rows)
    both [] = refl
    both (row ∷ rows) = rw (one row, both rows) refl

abbrev found : Store → String → Bool
found s name = is_some (group_named name s)

wider :
    (row : GroupRow) (rows : List GroupRow) (names : List String)
    → all (λ name. is_some (find group_key name rows)) names ≡ true
    → all (λ name. is_some (find group_key name (row ∷ rows))) names ≡ true
unfolding find
wider row rows [] h = refl
wider row rows (name ∷ names) h = ground (arith, h, wider row rows names (ground (arith, h)))

-- Every name of a table is found there.
pub keys-found :
    (rows : List GroupRow)
    → all (λ name. is_some (find group_key name rows)) (map group_key rows) ≡ true
keys-found [] = refl
keys-found (row ∷ rows) =
    rw (find_first row rows) (wider row rows (map group_key rows) (keys-found rows))
  where
    find_first :
        (row : GroupRow) (rows : List GroupRow)
        → is_some (find group_key (group_key row) (row ∷ rows)) ≡ true
    find_first row rows = unfold find in rw (eq_refl (group_key row)) refl

found-expire_offline :
    (at : ℕ) (s : Store) (names : List String)
    → all (found s) names ≡ true
    → all (found (expire_offline at s)) names ≡ true
unfolding expire_offline
found-expire_offline at s names h = h

-- A group's information, its ids in the order `le` of rows: `group_info` of either store.
module _ (le : NodeRow → NodeRow → Bool) where
  abbrev pub ids_by : String → MembershipStatus → List NodeRow → List String
  ids_by name status nodes = map node_key (sort_by le (keep (in_group name status) nodes))

  abbrev pub info_by : GroupRow → List NodeRow → GroupInfo
  info_by row nodes = record {
    name = row.name;
    created_at = row.created_at;
    description = row.description;
    join_mode = row.join_mode;
    allow_register = row.allow_register;
    allow_parent = row.allow_parent;
    member_ids = ids_by row.name MembershipStatus.approved nodes;
    pending_ids = ids_by row.name MembershipStatus.pending nodes;
  }

  abbrev pub fetch : (read : ℕ) → String → StoreM GroupInfo
  fetch read name = do
    modify (expire_offline read)
    row ← require_group name
    gets (λ s. info_by row s.nodes)

  unfoldable pub each : (String → ℕ) → List String → StoreM (List GroupInfo)
  each read [] = pure []
  each read (name ∷ names) = do
    info ← fetch (read name) name
    rest ← each read names
    pure (info ∷ rest)

  abbrev no_row : GroupRow
  no_row = record {
    name = "";
    created_at = 0;
    description = "";
    join_mode = JoinMode.auto;
    allow_register = [];
    allow_parent = [];
  }

  abbrev row_of : Option GroupRow → GroupRow
  row_of none = no_row
  row_of (some row) = row

  -- What is fetched of a name that is there
  abbrev pub info_in : Store → String → GroupInfo
  info_in s name = info_by (row_of (group_named name s)) s.nodes

  module _ (kept : (c : ℕ) (a b : NodeRow) → le (expire_row c a) (expire_row c b) ≡ le a b) where
    ids_by-expire_row :
        (c : ℕ) (name : String) (status : MembershipStatus) (nodes : List NodeRow)
        → ids_by name status (map (expire_row c) nodes) ≡ ids_by name status nodes
    ids_by-expire_row c name status nodes =
        ap (λ rows. map node_key (sort_by le rows))
          (keep-map (in_group name status) (expire_row c) (same_group c) nodes)
        ∙ ap (map node_key)
            (sort_by-map le (expire_row c) (kept c) (keep (in_group name status) nodes))
        ∙ same_keys (sort_by le (keep (in_group name status) nodes))
      where
        same_group :
            (c : ℕ) (row : NodeRow)
            → in_group name status (expire_row c row) ≡ in_group name status row
        same_group c row = unfold expire_row in ground arith

        same_keys :
            (rows : List NodeRow) → map node_key (map (expire_row c) rows) ≡ map node_key rows
        same_keys [] = refl
        same_keys (row ∷ rows) = rw (same_key row, same_keys rows) refl
          where
            same_key : (row : NodeRow) → (expire_row c row).id ≡ row.id
            same_key row = unfold expire_row in ground arith

    info_in-expire_offline :
        (at : ℕ) (s : Store) (name : String) → info_in (expire_offline at s) name ≡ info_in s name
    unfolding expire_offline
    info_in-expire_offline at s name =
        rw
          (
            ids_by-expire_row (at - s.heartbeat_timeout) (row_of (group_named name s)).name
                MembershipStatus.approved s.nodes,
            ids_by-expire_row (at - s.heartbeat_timeout) (row_of (group_named name s)).name
                MembershipStatus.pending s.nodes,
          )
          refl

    unexpired :
        (at : ℕ) (s : Store) (names : List String)
        → map (info_in (expire_offline at s)) names ≡ map (info_in s) names
    unexpired at s [] = refl
    unexpired at s (name ∷ names) = rw (info_in-expire_offline at s name, unexpired at s names) refl

    fetch-found :
        (read : ℕ) (name : String) (s : Store)
        → found s name ≡ true
        → fetch read name s ≡ (ok (info_in (expire_offline read s) name), expire_offline read s)
    unfolding require_group expire_offline
    fetch-found read name s h = elim (Option-cases (group_named name s)) [
      | inl absent ↦ absurd (ground (arith, h, absent))
      | inr (row, there) ↦ rw there refl
    ]

    pub each_lem :
        (read : String → ℕ) (names : List String) (s : Store)
        → all (found s) names ≡ true
        → each read names s
          ≡ (ok (map (info_in s) names), run_all (λ name. expire_offline (read name)) names s)
    unfolding each
    each_lem read [] s h = refl
    each_lem read (name ∷ names) s h =
        let s' = expire_offline (read name) s in
        let info = info_in s' name in
        ap
          (λ (x : Result StoreError GroupInfo × Store).
            resume x.0 (λ a. each read names >>= (λ rest. pure (a ∷ rest))) x.1)
          (fetch-found (read name) name s (ground (arith, h)))
        ∙ ap
            (λ (x : Result StoreError (List GroupInfo) × Store).
              resume x.0 (λ rest. pure (info ∷ rest)) x.1)
            (each_lem read names s' (found-expire_offline (read name) s names (ground (arith, h))))
        ∙ ap (λ infos. (ok infos, run_all (λ x. expire_offline (read x)) names s'))
            (unexpired (read name) s (name ∷ names))
