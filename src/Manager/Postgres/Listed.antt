-- ===== src/Manager/Postgres/Listed.antt =====
-- Both stores list the same groups and leave the same tables.
use mathlib.Core.List.Perm
use myco_agent.Common.{
  ℕ, String, ◌≡◌, refl, sym, ap, ◌∙◌, Bool, true, List, [], ◌∷◌, map, keep, all, is_some, sort_by,
  arith, text_leb, all-sort_by, run_all-sort_by,
}
use myco_agent.Exec.{pure, ◌>>=◌}
use myco_agent.Exec.Agrees.{Outcomes, Agrees}
use myco_agent.Models.{MembershipStatus, GroupInfo}
use myco_agent.Manager.Tables.{
  Store, NodeRow, GroupRow, in_group, node_key, group_key, group_named, expire_row, expire_offline,
}
use myco_agent.Manager.Tables as Tables
use myco_agent.Manager.Store as Sqlite
use myco_agent.Manager.Store.{StoreM}
use myco_agent.Manager.Postgres as Postgres
use myco_agent.Manager.Postgres.Same.{SameGroup, AllSame, SameListing, resorted}
use myco_agent.Manager.Postgres.Listing.{
  each, fetch, info_in, each_lem, keys-found, expire_offline-commute,
}

module _ (collate : String → String → Bool) where
  name_kept : (c : ℕ) (row : NodeRow) → (expire_row c row).name ≡ row.name
  unfolding expire_row
  name_kept c row = ground arith

  sqlite_kept :
      (c : ℕ) (a b : NodeRow)
      → Tables.by_name (expire_row c a) (expire_row c b) ≡ Tables.by_name a b
  sqlite_kept c a b = rw (name_kept c a, name_kept c b) refl

  postgres_kept :
      (c : ℕ) (a b : NodeRow)
      → Postgres.by_name collate (expire_row c a) (expire_row c b) ≡ Postgres.by_name collate a b
  postgres_kept c a b = rw (name_kept c a, name_kept c b) refl

  sqlite_each :
      (read : String → ℕ) (names : List String)
      → Sqlite.get_each read names ≡ each Tables.by_name read names
  unfolding Sqlite.get_each Sqlite.get_group Tables.group_info Tables.ids_in_group each
  sqlite_each read [] = refl
  sqlite_each read (name ∷ names) =
      ap
        (λ (m : StoreM (List GroupInfo)).
          fetch Tables.by_name (read name) name >>= (λ info. m >>= (λ rest. pure (info ∷ rest))))
        (sqlite_each read names)

  postgres_each :
      (read : String → ℕ) (names : List String)
      → Postgres.get_each expire_offline collate read names
        ≡ each (Postgres.by_name collate) read names
  unfolding Postgres.get_each Postgres.get_group Postgres.group_info each
  postgres_each read [] = refl
  postgres_each read (name ∷ names) =
      ap
        (λ (m : StoreM (List GroupInfo)).
          fetch (Postgres.by_name collate) (read name) name
          >>= (λ info. m >>= (λ rest. pure (info ∷ rest))))
        (postgres_each read names)

  info_in-Same :
      (s : Store) (name : String)
      → SameGroup (info_in (Postgres.by_name collate) s name) (info_in Tables.by_name s name)
  info_in-Same s name = record {
    policy = refl;
    members = Perm.map node_key (
        resorted (Postgres.by_name collate) Tables.by_name
          (keep (in_group _ MembershipStatus.approved) s.nodes));
    pending = Perm.map node_key (
        resorted (Postgres.by_name collate) Tables.by_name
          (keep (in_group _ MembershipStatus.pending) s.nodes));
  }

  all_same :
      (s : Store) (names : List String)
      → AllSame
          (map (info_in (Postgres.by_name collate) s) names)
          (map (info_in Tables.by_name s) names)
  all_same s [] = tt
  all_same s (name ∷ names) = (info_in-Same s name, all_same s names)

  -- Both stores fetch the same names, each in its order.
  each-Agrees :
      (read : String → ℕ) (s : Store)
      → let names = map group_key s.groups in
        let m = Postgres.get_each expire_offline collate read (sort_by collate names) in
        let n = Sqlite.get_each read (sort_by text_leb names) in
        Outcomes SameListing (m s).0 (n s).0 × ((m s).1 ≡ (n s).1)
  each-Agrees read s =
      let names = map group_key s.groups in
      let step : String → Store → Store = λ name. expire_offline (read name) in
      let all_found : (le : String → String → Bool)
          → all (λ name. is_some (group_named name s)) (sort_by le names) ≡ true =
        λ le. all-sort_by le (λ name. is_some (group_named name s)) names ∙ keys-found s.groups in
      rw
        (
          postgres_each read (sort_by collate names),
          sqlite_each read (sort_by text_leb names),
          each_lem (Postgres.by_name collate) postgres_kept read (sort_by collate names) s
              (all_found collate),
          each_lem Tables.by_name sqlite_kept read (sort_by text_leb names) s (all_found text_leb),
        )
        (
          (
            map (info_in (Postgres.by_name collate) s) (sort_by text_leb names),
            Perm.map (info_in (Postgres.by_name collate) s) (resorted collate text_leb names),
            all_same s (sort_by text_leb names),
          ),
          run_all-sort_by step (λ a b. expire_offline-commute (read a) (read b)) collate names s
              ∙ sym (
                  run_all-sort_by step (λ a b. expire_offline-commute (read a) (read b)) text_leb
                    names s),
        )

  pub list_groups-Agrees :
      (now : ℕ) (read : String → ℕ)
      → Agrees SameListing
          (Postgres.list_groups expire_offline collate now read)
          (Sqlite.list_groups now read)
  unfolding Postgres.list_groups Sqlite.list_groups
  list_groups-Agrees now read = record { at = λ s. each-Agrees read (expire_offline now s) }
