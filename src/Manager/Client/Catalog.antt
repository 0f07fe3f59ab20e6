-- ===== src/Manager/Client/Catalog.antt =====
-- A node that asks for the catalog gets what the store lists for its query.
use mathlib.Core.Path.{fun_ext}
use myco_agent.Exec.{gets, modify, pure, ◌>>=◌, ◌>>◌}
use myco_agent.Common.{
  map, sort_by, ℕ, String, ◌≡◌, refl, ap, ◌∙◌, Bool, true, false, Option, none, some, List, given,
  or_empty, keep, if◌then◌else◌, inl, inr, Bool-cases, ◌==◌, ◌&&◌,
}
use myco_agent.Models.{MembershipStatus, CatalogQuery, ModelSpec, NodeRecord}
use myco_agent.Manager.Tables.{mapping_to_node, in_group, expire_offline}
use myco_agent.Manager.Catalog.{catalog_matches, named_models, filter_catalog_nodes}
use myco_agent.Manager.Store.{by_last_seen, require_group, StoreM, query_catalog}
use myco_agent.Manager.Api.{no_group, handled, catalog_handler}
use myco_agent.Manager.Client.{value_of, catalog_params, flag, query_of, asked, send, catalog}
use myco_agent.Manager.Client.Params.{
  clean, model_read, exclude_read, skills_read, tools_read, window_read, memory_read,
}

-- The query as the store gets it
abbrev pub sent : CatalogQuery → CatalogQuery
sent q = record q { exclude_node_id = clean q.exclude_node_id; model = clean q.model }

clean_same : (o : Option String) → given o ≡ true → clean o ≡ o
clean_same o g = rw g refl

clean-none : (o : Option String) → given o ≡ false → clean o ≡ none
clean-none o g = rw g refl

excludes-clean :
    (o : Option String) (id : String)
    → given (clean o) && id == or_empty (clean o) ≡ given o && id == or_empty o
excludes-clean o id = elim (Bool-cases (given o)) [
  | inl g ↦ ap (λ x. given x && id == or_empty x) (clean_same o g)
  | inr g ↦ ap (λ x. given x && id == or_empty x) (clean-none o g) ∙ rw g refl
]

named_models-clean :
    (o : Option String) (models : List ModelSpec)
    → named_models (clean o) models ≡ named_models o models
unfolding named_models
named_models-clean o models = elim (Bool-cases (given o)) [
  | inl g ↦ ap (λ x. named_models x models) (clean_same o g)
  | inr g ↦ ap (λ x. named_models x models) (clean-none o g) ∙ rw g refl
]

catalog_matches-sent :
    (q : CatalogQuery) (node : NodeRecord) → catalog_matches node (sent q) ≡ catalog_matches node q
unfolding catalog_matches
catalog_matches-sent q node =
    rw (excludes-clean q.exclude_node_id node.id, named_models-clean q.model node.models) refl

filter_catalog_nodes-sent :
    (q : CatalogQuery) (nodes : List NodeRecord)
    → filter_catalog_nodes nodes (sent q) ≡ filter_catalog_nodes nodes q
unfolding filter_catalog_nodes
filter_catalog_nodes-sent q nodes =
    ap {B = List NodeRecord} (λ (matches : NodeRecord → Bool). keep matches nodes)
      (fun_ext (catalog_matches-sent q))

query_catalog-sent : (now : ℕ) (q : CatalogQuery) → query_catalog now (sent q) ≡ query_catalog now q
unfolding query_catalog
query_catalog-sent now q =
    ap {B = StoreM (List NodeRecord)} listing (fun_ext (filter_catalog_nodes-sent q))
  where
    listing : (List NodeRecord → List NodeRecord) → StoreM (List NodeRecord)
    listing filtered = do
      modify (expire_offline now)
      require_group q.group
      rows ←
          gets
            (λ s. sort_by by_last_seen (keep (in_group q.group MembershipStatus.approved) s.nodes))
      pure (filtered (map mapping_to_node rows))

pub handler-sent :
    (now : ℕ) (q : CatalogQuery)
    → send (catalog_handler now (sent q)) ≡ send (catalog_handler now q)
unfolding catalog_handler
handler-sent now q = ap (λ m. send (handled (no_group q.group) m)) (query_catalog-sent now q)

module _ (decimal : ℕ → String) (read_bool : String → Option Bool)
    (read_int : String → Option ℕ) where
  module _ (true_read : read_bool "true" ≡ some true) (false_read : read_bool "false" ≡ some false)
      (int_read : (n : ℕ) → read_int (decimal n) ≡ some n) where
    flag_read : (b : Bool) → read_bool (if b then "true" else "false") ≡ some b
    flag_read true = true_read
    flag_read false = false_read

    group_read :
        (q : CatalogQuery)
        → value_of "group" (catalog_params decimal read_bool read_int q) ≡ some q.group
    unfolding catalog_params value_of
    group_read q = refl

    idle_read :
        (q : CatalogQuery)
        → flag read_bool (value_of "idle_only" (catalog_params decimal read_bool read_int q))
          ≡ some q.idle_only
    unfolding catalog_params value_of
    idle_read q = flag_read q.idle_only

    query_of-catalog_params :
        (q : CatalogQuery)
        → query_of decimal read_bool read_int (catalog_params decimal read_bool read_int q)
          ≡ some (sent q)
    unfolding query_of
    query_of-catalog_params q =
        rw
          (
            group_read q,
            idle_read q,
            window_read decimal read_bool read_int int_read q,
            memory_read decimal read_bool read_int int_read q,
            skills_read decimal read_bool read_int q,
            tools_read decimal read_bool read_int q,
            model_read decimal read_bool read_int q,
            exclude_read decimal read_bool read_int q,
          )
          refl

    -- Where the Manager reads the words of a truth value and a number in decimal as they are meant, a
    -- node that asks for the catalog gets the answer to its query, whatever the query is.
    pub catalog_lem :
        (now : ℕ) (q : CatalogQuery)
        → catalog decimal read_bool read_int now q ≡ send (catalog_handler now q)
    unfolding catalog
    catalog_lem now q = ap (asked now) (query_of-catalog_params q) ∙ handler-sent now q
