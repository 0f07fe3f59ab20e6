-- ===== src/Manager/Catalog.antt =====
-- src/mycoagent/manager/store.py: which nodes the catalog offers for a query.
pub mod Spec
use myco_agent.Common.{
  ℕ, String, Bool, true, false, not, ◌&&◌, ◌||◌, Option, none, some, List, leb, ltb, keep, any, all,
  contains, given, or_empty, is_nil, ◌==◌, if◌then◌else◌,
}
use myco_agent.Models.{NodeStatus, ModelSpec, NodeRecord, CatalogQuery, node_status_eq}

-- `required and not required.issubset(offered)` is the negation of this.
unfoldable pub covers : List String → List String → Bool
covers offered required = is_nil required || all (λ x. contains x offered) required

-- `item.context_window or 0`
abbrev pub window : ModelSpec → ℕ
window item = elim item.context_window [ none ↦ 0 | some w ↦ w ]

unfoldable pub memory_ok : Option ℕ → ℕ → Bool
memory_ok none memory = true
memory_ok (some bound) memory = not (ltb memory bound)

unfoldable pub window_ok : Option ℕ → List ModelSpec → Bool
window_ok none models = true
window_ok (some bound) models = any (λ item. leb bound (window item)) models

-- `None` where a model is asked for and no model has its name.
unfoldable pub named_models : Option String → List ModelSpec → Option (List ModelSpec)
named_models model models =
    if given model
    then (let found = keep (λ (item : ModelSpec). item.name == or_empty model) models in
        if is_nil found then none else some found)
    else some models

unfoldable pub models_ok : Option ℕ → Option (List ModelSpec) → Bool
models_ok bound none = false
models_ok bound (some models) = window_ok bound models

unfoldable pub catalog_matches : NodeRecord → CatalogQuery → Bool
unfolding models_ok
catalog_matches node query =
    if given query.exclude_node_id && node.id == or_empty query.exclude_node_id
    then false
    else if query.idle_only && not (node_status_eq node.status NodeStatus.idle)
    then false
    else if not (covers node.skills query.skills)
    then false
    else if not (covers node.tools_available query.tools)
    then false
    else if not (memory_ok query.min_memory_mb node.machine.memory_mb)
    then false
    else models_ok query.min_context_window (named_models query.model node.models)

unfoldable pub filter_catalog_nodes : List NodeRecord → CatalogQuery → List NodeRecord
filter_catalog_nodes nodes query = keep (λ node. catalog_matches node query) nodes
