-- ===== src/Manager/Catalog/Spec.antt =====
-- What it means that a node fits a catalog query, and that `catalog_matches` decides it.
use mathlib.Core.List.{mem-filter, not-mem-nil, mem-cons_self}
use mathlib.Core.HLevel.{⊥_prop}
use mathlib.Core.Bool.{false≢true}
use mathlib.Core.Logic.{∥∥₁_elim, ∥∥₁_map}
use myco_agent.Common.{
  ℕ, ◌≤◌, String, ◌≡◌, ◌≢◌, refl, ◌↔◌, inl, inr, true, false, Option, none, some, List, [], ◌∷◌,
  Mem, arith, ◌==◌, eq_iff, keep, any_iff, all_iff, contains, contains_iff, given, or_empty, is_nil,
  leb, Bool-cases, dec_true, sym, ◌∙◌,
}
use myco_agent.Models.{NodeStatus, ModelSpec, NodeRecord, CatalogQuery}
use myco_agent.Manager.Catalog.{
  models_ok, covers, window, memory_ok, window_ok, named_models, catalog_matches,
}

-- The names that `required` lists are all in `offered`.
abbrev pub Includes : List String → List String → Type 0
Includes offered required = (x : String) → Mem x required → Mem x offered

covers→Includes :
    (offered required : List String) → covers offered required ≡ true → Includes offered required
unfolding covers
covers→Includes offered [] h x m = absurd (not-mem-nil m)
covers→Includes offered (r ∷ required) h x m =
    (contains_iff x offered).0
      ((all_iff (λ y. contains y offered) (r ∷ required)).0 (ground arith) x m)

Includes→covers :
    (offered required : List String) → Includes offered required → covers offered required ≡ true
unfolding covers
Includes→covers offered [] h = refl
Includes→covers offered (r ∷ required) h =
    (all_iff (λ y. contains y offered) (r ∷ required)).1 (λ x m. (contains_iff x offered).1 (h x m))

abbrev IsNamed : Option String → ModelSpec → Type 0
IsNamed model item = item.name ≡ or_empty model

-- Some model has the name that is asked for.
abbrev pub HasModel : Option String → List ModelSpec → Type 0
HasModel model models =
    given model ≡ true → ∥ ((item : ModelSpec) × Mem item models × IsNamed model item) ∥₁

-- Some model, of that name where one is asked for, has the context window that is asked for.
abbrev pub HasWindow : Option ℕ → Option String → List ModelSpec → Type 0
HasWindow bound model models =
    (w : ℕ)
    → bound ≡ some w
    → ∥ (
        (item : ModelSpec) × Mem item models
        × (given model ≡ true → IsNamed model item)
        × (w ≤ window item)) ∥₁

module _ (model : Option String) (models : List ModelSpec) where
  abbrev found : List ModelSpec
  found = keep (λ (item : ModelSpec). item.name == or_empty model) models

  mem-found : (item : ModelSpec) → Mem item found ↔ (Mem item models × IsNamed model item)
  mem-found item =
      let (there, back) = mem-filter (λ (a : ModelSpec). dec_true (a.name == or_empty model)) in
      ((λ m. let (t, e) = there m in (t, (eq_iff _ _).0 e)), (λ (m, e). back (m, (eq_iff _ _).1 e)))

  some_mem : (xs : List ModelSpec) → is_nil xs ≡ false → (item : ModelSpec) × Mem item xs
  some_mem [] h = absurd (ground arith)
  some_mem (x ∷ xs) h = (x, mem-cons_self)

  none_mem : (xs : List ModelSpec) → is_nil xs ≡ true → (item : ModelSpec) → ¬ Mem item xs
  none_mem [] h item = not-mem-nil
  none_mem (x ∷ xs) h item = absurd (ground arith)

  window_ok_iff :
      (bound : Option ℕ) (xs : List ModelSpec)
      → (window_ok bound xs ≡ true)
        ↔ ((w : ℕ) → bound ≡ some w → ∥ ((item : ModelSpec) × Mem item xs × (w ≤ window item)) ∥₁)
  unfolding window_ok
  window_ok_iff none xs = ((λ h w e. absurd (cc)), (λ h. refl))
  window_ok_iff (some b) xs =
      let (there, back) = any_iff (λ item. leb b (window item)) xs in
      (
        (λ h w e. ∥∥₁_map (there h) (λ (item, m, q). (item, m, at_most b w (window item) q e))),
        (λ h. back (∥∥₁_map (h b refl) (λ (item, m, q). (item, m, ground arith)))),
      )
    where
      at_most : (b w n : ℕ) → leb b n ≡ true → some b ≡ some w → w ≤ n
      at_most b w n q e = ground arith

  models_ok→has :
      (bound : Option ℕ)
      → models_ok bound (named_models model models) ≡ true
      → HasModel model models × HasWindow bound model models
  unfolding models_ok named_models
  models_ok→has bound h = elim (Bool-cases (given model)) [
    | inl g ↦ elim (Bool-cases (is_nil found)) [
      | inl e ↦ absurd (false≢true (rw (g, e) at h))
      | inr e ↦
          let (item, m) = some_mem found e in
          (
            (λ _. let (t, n) = (mem-found item).0 m in ∣ (item, t, n) ∣₁),
            (λ w b.
                ∥∥₁_map ((window_ok_iff bound found).0 (rw (g, e) at h) w b)
                  (λ (a, t, q). (a, ((mem-found a).0 t).0, (λ _. ((mem-found a).0 t).1), q))),
          )
    ]
    | inr g ↦ (
      (λ t. absurd (false≢true (sym g ∙ t))),
      (λ w b.
          ∥∥₁_map ((window_ok_iff bound models).0 (rw g at h) w b)
            (λ (a, t, q). (a, t, (λ y. absurd (false≢true (sym g ∙ y))), q))),
    )
  ]

  has→models_ok :
      (bound : Option ℕ)
      → HasModel model models
      → HasWindow bound model models
      → models_ok bound (named_models model models) ≡ true
  unfolding models_ok named_models
  has→models_ok bound named wide = elim (Bool-cases (given model)) [
    | inl g ↦ elim (Bool-cases (is_nil found)) [
      | inl e ↦ absurd (
          ∥∥₁_elim (named g) ⊥_prop
            (λ (item, m, n). none_mem found e item ((mem-found item).1 (m, n))))
      | inr e ↦
          rw (g, e)
            ((window_ok_iff bound found).1
              (λ w b. ∥∥₁_map (wide w b) (λ (a, t, n, q). (a, (mem-found a).1 (t, n g), q))))
    ]
    | inr g ↦
        rw g
          ((window_ok_iff bound models).1 (λ w b. ∥∥₁_map (wide w b) (λ (a, t, n, q). (a, t, q))))
  ]

-- What a query asks of a node.
pub record Fits (node : NodeRecord) (query : CatalogQuery) : Type 0 where
  pub not_excluded : given query.exclude_node_id ≡ true → node.id ≢ or_empty query.exclude_node_id
  pub is_idle : query.idle_only ≡ true → node.status ≡ NodeStatus.idle
  pub has_skills : Includes node.skills query.skills
  pub has_tools : Includes node.tools_available query.tools
  pub has_memory : (b : ℕ) → query.min_memory_mb ≡ some b → b ≤ node.machine.memory_mb
  pub has_model : HasModel query.model node.models
  pub has_window : HasWindow query.min_context_window query.model node.models

memory→le :
    (bound : Option ℕ) (memory b : ℕ) → memory_ok bound memory ≡ true → bound ≡ some b → b ≤ memory
unfolding memory_ok
memory→le bound memory b h e = ground arith

le→memory :
    (bound : Option ℕ) (memory : ℕ)
    → ((b : ℕ) → bound ≡ some b → b ≤ memory)
    → memory_ok bound memory ≡ true
unfolding memory_ok
le→memory none memory h = refl
le→memory (some b) memory h = let fits = h b refl in ground arith

matches→Fits :
    (node : NodeRecord) (query : CatalogQuery) → catalog_matches node query ≡ true → Fits node query
unfolding catalog_matches
matches→Fits node query h =
    let (named, wide) =
      models_ok→has query.model node.models query.min_context_window (ground arith) in
    record {
      not_excluded = λ g e. ground (arith, eq_iff node.id (or_empty query.exclude_node_id));
      is_idle = λ i. ground arith;
      has_skills = covers→Includes node.skills query.skills (ground arith);
      has_tools = covers→Includes node.tools_available query.tools (ground arith);
      has_memory = λ b e. memory→le query.min_memory_mb node.machine.memory_mb b (ground arith) e;
      has_model = named;
      has_window = wide;
    }

Fits→matches :
    (node : NodeRecord) (query : CatalogQuery) → Fits node query → catalog_matches node query ≡ true
unfolding catalog_matches
Fits→matches node query f =
    let skills = Includes→covers node.skills query.skills f.has_skills in
    let tools = Includes→covers node.tools_available query.tools f.has_tools in
    let memory = le→memory query.min_memory_mb node.machine.memory_mb f.has_memory in
    let models =
      has→models_ok query.model node.models query.min_context_window f.has_model f.has_window in
    ground (
      arith,
      skills,
      tools,
      memory,
      models,
      f.is_idle,
      f.not_excluded,
      eq_iff node.id (or_empty query.exclude_node_id),
    )

-- A node passes the catalog's filter exactly when it fits the query: it is not the excluded node,
-- is idle where that is asked for, has every skill and tool, enough memory, a model of the name
-- asked for, and a context window large enough in a model of that name.
pub catalog_matches_iff :
    (node : NodeRecord) (query : CatalogQuery)
    → (catalog_matches node query ≡ true) ↔ Fits node query
catalog_matches_iff node query = (matches→Fits node query, Fits→matches node query)
