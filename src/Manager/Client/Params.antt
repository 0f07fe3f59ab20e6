-- ===== src/Manager/Client/Params.antt =====
-- What the Manager reads of the parameters that a node sends for a query.
use mathlib.Core.List.{append-nil}
use myco_agent.Common.{
  eq_refl, ℕ, String, ◌≡◌, refl, sym, ap, ◌∙◌, Bool, true, false, not, Option, none, some, List, [],
  ◌∷◌, ◌++◌, all, given, arith, if◌then◌else◌, ◌==◌, eq_iff, inl, inr, Bool-cases,
}
use myco_agent.Models.{CatalogQuery}
use myco_agent.Table.Laws.{or_else}
use myco_agent.Manager.Client.{
  Params, text_param, all_param, number_param, value_of, values_of, catalog_params, number,
}

-- No parameter has the name.
abbrev pub foreign : String → Params → Bool
foreign name params = all (λ p. not (p.0 == name)) params

pub skip_value :
    (name : String) (xs ys : Params)
    → foreign name xs ≡ true
    → value_of name (xs ++ ys) ≡ value_of name ys
unfolding value_of
skip_value name [] ys h = refl
skip_value name ((k, v) ∷ xs) ys h = ground (arith, h, skip_value name xs ys (ground (arith, h)))

pub skip_values :
    (name : String) (xs ys : Params)
    → foreign name xs ≡ true
    → values_of name (xs ++ ys) ≡ values_of name ys
unfolding values_of
skip_values name [] ys h = refl
skip_values name ((k, v) ∷ xs) ys h = ground (arith, h, skip_values name xs ys (ground (arith, h)))

pub foreign-append :
    (name : String) (xs ys : Params)
    → foreign name xs ≡ true
    → foreign name ys ≡ true
    → foreign name (xs ++ ys) ≡ true
foreign-append name [] ys h k = k
foreign-append name (x ∷ xs) ys h k =
    ground (arith, h, foreign-append name xs ys (ground (arith, h)) k)

pub absent_value : (name : String) (xs : Params) → foreign name xs ≡ true → value_of name xs ≡ none
absent_value name xs h =
    ap (value_of name) (sym (append-nil xs)) ∙ skip_value name xs [] h ∙ unfold value_of in refl

pub absent_values : (name : String) (xs : Params) → foreign name xs ≡ true → values_of name xs ≡ []
absent_values name xs h =
    ap (values_of name) (sym (append-nil xs)) ∙ skip_values name xs [] h ∙ unfold values_of in refl

module _ (name k : String) (e : k == name ≡ false) where
  pub foreign-text_param : (o : Option String) → foreign name (text_param k o) ≡ true
  foreign-text_param none = refl
  foreign-text_param (some v) = elim (Bool-cases (given (some v))) [
    | inl g ↦ ground (arith, g, e)
    | inr g ↦ ground (arith, g)
  ]

  pub foreign-all_param : (vs : List String) → foreign name (all_param k vs) ≡ true
  foreign-all_param [] = refl
  foreign-all_param (v ∷ vs) = ground (arith, e, foreign-all_param vs)

  pub foreign-number_param :
      (decimal : ℕ → String) (o : Option ℕ) → foreign name (number_param decimal k o) ≡ true
  foreign-number_param decimal none = refl
  foreign-number_param decimal (some n) = ground (arith, e)

pub values_of-all_param :
    (name : String) (vs : List String) (rest : Params)
    → values_of name (all_param name vs ++ rest) ≡ vs ++ values_of name rest
unfolding values_of
values_of-all_param name [] rest = refl
values_of-all_param name (v ∷ vs) rest =
    ground (arith, eq_iff name name, values_of-all_param name vs rest)

-- `value or None`
abbrev pub clean : Option String → Option String
clean o = if given o then o else none

pub value_of-text_param :
    (name : String) (o : Option String) (rest : Params)
    → value_of name (text_param name o ++ rest) ≡ or_else (clean o) (value_of name rest)
unfolding value_of
value_of-text_param name none rest = refl
value_of-text_param name (some v) rest = elim (Bool-cases (given (some v))) [
  | inl g ↦ ground (arith, g, eq_iff name name)
  | inr g ↦ ground (arith, g)
]

module _ (decimal : ℕ → String) (read_bool : String → Option Bool)
    (read_int : String → Option ℕ) where
  abbrev after_memory : CatalogQuery → Params
  after_memory q = all_param "skills" q.skills ++ all_param "tools" q.tools

  abbrev after_window : CatalogQuery → Params
  after_window q = number_param decimal "min_memory_mb" q.min_memory_mb ++ after_memory q

  abbrev after_model : CatalogQuery → Params
  after_model q = number_param decimal "min_context_window" q.min_context_window ++ after_window q

  abbrev after_exclude : CatalogQuery → Params
  after_exclude q = text_param "model" q.model ++ after_model q

  absent_after_memory :
      (name : String) (q : CatalogQuery)
      → "skills" == name ≡ false
      → "tools" == name ≡ false
      → value_of name (after_memory q) ≡ none
  unfolding value_of
  absent_after_memory name q e f =
      skip_value name (all_param "skills" q.skills) (all_param "tools" q.tools)
        (foreign-all_param name "skills" e q.skills)
      ∙ ap (value_of name) (sym (append-nil (all_param "tools" q.tools)))
      ∙ skip_value name (all_param "tools" q.tools) [] (foreign-all_param name "tools" f q.tools)

  -- What is read of the parameters of a number
  pub number_read :
      (int_read : (n : ℕ) → read_int (decimal n) ≡ some n) (name : String) (o : Option ℕ)
      (rest : Params)
      → value_of name rest ≡ none
      → number read_int (value_of name (number_param decimal name o ++ rest)) ≡ some o
  unfolding value_of
  number_read int_read name none rest h = rw h refl
  number_read int_read name (some n) rest h = rw (eq_refl name, int_read n) refl

  pub window_read :
      (int_read : (n : ℕ) → read_int (decimal n) ≡ some n) (q : CatalogQuery)
      → number read_int
          (value_of "min_context_window" (catalog_params decimal read_bool read_int q))
        ≡ some q.min_context_window
  unfolding catalog_params value_of
  window_read int_read q =
      ap (number read_int) (
        skip_value "min_context_window" (text_param "exclude_node_id" q.exclude_node_id)
          (after_exclude q)
          (foreign-text_param "min_context_window" "exclude_node_id" refl q.exclude_node_id)
        ∙ skip_value "min_context_window" (text_param "model" q.model) (after_model q)
            (foreign-text_param "min_context_window" "model" refl q.model))
      ∙ number_read int_read "min_context_window" q.min_context_window (after_window q) (
          skip_value "min_context_window" (number_param decimal "min_memory_mb" q.min_memory_mb)
            (after_memory q)
            (foreign-number_param "min_context_window" "min_memory_mb" refl decimal q.min_memory_mb)
          ∙ absent_after_memory "min_context_window" q refl refl)

  pub memory_read :
      (int_read : (n : ℕ) → read_int (decimal n) ≡ some n) (q : CatalogQuery)
      → number read_int (value_of "min_memory_mb" (catalog_params decimal read_bool read_int q))
        ≡ some q.min_memory_mb
  unfolding catalog_params value_of
  memory_read int_read q =
      ap (number read_int) (
        skip_value "min_memory_mb" (text_param "exclude_node_id" q.exclude_node_id)
          (after_exclude q)
          (foreign-text_param "min_memory_mb" "exclude_node_id" refl q.exclude_node_id)
        ∙ skip_value "min_memory_mb" (text_param "model" q.model) (after_model q)
            (foreign-text_param "min_memory_mb" "model" refl q.model)
        ∙ skip_value "min_memory_mb"
            (number_param decimal "min_context_window" q.min_context_window) (after_window q)
            (foreign-number_param "min_memory_mb" "min_context_window" refl decimal
              q.min_context_window))
      ∙ number_read int_read "min_memory_mb" q.min_memory_mb (after_memory q)
          (absent_after_memory "min_memory_mb" q refl refl)

  pub or_else-none : (o : Option String) → or_else o none ≡ o
  or_else-none none = refl
  or_else-none (some x) = refl

  absent_after_model :
      (name : String) (q : CatalogQuery)
      → "min_context_window" == name ≡ false
      → "min_memory_mb" == name ≡ false
      → "skills" == name ≡ false
      → "tools" == name ≡ false
      → value_of name (after_model q) ≡ none
  absent_after_model name q a b c d =
      skip_value name (number_param decimal "min_context_window" q.min_context_window)
        (after_window q)
        (foreign-number_param name "min_context_window" a decimal q.min_context_window)
      ∙ skip_value name (number_param decimal "min_memory_mb" q.min_memory_mb) (after_memory q)
          (foreign-number_param name "min_memory_mb" b decimal q.min_memory_mb)
      ∙ absent_after_memory name q c d

  pub model_read :
      (q : CatalogQuery)
      → value_of "model" (catalog_params decimal read_bool read_int q) ≡ clean q.model
  unfolding catalog_params value_of
  model_read q =
      skip_value "model" (text_param "exclude_node_id" q.exclude_node_id) (after_exclude q)
        (foreign-text_param "model" "exclude_node_id" refl q.exclude_node_id)
      ∙ value_of-text_param "model" q.model (after_model q)
      ∙ ap (or_else (clean q.model)) (absent_after_model "model" q refl refl refl refl)
      ∙ or_else-none (clean q.model)

  pub exclude_read :
      (q : CatalogQuery)
      → value_of "exclude_node_id" (catalog_params decimal read_bool read_int q)
        ≡ clean q.exclude_node_id
  unfolding catalog_params value_of
  exclude_read q =
      value_of-text_param "exclude_node_id" q.exclude_node_id (after_exclude q)
      ∙ ap (or_else (clean q.exclude_node_id)) (
          skip_value "exclude_node_id" (text_param "model" q.model) (after_model q)
            (foreign-text_param "exclude_node_id" "model" refl q.model)
          ∙ absent_after_model "exclude_node_id" q refl refl refl refl)
      ∙ or_else-none (clean q.exclude_node_id)

  pub values_read :
      (name : String) (q : CatalogQuery)
      → "exclude_node_id" == name ≡ false
      → "model" == name ≡ false
      → "min_context_window" == name ≡ false
      → "min_memory_mb" == name ≡ false
      → values_of name (text_param "exclude_node_id" q.exclude_node_id ++ after_exclude q)
        ≡ values_of name (after_memory q)
  values_read name q a b c d =
      skip_values name (text_param "exclude_node_id" q.exclude_node_id) (after_exclude q)
        (foreign-text_param name "exclude_node_id" a q.exclude_node_id)
      ∙ skip_values name (text_param "model" q.model) (after_model q)
          (foreign-text_param name "model" b q.model)
      ∙ skip_values name (number_param decimal "min_context_window" q.min_context_window)
          (after_window q)
          (foreign-number_param name "min_context_window" c decimal q.min_context_window)
      ∙ skip_values name (number_param decimal "min_memory_mb" q.min_memory_mb) (after_memory q)
          (foreign-number_param name "min_memory_mb" d decimal q.min_memory_mb)

  pub skills_read :
      (q : CatalogQuery)
      → values_of "skills" (catalog_params decimal read_bool read_int q) ≡ q.skills
  unfolding catalog_params values_of
  skills_read q =
      values_read "skills" q refl refl refl refl
      ∙ values_of-all_param "skills" q.skills (all_param "tools" q.tools)
      ∙ ap (λ l. q.skills ++ l) (none_of_tools q.tools)
      ∙ append-nil q.skills
    where
      none_of_tools : (ts : List String) → values_of "skills" (all_param "tools" ts) ≡ []
      none_of_tools [] = refl
      none_of_tools (t ∷ ts) = none_of_tools ts

  pub tools_read :
      (q : CatalogQuery) → values_of "tools" (catalog_params decimal read_bool read_int q) ≡ q.tools
  unfolding catalog_params values_of
  tools_read q =
      values_read "tools" q refl refl refl refl
      ∙ skip_values "tools" (all_param "skills" q.skills) (all_param "tools" q.tools)
          (foreign-all_param "tools" "skills" refl q.skills)
      ∙ all_tools q.tools
    where
      all_tools : (ts : List String) → values_of "tools" (all_param "tools" ts) ≡ ts
      all_tools [] = refl
      all_tools (t ∷ ts) = ap (◌∷◌ t) (all_tools ts)
