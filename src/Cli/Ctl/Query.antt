-- ===== src/Cli/Ctl/Query.antt =====
-- What the Manager reads of the parameters of `ctl catalog` of src/mycoagent/cli.py.
use mathlib.Core.List.{append-nil}
use myco_agent.Common.{
  ℕ, String, ◌≡◌, refl, sym, ap, ◌∙◌, Bool, true, false, Option, none, some, List, [], ◌∷◌, ◌++◌,
  map, is_nil, if◌then◌else◌, ◌==◌,
}
use myco_agent.Models.{CatalogQuery}
use myco_agent.Table.Laws.{or_else}
use myco_agent.Manager.Client.{
  Params, text_param, all_param, number_param, value_of, values_of, number, flag, query_of, asked,
  send,
}
use myco_agent.Manager.Client.Params.{
  foreign, foreign-append, foreign-all_param, foreign-text_param, foreign-number_param, skip_value,
  skip_values, absent_value, absent_values, values_of-all_param, value_of-text_param, number_read,
  clean, or_else-none,
}
use myco_agent.Text.{strip, join}
use myco_agent.Node.Specs.RoundTrip.{AllPlain, split-join, join-nonempty}
use myco_agent.Manager.Client.Catalog.{sent, handler-sent}
use myco_agent.Manager.Api.{catalog_handler}
use myco_agent.Cli.Ctl.{items, ctl_catalog_params}

module _ (decimal : ℕ → String) (read_bool : String → Option Bool) (read_int : String → Option ℕ)
    (q : CatalogQuery) where
  abbrev memory : Params
  memory = number_param decimal "min_memory_mb" q.min_memory_mb

  abbrev window : Params
  window = number_param decimal "min_context_window" q.min_context_window

  abbrev model : Params
  model = text_param "model" q.model

  abbrev tools : Params
  tools = all_param "tools" q.tools

  abbrev skills : Params
  skills = all_param "skills" q.skills

  -- The parameters after the first two
  abbrev after_idle : Params
  after_idle = skills ++ (tools ++ (model ++ (window ++ memory)))

  -- The names are skipped by one that is neither.
  skip_names :
      (name : String) (rest : Params)
      → "skills" == name ≡ false
      → "tools" == name ≡ false
      → value_of name (skills ++ (tools ++ rest)) ≡ value_of name rest
  skip_names name rest a b =
      skip_value name skills (tools ++ rest) (foreign-all_param name "skills" a q.skills)
      ∙ skip_value name tools rest (foreign-all_param name "tools" b q.tools)

  foreign_numbers :
      (name : String)
      → "min_context_window" == name ≡ false
      → "min_memory_mb" == name ≡ false
      → foreign name (window ++ memory) ≡ true
  foreign_numbers name a b =
      foreign-append name window memory
        (foreign-number_param name "min_context_window" a decimal q.min_context_window)
        (foreign-number_param name "min_memory_mb" b decimal q.min_memory_mb)

  foreign_words :
      (name : String)
      → "model" == name ≡ false
      → "min_context_window" == name ≡ false
      → "min_memory_mb" == name ≡ false
      → foreign name (model ++ (window ++ memory)) ≡ true
  foreign_words name m a b =
      foreign-append name model (window ++ memory) (foreign-text_param name "model" m q.model)
        (foreign_numbers name a b)

  model_asked : value_of "model" after_idle ≡ clean q.model
  model_asked =
      skip_names "model" (model ++ (window ++ memory)) refl refl
      ∙ value_of-text_param "model" q.model (window ++ memory)
      ∙ ap (or_else (clean q.model))
          (absent_value "model" (window ++ memory) (foreign_numbers "model" refl refl))
      ∙ or_else-none decimal read_bool read_int (clean q.model)

  exclude_asked : value_of "exclude_node_id" after_idle ≡ none
  exclude_asked =
      skip_names "exclude_node_id" (model ++ (window ++ memory)) refl refl
      ∙ absent_value "exclude_node_id" (model ++ (window ++ memory))
          (foreign_words "exclude_node_id" refl refl refl)

  skills_asked : values_of "skills" after_idle ≡ q.skills
  skills_asked =
      values_of-all_param "skills" q.skills (tools ++ (model ++ (window ++ memory)))
      ∙ ap (λ l. q.skills ++ l)
          (skip_values "skills" tools (model ++ (window ++ memory))
              (foreign-all_param "skills" "tools" refl q.tools)
            ∙ absent_values "skills" (model ++ (window ++ memory))
                (foreign_words "skills" refl refl refl))
      ∙ append-nil q.skills

  tools_asked : values_of "tools" after_idle ≡ q.tools
  tools_asked =
      skip_values "tools" skills (tools ++ (model ++ (window ++ memory)))
        (foreign-all_param "tools" "skills" refl q.skills)
      ∙ values_of-all_param "tools" q.tools (model ++ (window ++ memory))
      ∙ ap (λ l. q.tools ++ l)
          (absent_values "tools" (model ++ (window ++ memory))
            (foreign_words "tools" refl refl refl))
      ∙ append-nil q.tools

  module _ (int_read : (n : ℕ) → read_int (decimal n) ≡ some n) where
    memory_asked : number read_int (value_of "min_memory_mb" after_idle) ≡ some q.min_memory_mb
    memory_asked =
        ap (number read_int) (
          skip_names "min_memory_mb" (model ++ (window ++ memory)) refl refl
          ∙ skip_value "min_memory_mb" model (window ++ memory)
              (foreign-text_param "min_memory_mb" "model" refl q.model)
          ∙ skip_value "min_memory_mb" window memory (
              foreign-number_param "min_memory_mb" "min_context_window" refl decimal
                q.min_context_window)
          ∙ ap (value_of "min_memory_mb") (sym (append-nil memory)))
        ∙ number_read decimal read_bool read_int int_read "min_memory_mb" q.min_memory_mb []
            (unfold value_of in refl)

    window_asked :
        number read_int (value_of "min_context_window" after_idle) ≡ some q.min_context_window
    window_asked =
        ap (number read_int) (
          skip_names "min_context_window" (model ++ (window ++ memory)) refl refl
          ∙ skip_value "min_context_window" model (window ++ memory)
              (foreign-text_param "min_context_window" "model" refl q.model))
        ∙ number_read decimal read_bool read_int int_read "min_context_window" q.min_context_window
            memory
            (absent_value "min_context_window" memory (
              foreign-number_param "min_context_window" "min_memory_mb" refl decimal
                q.min_memory_mb))

-- An option for several names
abbrev pub option_of : List String → Option String
option_of names = if is_nil names then none else some (join "," names)

items-option_of : (names : List String) → AllPlain names → items (option_of names) ≡ names
items-option_of [] h = refl
items-option_of (name ∷ names) h =
    rw (join-nonempty name names h)
      (ap (map strip) (split-join (name ∷ names) h refl) ∙ stripped (name ∷ names) h)
  where
    stripped : (names : List String) → AllPlain names → map strip names ≡ names
    stripped [] h = refl
    stripped (name ∷ names) (p, h) = rw (p.no_spaces, stripped names h) refl

module _ (decimal : ℕ → String) (read_bool : String → Option Bool) (read_int : String → Option ℕ)
    (true_read : read_bool "true" ≡ some true) (false_read : read_bool "false" ≡ some false)
    (int_read : (n : ℕ) → read_int (decimal n) ≡ some n) where
  idle_asked : (b : Bool) → flag read_bool (some (if b then "true" else "false")) ≡ some b
  idle_asked true = true_read
  idle_asked false = false_read

  query_of-ctl_catalog_params :
      (q : CatalogQuery)
      → q.exclude_node_id ≡ none
      → AllPlain q.skills
      → AllPlain q.tools
      → query_of decimal read_bool read_int (
          ctl_catalog_params decimal q.group q.idle_only
            (option_of q.skills)
            (option_of q.tools)
            q.model
            q.min_context_window
            q.min_memory_mb)
        ≡ some (sent q)
  unfolding query_of ctl_catalog_params value_of values_of
  query_of-ctl_catalog_params q h s t =
      rw (items-option_of q.skills s, items-option_of q.tools t)
        (rw
          (
            idle_asked q.idle_only,
            window_asked decimal read_bool read_int q int_read,
            memory_asked decimal read_bool read_int q int_read,
            skills_asked decimal read_bool read_int q,
            tools_asked decimal read_bool read_int q,
            model_asked decimal read_bool read_int q,
            exclude_asked decimal read_bool read_int q,
            h,
          )
          refl)

  -- Where the Manager reads the words of a truth value and a number in decimal as they are meant: `ctl catalog` with the
  -- names of skills and tools of a query, each without commas or spaces around it, shows the Manager's answer to the
  -- query.
  pub ctl_catalog_lem :
      (now : ℕ) (q : CatalogQuery)
      → q.exclude_node_id ≡ none
      → AllPlain q.skills
      → AllPlain q.tools
      → asked now (
          query_of decimal read_bool read_int (
            ctl_catalog_params decimal q.group q.idle_only
              (option_of q.skills)
              (option_of q.tools)
              q.model
              q.min_context_window
              q.min_memory_mb))
        ≡ send (catalog_handler now q)
  ctl_catalog_lem now q h s t =
      ap (asked now) (query_of-ctl_catalog_params q h s t) ∙ handler-sent now q
