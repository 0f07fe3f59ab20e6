-- ===== src/Node/Capabilities.antt =====
-- src/mycoagent/node/capabilities.py: names of skills and tools from the text of a file or the entries of a
-- directory. `json.loads` and Python's `str` of a JSON value are parameters; `none` is a `ValueError`.
pub mod Paths
use myco_agent.Common.{
  String, Bool, false, not, ◌||◌, Option, none, some, List, [], ◌∷◌, ◌++◌, contains, sort_by,
  text_leb, truthy, ◌==◌, if◌then◌else◌,
}
use myco_agent.Models.{
  Fields, end, field, Json, null, bool, num, other_num, text, arr, obj, Items, nil, cons,
}
use myco_agent.Text.{Chars, chars, strip, lower, startswith, onto_first}
use myco_agent.Text as Text
use myco_agent.Node.Executor.{get_field}
use myco_agent.Node.Specs.{csv_items}
use myco_agent.Node.Names.{merge_names}
use myco_agent.Node.OpenCode.Output.{ends_line}

-- `key in data`
unfoldable pub has_field : String → Fields → Bool
has_field key end = false
has_field key (field k v rest) = k == key || has_field key rest

-- `s.splitlines()`, with an empty line between the two characters of a line end that has two
abbrev pub lines_at : Chars → List Chars
lines_at [] = [] ∷ []
lines_at (c ∷ cs) = let rest = lines_at cs in if ends_line c then [] ∷ rest else onto_first c rest

-- The names of the lines that are not blank and no comment
unfoldable pub line_names : List Chars → List String
line_names [] = []
line_names (line ∷ lines) =
    let rest = line_names lines in
    let piece = strip (Text.text line) in
    if not (truthy piece) || startswith "#" piece then rest else csv_items piece ++ rest

module _ (str : Json → String) (loads : String → Option Json) where
  abbrev pub item_name : Json → String
  item_name (text t) = strip t
  item_name value = strip (str value)

  unfoldable pub item_names : Items → List String
  item_names nil = []
  item_names (cons item items) =
      let rest = item_names items in if truthy (item_name item) then item_name item ∷ rest else rest

  unfoldable pub names_of : Json → Option (List String)
  names_of null = some []
  names_of (text t) = some (csv_items t)
  names_of (arr items) = some (item_names items)
  names_of (bool b) = none
  names_of (num n) = none
  names_of (other_num shown nonzero) = none
  names_of (obj fields) = none

  abbrev pub named_alone : Json → Option (List String)
  named_alone (text t) = if truthy (strip t) then some (strip t ∷ []) else none
  named_alone _ = none

  abbrev pub names_in_json : (kind : String) → Json → Option (List String)
  names_in_json kind (arr items) = some (item_names items)
  names_in_json kind (obj fields) =
      if has_field kind fields
      then names_of (get_field kind fields)
      else named_alone (get_field "name" fields)
  names_in_json kind _ = none

  unfoldable pub from_file : (suffix kind content : String) → Option (List String)
  from_file suffix kind content =
      if lower suffix == ".json"
      then elim (loads content) [ none ↦ none | some data_value ↦ names_in_json kind data_value ]
      else some (merge_names (line_names (lines_at (chars content)) ∷ []))

  -- `load_capabilities` of a file: its skills and its tools
  abbrev pub both : Option (List String) → Option (List String) → Option (List String × List String)
  both (some skills) (some tools) = some (skills, tools)
  both _ _ = none

  abbrev pub capabilities_in : Json → Option (List String × List String)
  capabilities_in (obj fields) =
      both (names_of (get_field "skills" fields)) (names_of (get_field "tools" fields))
  capabilities_in _ = none

  unfoldable pub file_capabilities : (content : String) → Option (List String × List String)
  file_capabilities content = elim (loads content) [
    | none ↦ none
    | some data_value ↦ capabilities_in data_value
  ]

-- An entry of a directory
pub record DirEntry : Type 0 where
  pub name : String
  pub is_dir : Bool
  pub stem : String
  pub suffix : String

abbrev pub entry_names : DirEntry → List String
entry_names child =
    if startswith "." child.name
    then []
    else if child.is_dir
    then child.name ∷ []
    else if contains (lower child.name) ("readme.md" ∷ ("capabilities.json" ∷ []))
    then []
    else if contains (lower child.suffix) (".md" ∷ (".json" ∷ (".txt" ∷ (".toml" ∷ []))))
    then child.stem ∷ []
    else []

unfoldable pub all_entry_names : List DirEntry → List String
all_entry_names [] = []
all_entry_names (child ∷ children) = entry_names child ++ all_entry_names children

-- The directory that is scanned, without a file of capabilities in a nested one
unfoldable pub from_entries : List DirEntry → List String
from_entries children =
    merge_names
      (all_entry_names (sort_by (λ a b. text_leb (lower a.name) (lower b.name)) children) ∷ [])
