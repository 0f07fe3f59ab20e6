-- ===== src/Node/OpenCode/Output.antt =====
-- src/mycoagent/node/opencode.py: the text in the output of `opencode run`. `json.loads` is a parameter.
use Prim.Native.Char.{Char, code}
use myco_agent.Common.{
  String, Bool, true, false, not, ◌&&◌, ◌||◌, Option, none, some, List, [], ◌∷◌, ◌++◌, keep, truthy,
  leb, nat_eq, ◌==◌, if◌then◌else◌,
}
use myco_agent.Models.{
  Fields, end, field, Json, null, bool, num, other_num, text, arr, obj, Items, nil, cons,
}
use myco_agent.Text.{lower, Chars, chars, strip, join, cat, contains_text}
use myco_agent.Text as Text

-- A field of an object, with the text of its value.
pub record Entry : Type 0 where
  pub key : String
  pub value : Json
  pub shown : String

-- The text of a value where a test on the value holds.
abbrev pub entry_text : (Json → Bool) → String → List Entry → String
entry_text p key [] = ""
entry_text p key (entry ∷ entries) =
    let rest = entry_text p key entries in
    if entry.key == key then (if p entry.value then entry.shown else "") else rest

abbrev pub spoken : Json → Bool
spoken (text t) = truthy (strip t)
spoken (obj fields) = true
spoken _ = false

abbrev pub is_object : Json → Bool
is_object (obj fields) = true
is_object _ = false

abbrev pub is_array : Json → Bool
is_array (arr items) = true
is_array _ = false

-- `a or b`
abbrev pub or_text : String → String → String
or_text a b = if truthy a then a else b

abbrev pub object_text : List Entry → String
object_text entries = or_text (entry_text spoken "text" entries) (
    or_text (entry_text spoken "content" entries) (
      or_text (entry_text spoken "message" entries) (
        or_text (entry_text spoken "result" entries) (
          or_text (entry_text is_array "parts" entries) (
            or_text (entry_text is_object "info" entries) (entry_text is_object "part" entries))))))

unfoldable mutual
  pub json_to_text : Json → String
  json_to_text (text t) = t
  json_to_text (obj fields) = object_text (entries_of fields)
  json_to_text (arr items) = join "\n" (keep truthy (item_texts items))
  json_to_text null = ""
  json_to_text (bool b) = ""
  json_to_text (num n) = ""
  json_to_text (other_num shown nonzero) = ""

  pub item_texts : Items → List String
  item_texts nil = []
  item_texts (cons item items) = json_to_text item ∷ item_texts items

  pub entries_of : Fields → List Entry
  entries_of end = []
  entries_of (field key value rest) =
      record { key = key; value = value; shown = json_to_text value } ∷ entries_of rest

-- The ends of lines that `str.splitlines` knows
abbrev pub ends_line : Char → Bool
ends_line c =
    let n = code c in
    (leb 10 n && leb n 13)
    || (leb 28 n && leb n 30)
    || nat_eq n 133
    || nat_eq n 8232
    || nat_eq n 8233

-- `s.splitlines()[-1]` of a text that does not end a line
abbrev pub last_line : (line : Chars) → Chars → Chars
last_line line [] = line
last_line line (c ∷ cs) = if ends_line c then last_line [] cs else last_line (line ++ c ∷ []) cs

module _ (loads : String → Option Json) where
  unfoldable pub first_text : List String → Option String
  first_text [] = none
  first_text (chunk ∷ chunks) =
      let rest = first_text chunks in
      elim (loads chunk) [
        | none ↦ rest
        | some payload ↦ if truthy (json_to_text payload) then some (json_to_text payload) else rest
      ]

  unfoldable pub extract_opencode_text : String → String
  extract_opencode_text stdout =
      let raw = strip stdout in
      let last = strip (Text.text (last_line [] (chars raw))) in
      let candidates = if contains_text "\n" raw then raw ∷ (last ∷ []) else raw ∷ [] in
      if not (truthy raw)
      then ""
      else elim (first_text candidates) [ none ↦ raw | some shown ↦ shown ]
