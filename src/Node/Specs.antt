-- ===== src/Node/Specs.antt =====
-- src/mycoagent/node/specs.py: `parse_csv` and `parse_models`. Python's `int` is modelled on ASCII digits; a
-- negative number, which it reads too, is refused here.
pub mod RoundTrip
use Prim.Native.Char.{Char, code}
use myco_agent.Common.{
  ℕ, ◌+◌, ◌-◌, ◌*◌, String, Bool, true, false, ◌&&◌, Option, none, some, List, [], ◌∷◌, map, keep,
  leb, ◌≡◌, refl, truthy, given, or_empty, is_nil, ◌==◌, if◌then◌else◌,
}
use myco_agent.Models.{ModelSpec, ModelSource, local_model, api_model}
use myco_agent.Text.{Chars, chars, is_char, strip, split}

-- `[item.strip() for item in value.split(",") if item.strip()]`
unfoldable pub csv_items : String → List String
csv_items value = keep truthy (map strip (split b',' value))

unfoldable pub parse_csv : Option String → List String
unfolding csv_items
parse_csv value = if given value then csv_items (or_empty value) else []

abbrev is_digit : Char → Bool
is_digit c = leb b'0' (code c) && leb (code c) b'9'

-- The digits left of an integer, with single underscores between digits; `after` says whether a digit is
-- just before.
digits_of : (after : Bool) → Chars → ℕ → Option ℕ
digits_of after [] n = if after then some n else none
digits_of after (c ∷ cs) n =
    let counted = digits_of true cs (n * 10 + (code c - b'0')) in
    let skipped = digits_of false cs n in
    if is_digit c then counted else if is_char b'_' c && after then skipped else none

without_plus : Chars → Chars
without_plus [] = []
without_plus (c ∷ cs) = if is_char b'+' c then cs else c ∷ cs

unfoldable pub int_of : String → Option ℕ
unfolding digits_of without_plus
int_of value = digits_of false (without_plus (chars (strip value))) 0

unfoldable pub source_of_name : String → Option ModelSource
source_of_name name =
    if name == "local" then some local_model else if name == "api" then some api_model else none

abbrev model_of : String → Option ModelSource → Option (Option ℕ) → Option ModelSpec
model_of name none window = none
model_of name (some source) none = none
model_of name (some source) (some window) =
    some (record { name = name; source = source; context_window = window })

abbrev window_of : String → Option (Option ℕ)
window_of t = elim (int_of t) [ none ↦ none | some n ↦ some (some n) ]

-- One item, split at its colons; `none` where `int` or the validation raises.
unfoldable pub parse_model : List String → Option ModelSpec
unfolding source_of_name int_of
parse_model [] = none
parse_model (name ∷ []) = model_of name (some local_model) (some none)
parse_model (name ∷ source ∷ []) = model_of name (source_of_name source) (some none)
parse_model (name ∷ source ∷ context ∷ more) =
    model_of name (source_of_name source) (window_of context)

unfoldable pub parse_items : List String → Option (List ModelSpec)
unfolding parse_model
parse_items [] = some []
parse_items (item ∷ items) =
    let rest = parse_items items in
    elim (parse_model (split b':' item)) [
      | none ↦ none
      | some model ↦ elim rest [ none ↦ none | some models ↦ some (model ∷ models) ]
    ]

unfoldable pub parse_models : Option String → Option (List ModelSpec)
unfolding parse_items
parse_models value = parse_items (parse_csv value)

sample :
    parse_models (some "llama3:local:8192, gpt-4:api")
    ≡ some (
        record { name = "llama3"; source = local_model; context_window = some 8192 }
        ∷ (record { name = "gpt-4"; source = api_model; context_window = none } ∷ []))
unfolding parse_models parse_csv csv_items strip split
sample = refl
