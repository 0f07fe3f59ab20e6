-- ===== src/Text/Once.antt =====
-- `s.split(c, 1)`: a text that is split at the first place of a character.
use myco_agent.Common.{ℕ, String, Option, none, some, [], ◌∷◌, if◌then◌else◌}
use myco_agent.Text.{Chars, chars, text, is_char}

abbrev pub cut_at : (k : ℕ) → Chars → Option (Chars × Chars)
cut_at k [] = none
cut_at k (c ∷ cs) =
    let rest = elim (cut_at k cs) as (λ _. Option (Chars × Chars)) [
      | none ↦ none
      | some (before, after) ↦ some (c ∷ before, after)
    ] in
    if is_char k c then some ([], cs) else rest

-- The two parts, and `none` where the character is not in the text.
unfoldable pub split_once : (k : ℕ) → String → Option (String × String)
split_once k s = elim (cut_at k (chars s)) [
  | none ↦ none
  | some (before, after) ↦ some (text before, text after)
]
