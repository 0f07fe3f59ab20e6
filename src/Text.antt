-- ===== src/Text.antt =====
-- Python's methods on `str`, over the characters of a text. `lower` maps the ASCII letters and leaves the
-- others: its results are compared with ASCII words only.
pub mod Strip
pub mod Split
pub mod Begins
pub mod Once
use Prim.Native.Char.{Char, code}
use Prim.Native.String.{String}
use mathlib.Core.Bool.{false≢true}
use myco_agent.Common.{
  eq_iff, inr, inl, Bool-cases, arith, truthy, length, ℕ, zero, suc, ◌-◌, ◌≡◌, refl, ap, ◌∙◌, sym,
  Bool, true, false, not, ◌&&◌, ◌||◌, List, [], ◌∷◌, ◌++◌, Option, none, some, map, nat_eq, leb,
  if◌then◌else◌, is_nil,
}

abbrev pub Chars : Type 0
Chars = List Char

abbrev pub chars : String → Chars
chars String.[] = []
chars (String.◌∷◌ c s) = c ∷ chars s

abbrev pub text : Chars → String
text [] = String.[]
text (c ∷ cs) = String.◌∷◌ c (text cs)

pub text-chars : (s : String) → text (chars s) ≡ s
text-chars String.[] = refl
text-chars (String.◌∷◌ c s) = ap (String.◌∷◌ c) (text-chars s)

pub chars-text : (cs : Chars) → chars (text cs) ≡ cs
chars-text [] = refl
chars-text (c ∷ cs) = ap (◌∷◌ c) (chars-text cs)

-- Two texts with the same characters are the same.
pub chars_inj : (s t : String) → chars s ≡ chars t → s ≡ t
chars_inj s t e = sym (text-chars s) ∙ ap text e ∙ text-chars t

abbrev pub is_char : (k : ℕ) → Char → Bool
is_char k c = nat_eq (code c) k

-- `str.isspace` of a character
abbrev pub is_space : Char → Bool
is_space c =
    let n = code c in
    (leb 9 n && leb n 13)
    || (leb 28 n && leb n 32)
    || nat_eq n 133
    || nat_eq n 160
    || nat_eq n 5760
    || (leb 8192 n && leb n 8202)
    || nat_eq n 8232
    || nat_eq n 8233
    || nat_eq n 8239
    || nat_eq n 8287
    || nat_eq n 12288

abbrev pub lstrip_by : (Char → Bool) → Chars → Chars
lstrip_by p [] = []
lstrip_by p (c ∷ cs) = if p c then lstrip_by p cs else c ∷ cs

abbrev pub rstrip_by : (Char → Bool) → Chars → Chars
rstrip_by p [] = []
rstrip_by p (c ∷ cs) = let rest = rstrip_by p cs in if p c && is_nil rest then [] else c ∷ rest

abbrev pub strip_by : (Char → Bool) → Chars → Chars
strip_by p cs = rstrip_by p (lstrip_by p cs)

-- `s.strip()`
unfoldable pub strip : String → String
strip s = text (strip_by is_space (chars s))

-- `s.rstrip(c)` and `s.lstrip(c)` for one character
unfoldable pub rstrip : (c : ℕ) → String → String
rstrip c s = text (rstrip_by (is_char c) (chars s))

unfoldable pub lstrip : (c : ℕ) → String → String
lstrip c s = text (lstrip_by (is_char c) (chars s))

nth_char : Chars → ℕ → Char → Char
nth_char [] i default = default
nth_char (c ∷ cs) zero default = c
nth_char (c ∷ cs) (suc i) default = nth_char cs i default

unfoldable pub lower_char : Char → Char
unfolding nth_char
lower_char c =
    if leb b'A' (code c) && leb (code c) b'Z'
    then nth_char (chars "abcdefghijklmnopqrstuvwxyz") (code c - b'A') c
    else c

-- `s.lower()`
unfoldable pub lower : String → String
lower s = text (map lower_char (chars s))

abbrev pub onto_first : Char → List Chars → List Chars
onto_first c [] = (c ∷ []) ∷ []
onto_first c (p ∷ ps) = (c ∷ p) ∷ ps

-- The parts between the characters of code `k`, at least one.
abbrev pub split_at : (k : ℕ) → Chars → List Chars
split_at k [] = [] ∷ []
split_at k (c ∷ cs) =
    let parts = split_at k cs in if is_char k c then [] ∷ parts else onto_first c parts

-- `s.split(c)` for one character
unfoldable pub split : (c : ℕ) → String → List String
split c s = map text (split_at c (chars s))

abbrev pub join_by : Chars → List Chars → Chars
join_by sep [] = []
join_by sep (p ∷ ps) = let rest = join_by sep ps in if is_nil ps then p else p ++ (sep ++ rest)

-- `sep.join(parts)`
unfoldable pub join : (sep : String) → List String → String
join sep parts = text (join_by (chars sep) (map chars parts))

abbrev pub begins : Chars → Chars → Bool
begins [] cs = true
begins (p ∷ ps) [] = false
begins (p ∷ ps) (c ∷ cs) = nat_eq (code c) (code p) && begins ps cs

abbrev pub drop : {A : Type 0} → ℕ → List A → List A
drop zero cs = cs
drop (suc n) [] = []
drop (suc n) (c ∷ cs) = drop n cs

-- `s.startswith(prefix)`
unfoldable pub startswith : (prefix : String) → String → Bool
startswith prefix s = begins (chars prefix) (chars s)

abbrev pub occurs : Chars → Chars → Bool
occurs part [] = is_nil part
occurs part (c ∷ cs) = begins part (c ∷ cs) || occurs part cs

-- `part in s`
unfoldable pub contains_text : (part : String) → String → Bool
contains_text part s = occurs (chars part) (chars s)

samples :
    (strip " a b\n" ≡ "a b")
    × (lower "OpenCode" ≡ "opencode")
    × (split b',' "a,,b" ≡ "a" ∷ ("" ∷ ("b" ∷ [])))
    × (join ", " ("a" ∷ ("b" ∷ [])) ≡ "a, b")
    × (contains_text "bed" "embed" ≡ true)
unfolding strip lower lower_char split join contains_text
samples = (refl, refl, refl, refl, refl)

-- `s + t`, and an f-string of two parts
unfoldable pub cat : String → String → String
cat s t = text (chars s ++ chars t)

-- A text is true exactly if it has a character.
pub truthy-chars : (s : String) → truthy s ≡ not (is_nil (chars s))
truthy-chars String.[] = refl
truthy-chars (String.◌∷◌ c s) = elim (Bool-cases (truthy (String.◌∷◌ c s))) [
  | inl e ↦ e
  | inr e ↦
      let same : String.◌∷◌ c s ≡ "" = ground (arith, e, eq_iff (String.◌∷◌ c s) "") in
      absurd (false≢true (ap (λ t. is_nil (chars t)) same))
]

-- `s.removeprefix(prefix)`
unfoldable pub removeprefix : (prefix : String) → String → String
removeprefix prefix s =
    if startswith prefix s then text (drop (length (chars prefix)) (chars s)) else s

-- `s.replace(old, new)` for characters
unfoldable pub replace_char : (old new : Char) → String → String
replace_char old new s = text (map (λ c. if is_char (code old) c then new else c) (chars s))

abbrev pub replace_from : (old new : Chars) → (skip : ℕ) → Chars → Chars
replace_from old new skip [] = []
replace_from old new (suc skip) (c ∷ cs) = replace_from old new skip cs
replace_from old new zero (c ∷ cs) =
    let over = replace_from old new (length old - 1) cs in
    let rest = replace_from old new zero cs in if begins old (c ∷ cs) then new ++ over else c ∷ rest

-- `s.replace(old, new)` for an `old` that is not empty
unfoldable pub replace : (old new : String) → String → String
replace old new s = text (replace_from (chars old) (chars new) 0 (chars s))
