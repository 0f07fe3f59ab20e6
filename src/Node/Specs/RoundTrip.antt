-- ===== src/Node/Specs/RoundTrip.antt =====
-- Names that are written with commas are read back, by `parse_csv` of src/mycoagent/node/specs.py.
use Prim.Native.Char.{char}
use myco_agent.Common.{
  ◌≡◌, refl, ap, ◌∙◌, sym, String, true, false, some, List, [], ◌∷◌, map, keep, arith, all, truthy,
  is_nil, eq_iff, inl, inr, Bool-cases,
}
use myco_agent.Text.{chars, text, text-chars, chars-text, strip, split, split_at, join, join_by}
use myco_agent.Text.Split.{lacks, split_at-join_by}
use myco_agent.Node.Specs.{csv_items, parse_csv}

-- A name that a list in one text can hold: it is not empty, has no comma and no spaces around it.
pub record Plain (name : String) : Type 0 where
  pub nonempty : truthy name ≡ true
  pub no_comma : lacks b',' (chars name) ≡ true
  pub no_spaces : strip name ≡ name

abbrev pub AllPlain : List String → Type 0
AllPlain [] = Unit
AllPlain (name ∷ names) = Plain name × AllPlain names

map-text-chars : (names : List String) → map text (map chars names) ≡ names
map-text-chars [] = refl
map-text-chars (name ∷ names) = rw (text-chars name, map-text-chars names) refl

all-lacks : (names : List String) → AllPlain names → all (lacks b',') (map chars names) ≡ true
all-lacks [] h = refl
all-lacks (name ∷ names) (p, h) = rw (p.no_comma) (all-lacks names h)

kept : (names : List String) → AllPlain names → keep truthy (map strip names) ≡ names
kept [] h = refl
kept (name ∷ names) (p, h) = rw (p.no_spaces, p.nonempty) (ap (◌∷◌ name) (kept names h))

pub split-join :
    (names : List String)
    → AllPlain names
    → is_nil names ≡ false
    → split b',' (join "," names) ≡ names
unfolding split join
split-join [] h e = absurd (ground (arith, e))
split-join (name ∷ names) h e =
    ap (λ cs. map text (split_at b',' cs))
      (chars-text (join_by (chars ",") (map chars (name ∷ names))))
    ∙ ap (map text) (
        split_at-join_by b',' (char b',' tt) (chars name) (map chars names) refl
          (all-lacks (name ∷ names) h))
    ∙ map-text-chars (name ∷ names)

head-cons :
    (name : String) (names rest : List String) → name ∷ names ≡ "" ∷ rest → truthy name ≡ true → ⊥
head-cons name names rest e h = ground (arith, e, h, eq_iff name "")

pub join-nonempty :
    (name : String) (names : List String)
    → AllPlain (name ∷ names)
    → truthy (join "," (name ∷ names)) ≡ true
unfolding split
join-nonempty name names (p, h) = elim (Bool-cases (truthy (join "," (name ∷ names)))) [
  | inl e ↦ e
  | inr e ↦
      let blank : join "," (name ∷ names) ≡ "" =
        ground (arith, e, eq_iff (join "," (name ∷ names)) "") in
      let bad = rw blank at (split-join (name ∷ names) (p, h) refl) in
      absurd (head-cons name names [] (sym bad) p.nonempty)
]

-- The names of a list that are written in one text, with commas between them, are what `parse_csv`
-- reads from it, if no name is empty, has a comma or has spaces around it.
pub parse_csv-join :
    (names : List String) → AllPlain names → parse_csv (some (join "," names)) ≡ names
unfolding parse_csv csv_items split
parse_csv-join [] h = unfold join in refl
parse_csv-join (name ∷ names) (p, h) =
    rw (join-nonempty name names (p, h), split-join (name ∷ names) (p, h) refl)
      (kept (name ∷ names) (p, h))
