-- ===== src/Text/Strip.antt =====
-- What stripping leaves: nothing to strip.
use myco_agent.Common.{
  ℕ, ◌≡◌, refl, ap, ◌∙◌, Bool, false, ◌&&◌, [], ◌∷◌, inl, inr, Bool-cases, is_nil, String,
}
use Prim.Native.Char.{Char}
use myco_agent.Text.{
  Chars, chars, text, chars-text, is_space, lstrip_by, rstrip_by, rstrip, is_char, strip_by, strip,
}

module _ (p : Char → Bool) where
  -- The first character, if any, is none that `p` holds of.
  abbrev pub Begins : Chars → Type 0
  Begins [] = Unit
  Begins (c ∷ cs) = p c ≡ false

  pub lstrip_by-Begins : (cs : Chars) → Begins (lstrip_by p cs)
  lstrip_by-Begins [] = tt
  lstrip_by-Begins (c ∷ cs) = elim (Bool-cases (p c)) [
    | inl e ↦ rw e (lstrip_by-Begins cs)
    | inr e ↦ rw e e
  ]

  lstrip_by_fixed : (cs : Chars) → Begins cs → lstrip_by p cs ≡ cs
  lstrip_by_fixed [] h = refl
  lstrip_by_fixed (c ∷ cs) h = rw h refl

  rstrip_by-Begins : (cs : Chars) → Begins cs → Begins (rstrip_by p cs)
  rstrip_by-Begins [] h = tt
  rstrip_by-Begins (c ∷ cs) h = rw h h

  rstrip_by_idem : (cs : Chars) → rstrip_by p (rstrip_by p cs) ≡ rstrip_by p cs
  rstrip_by_idem [] = refl
  rstrip_by_idem (c ∷ cs) = elim (Bool-cases (p c && is_nil (rstrip_by p cs))) [
    | inl e ↦ rw e refl
    | inr e ↦ rw e (rw (rstrip_by_idem cs, e) refl)
  ]

  pub strip_by_idem : (cs : Chars) → strip_by p (strip_by p cs) ≡ strip_by p cs
  strip_by_idem cs =
      ap (rstrip_by p)
        (lstrip_by_fixed (strip_by p cs) (rstrip_by-Begins (lstrip_by p cs) (lstrip_by-Begins cs)))
      ∙ rstrip_by_idem (lstrip_by p cs)

pub strip_idem : (s : String) → strip (strip s) ≡ strip s
unfolding strip
strip_idem s =
    ap (λ cs. text (strip_by is_space cs)) (chars-text (strip_by is_space (chars s)))
    ∙ ap text (strip_by_idem is_space (chars s))

pub rstrip_idem : (c : ℕ) (s : String) → rstrip c (rstrip c s) ≡ rstrip c s
unfolding rstrip
rstrip_idem c s =
    ap (λ cs. text (rstrip_by (is_char c) cs)) (chars-text (rstrip_by (is_char c) (chars s)))
    ∙ ap text (rstrip_by_idem (is_char c) (chars s))
