-- ===== src/Text/Split.antt =====
-- `split` undoes `join`.
use Prim.Native.Char.{Char}
use myco_agent.Common.{
  ℕ, ◌≡◌, refl, ap, ◌∙◌, Bool, true, false, not, List, [], ◌∷◌, ◌++◌, arith, all,
}
use myco_agent.Text.{Chars, is_char, split_at, join_by}

module _ (k : ℕ) where
  -- The character of code `k` is not in the text.
  abbrev pub lacks : Chars → Bool
  lacks cs = all (λ c. not (is_char k c)) cs

  split_at_word : (cs : Chars) → lacks cs ≡ true → split_at k cs ≡ cs ∷ []
  split_at_word [] h = refl
  split_at_word (c ∷ cs) h =
      let e : is_char k c ≡ false = ground (arith, h) in
      let rest = split_at_word cs (ground (arith, h)) in rw (e, rest) refl

  pub split_at-append :
      (c : Char) (cs rest : Chars)
      → is_char k c ≡ true
      → lacks cs ≡ true
      → split_at k (cs ++ (c ∷ rest)) ≡ cs ∷ split_at k rest
  split_at-append c [] rest e h = rw e refl
  split_at-append c (d ∷ cs) rest e h =
      let f : is_char k d ≡ false = ground (arith, h) in
      let ih = split_at-append c cs rest e (ground (arith, h)) in rw (f, ih) refl

  -- Splitting at the separator that the parts were joined with gives the parts back.
  pub split_at-join_by :
      (c : Char) (p : Chars) (ps : List Chars)
      → is_char k c ≡ true
      → all lacks (p ∷ ps) ≡ true
      → split_at k (join_by (c ∷ []) (p ∷ ps)) ≡ p ∷ ps
  split_at-join_by c p [] e h = split_at_word p (ground (arith, h))
  split_at-join_by c p (q ∷ ps) e h =
      split_at-append c p (join_by (c ∷ []) (q ∷ ps)) e (ground (arith, h))
      ∙ ap (◌∷◌ p) (split_at-join_by c q ps e (ground (arith, h)))
