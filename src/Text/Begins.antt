-- ===== src/Text/Begins.antt =====
-- What a text with a prefix is.
use text.Mathlib.TextEquality.{Char-path}
use Prim.Native.Char.{code}
use myco_agent.Common.{◌≡◌, refl, ap, ◌∙◌, true, [], ◌∷◌, ◌++◌, arith, length}
use myco_agent.Text.{Chars, begins, drop}

-- A text that begins with a prefix is the prefix and the rest.
pub begins-drop : (p cs : Chars) → begins p cs ≡ true → cs ≡ p ++ drop (length p) cs
begins-drop [] cs h = refl
begins-drop (d ∷ p) [] h = absurd (ground (arith, h))
begins-drop (d ∷ p) (c ∷ cs) h =
    let same : code c ≡ code d = ground (arith, h) in
    let rest = begins-drop p cs (ground (arith, h)) in
    ap (λ x. x ∷ cs) (Char-path c d same) ∙ ap (◌∷◌ d) rest
