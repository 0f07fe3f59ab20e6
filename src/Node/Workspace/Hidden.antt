-- ===== src/Node/Workspace/Hidden.antt =====
-- A text that is shown outside a workspace does not name its directory.
use mathlib.Core.List.{append-nil}
use mathlib.Core.List.Perm
use myco_agent.Common.{
  sym, ℕ, zero, suc, ◌-◌, String, ◌≡◌, refl, ap, ◌∙◌, Bool, true, false, not, ◌&&◌, List, [], ◌∷◌,
  ◌++◌, arith, contains, contains_iff, length, truthy, inl, inr, Bool-cases, is_nil, sort_by-perm,
  if◌then◌else◌, ◌==◌, eq_iff,
}
use Prim.Native.Char.{Char}
use myco_agent.Text.{
  Chars, chars, chars-text, begins, occurs, contains_text, replace_from, replace, truthy-chars,
}
use myco_agent.Text.Split.{lacks}
use myco_agent.Node.Workspace.{variants, longest_first, replace_all, strip_local_paths}

abbrev marker : Chars
marker = chars "[workspace]"

-- A path from the root of the file system without an opening bracket.
abbrev pub plain_path : Chars → Bool
plain_path v = begins (chars "/") v && lacks b'[' v

module _ (old : Chars) where
  begins-replaced :
      (p cs : Chars)
      → lacks b'[' p ≡ true
      → begins p (replace_from old marker 0 cs) ≡ true
      → begins p cs ≡ true
  begins-replaced [] cs l h = refl
  begins-replaced (d ∷ p) [] l h = h
  begins-replaced (d ∷ p) (c ∷ cs) l h = elim (Bool-cases (begins old (c ∷ cs))) [
    | inl e ↦
        let h' : begins (d ∷ p) (marker ++ replace_from old marker (length old - 1) cs) ≡ true =
          rw e at h in
        absurd (ground (arith, l, h'))
    | inr e ↦
        let h' : begins (d ∷ p) (c ∷ replace_from old marker 0 cs) ≡ true = rw e at h in
        ground (arith, h', begins-replaced p cs (ground (arith, l)) (ground (arith, h')))
  ]

  begins-kept :
      (v : Chars) (c : Char) (cs : Chars)
      → lacks b'[' v ≡ true
      → begins v (c ∷ replace_from old marker 0 cs) ≡ true
      → begins v (c ∷ cs) ≡ true
  begins-kept [] c cs l h = refl
  begins-kept (d ∷ p) c cs l h =
      ground (arith, h, begins-replaced p cs (ground (arith, l)) (ground (arith, h)))

occurs-skip :
    (v xs rest : Chars)
    → begins (chars "/") v ≡ true
    → lacks b'/' xs ≡ true
    → occurs v (xs ++ rest) ≡ occurs v rest
occurs-skip v [] rest b l = refl
occurs-skip [] (x ∷ xs) rest b l = absurd (ground (arith, b))
occurs-skip (d ∷ v) (x ∷ xs) rest b l =
    ground (arith, b, l, occurs-skip (d ∷ v) xs rest b (ground (arith, l)))

-- What does not occur does not come up by a replacement.
occurs-replaced :
    (old v : Chars) (k : ℕ) (cs : Chars)
    → plain_path v ≡ true
    → occurs v cs ≡ false
    → occurs v (replace_from old marker k cs) ≡ false
occurs-replaced old v k [] pl o = o
occurs-replaced old v (suc k) (c ∷ cs) pl o = occurs-replaced old v k cs pl (ground (arith, o))
occurs-replaced old v zero (c ∷ cs) pl o = elim (Bool-cases (begins old (c ∷ cs))) [
  | inl e ↦
      let ih = occurs-replaced old v (length old - 1) cs pl (ground (arith, o)) in
      rw e (occurs-skip v marker _ (ground (arith, pl)) refl ∙ ih)
  | inr e ↦
      let ih = occurs-replaced old v zero cs pl (ground (arith, o)) in
      let kept = begins-kept old v c cs (ground (arith, pl)) in
      elim (Bool-cases (begins v (c ∷ replace_from old marker 0 cs))) [
        | inl b ↦ absurd (ground (arith, o, kept b))
        | inr b ↦ rw (e, b, ih) refl
      ]
]

-- What is replaced is gone.
occurs-gone :
    (v : Chars) (k : ℕ) (cs : Chars)
    → plain_path v ≡ true
    → occurs v (replace_from v marker k cs) ≡ false
occurs-gone [] k [] pl = absurd (ground (arith, pl))
occurs-gone (d ∷ p) k [] pl = refl
occurs-gone v (suc k) (c ∷ cs) pl = occurs-gone v k cs pl
occurs-gone v zero (c ∷ cs) pl = elim (Bool-cases (begins v (c ∷ cs))) [
  | inl e ↦
      rw e (occurs-skip v marker _ (ground (arith, pl)) refl ∙ occurs-gone v (length v - 1) cs pl)
  | inr e ↦ elim (Bool-cases (begins v (c ∷ replace_from v marker 0 cs))) [
    | inl b ↦ absurd (ground (arith, e, begins-kept v v c cs (ground (arith, pl)) b))
    | inr b ↦ rw (e, b, occurs-gone v zero cs pl) refl
  ]
]

module _ (v : String) (pl : plain_path (chars v) ≡ true) where
  contains_text-replace_same :
      (shown : String) → contains_text v (replace v "[workspace]" shown) ≡ false
  unfolding contains_text replace
  contains_text-replace_same shown =
      ap (occurs (chars v)) (chars-text _) ∙ occurs-gone (chars v) 0 (chars shown) pl

  contains_text-replace :
      (old shown : String)
      → contains_text v shown ≡ false
      → contains_text v (replace old "[workspace]" shown) ≡ false
  unfolding contains_text replace
  contains_text-replace old shown h =
      ap (occurs (chars v)) (chars-text _)
      ∙ occurs-replaced (chars old) (chars v) 0 (chars shown) pl h

  replace_step :
      (old shown : String)
      → contains_text v shown ≡ false
      → contains_text v (if truthy old then replace old "[workspace]" shown else shown) ≡ false
  replace_step old shown h = elim (Bool-cases (truthy old)) [
    | inl e ↦ rw e (contains_text-replace old shown h)
    | inr e ↦ rw e h
  ]

  replace_all-keeps :
      (more : List String) (shown : String)
      → contains_text v shown ≡ false
      → contains_text v (replace_all more shown) ≡ false
  unfolding replace_all
  replace_all-keeps [] shown h = h
  replace_all-keeps (old ∷ more) shown h = replace_all-keeps more _ (replace_step old shown h)

  truthy-plain : truthy v ≡ true
  truthy-plain = truthy-chars v ∙ go (chars v) pl
    where
      go : (cs : Chars) → plain_path cs ≡ true → not (is_nil cs) ≡ true
      go [] h = absurd (ground (arith, h))
      go (c ∷ cs) h = refl

  replace_all-hides :
      (more : List String) (shown : String)
      → contains v more ≡ true
      → contains_text v (replace_all more shown) ≡ false
  unfolding replace_all
  replace_all-hides [] shown h = absurd (ground (arith, h))
  replace_all-hides (old ∷ more) shown h = elim (Bool-cases (old == v)) [
    | inl e ↦
        let same : old ≡ v = (eq_iff old v).0 e in
        rw (same, truthy-plain) (replace_all-keeps more _ (contains_text-replace_same shown))
    | inr e ↦ replace_all-hides more _ (ground (arith, e, h))
  ]

  contains_text-empty : contains_text v "" ≡ false
  unfolding contains_text
  contains_text-empty = go (chars v) pl
    where
      go : (cs : Chars) → plain_path cs ≡ true → occurs cs [] ≡ false
      go [] h = absurd (ground (arith, h))
      go (c ∷ cs) h = refl

  -- A path with a slash does not occur in a text without one.
  pub contains_text-lacks :
      (shown : String) → lacks b'/' (chars shown) ≡ true → contains_text v shown ≡ false
  unfolding contains_text
  contains_text-lacks shown l =
      ap (occurs (chars v)) (sym (append-nil (chars shown)))
      ∙ occurs-skip (chars v) (chars shown) [] (ground (arith, pl)) l
      ∙ unfold contains_text in contains_text-empty

  -- No way to write the directory occurs in a text that was stripped of it, where the way begins with a
  -- slash and has no opening bracket.
  pub strip_local_paths-hides :
      (root resolved shown : String)
      → contains v (variants root resolved) ≡ true
      → contains_text v (strip_local_paths root resolved shown) ≡ false
  unfolding strip_local_paths longest_first
  strip_local_paths-hides root resolved shown h = elim (Bool-cases (truthy shown)) [
    | inl e ↦ rw e (
        replace_all-hides _ shown (
          (contains_iff v _).1
            ((Perm.mem_iff (sort_by-perm _ (variants root resolved))).1 ((contains_iff v _).0 h))))
    | inr e ↦
        let same : shown ≡ "" = ground (arith, e, eq_iff shown "") in
        rw (e, same) contains_text-empty
  ]
