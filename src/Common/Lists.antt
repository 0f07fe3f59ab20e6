-- ===== src/Common/Lists.antt =====
-- Lists: native lengths, Python's `in`, `any`, `all`, comprehensions with a test, and `sorted`.
use Prim.Native.Nat.{ℕ, suc, ◌+◌}
use Prim.Native.String.{String}
use mathlib.Core.Path.{◌≡◌, refl, ap, ◌∙◌}
use mathlib.Core.Logic.{◌↔◌, inl, inr}
use mathlib.Core.Logic.Or
use mathlib.Core.Bool.{Bool, true, false, ◌&&◌, ◌||◌, Bool-set}
use mathlib.Core.List.{
  List, [], ◌∷◌, ◌++◌, map, filter, Mem, Perm, not-mem-nil, mem-cons_self, mem-cons_of_mem,
  eq-or-mem_of_mem-cons,
}
use mathlib.Core.List.Perm
use native.Mathlib.Omega.{arith}
use text.Mathlib.Text.{◌==◌}
use text.Mathlib.TextEquality.{eq_iff}
use myco_agent.Common.Tests.{if◌then◌else◌, dec_true, Bool-cases}

module _ {ℓ} {A : Type ℓ} where
  abbrev pub length : List A → ℕ
  length [] = 0
  length (x ∷ xs) = suc (length xs)

  pub length-append : (xs ys : List A) → length (xs ++ ys) ≡ length xs + length ys
  length-append [] ys = omega arith
  length-append (x ∷ xs) ys = omega (arith, length-append xs ys)

  -- `[x for x in xs if p(x)]`
  abbrev pub keep : (A → Bool) → List A → List A
  keep p = filter (λ a. dec_true (p a))

  abbrev pub any : (A → Bool) → List A → Bool
  any p [] = false
  any p (x ∷ xs) = p x || any p xs

  abbrev pub all : (A → Bool) → List A → Bool
  all p [] = true
  all p (x ∷ xs) = p x && all p xs

  insert_by : (A → A → Bool) → A → List A → List A
  insert_by le x [] = x ∷ []
  insert_by le x (y ∷ ys) = if le x y then x ∷ (y ∷ ys) else y ∷ insert_by le x ys

  -- A stable sort by the order `le`.
  unfoldable pub sort_by : (A → A → Bool) → List A → List A
  unfolding insert_by
  sort_by le [] = []
  sort_by le (x ∷ xs) = insert_by le x (sort_by le xs)

  insert_by-all :
      (le : A → A → Bool) (p : A → Bool) (x : A) (xs : List A)
      → all p (insert_by le x xs) ≡ (p x && all p xs)
  unfolding insert_by
  insert_by-all le p x [] = ground arith
  insert_by-all le p x (y ∷ ys) = ground (arith, insert_by-all le p x ys)

  pub all-sort_by :
      (le : A → A → Bool) (p : A → Bool) (xs : List A) → all p (sort_by le xs) ≡ all p xs
  unfolding sort_by
  all-sort_by le p [] = ground arith
  all-sort_by le p (x ∷ xs) =
      ground (arith, insert_by-all le p x (sort_by le xs), all-sort_by le p xs)

  -- A sort of what keeps its place in the order
  module _ (le : A → A → Bool) (f : A → A) (kept : (a b : A) → le (f a) (f b) ≡ le a b) where
    insert_by-map :
        (x : A) (xs : List A) → insert_by le (f x) (map f xs) ≡ map f (insert_by le x xs)
    unfolding insert_by
    insert_by-map x [] = refl
    insert_by-map x (y ∷ ys) = elim (Bool-cases (le x y)) [
      | inl e ↦ rw (kept x y, e) refl
      | inr e ↦ rw (kept x y, e) (ap (◌∷◌ (f y)) (insert_by-map x ys))
    ]

    pub sort_by-map : (xs : List A) → sort_by le (map f xs) ≡ map f (sort_by le xs)
    unfolding sort_by
    sort_by-map [] = refl
    sort_by-map (x ∷ xs) =
        ap (insert_by le (f x)) (sort_by-map xs) ∙ insert_by-map x (sort_by le xs)

  pub keep-map :
      (p : A → Bool) (f : A → A)
      → ((a : A) → p (f a) ≡ p a)
      → (xs : List A) → keep p (map f xs) ≡ map f (keep p xs)
  keep-map p f same [] = refl
  keep-map p f same (x ∷ xs) = elim (Bool-cases (p x)) [
    | inl e ↦ rw (same x, e) (ap (◌∷◌ (f x)) (keep-map p f same xs))
    | inr e ↦ rw (same x, e) (keep-map p f same xs)
  ]

  insert_by-perm : (le : A → A → Bool) (x : A) (xs : List A) → Perm (insert_by le x xs) (x ∷ xs)
  unfolding insert_by
  insert_by-perm le x [] = Perm.refl _
  insert_by-perm le x (y ∷ ys) =
      let swapped = Perm.trans (Perm.cons y (insert_by-perm le x ys)) (Perm.swap x y ys) in
      ground (arith, swapped, Perm.refl (x ∷ (y ∷ ys)))

  pub sort_by-perm : (le : A → A → Bool) (xs : List A) → Perm (sort_by le xs) xs
  unfolding sort_by
  sort_by-perm le [] = Perm.refl _
  sort_by-perm le (x ∷ xs) =
      Perm.trans (insert_by-perm le x (sort_by le xs)) (Perm.cons x (sort_by-perm le xs))

-- `name in names`
abbrev pub contains : String → List String → Bool
contains x [] = false
contains x (y ∷ ys) = y == x || contains x ys

contains→mem : (x : String) (xs : List String) → contains x xs ≡ true → Mem x xs
contains→mem x [] h = absurd (ground arith)
contains→mem x (y ∷ ys) h = elim (Bool-cases (y == x)) [
  | inl e ↦ rw ((eq_iff y x).0 e) mem-cons_self
  | inr e ↦ mem-cons_of_mem y (contains→mem x ys (ground arith))
]

mem→contains : (x : String) (xs : List String) → Mem x xs → contains x xs ≡ true
mem→contains x [] m = absurd (not-mem-nil m)
mem→contains x (y ∷ ys) m =
    Or.elim (Bool-set _ _) (eq-or-mem_of_mem-cons m) (λ e. ground (arith, eq_iff y x))
      (λ t. ground (arith, mem→contains x ys t))

pub contains_iff : (x : String) (xs : List String) → (contains x xs ≡ true) ↔ Mem x xs
contains_iff x xs = (contains→mem x xs, mem→contains x xs)

-- Steps that commute lead to the same from a list in any order.
module _ {A S : Type 0} (step : A → S → S) where
  abbrev pub run_all : List A → S → S
  run_all [] s = s
  run_all (x ∷ xs) s = run_all xs (step x s)

  module _ (commute : (a b : A) (s : S) → step a (step b s) ≡ step b (step a s)) where
    insert_by-run_all :
        (le : A → A → Bool) (x : A) (xs : List A) (s : S)
        → run_all (insert_by le x xs) s ≡ run_all (x ∷ xs) s
    unfolding insert_by
    insert_by-run_all le x [] s = refl
    insert_by-run_all le x (y ∷ ys) s = elim (Bool-cases (le x y)) [
      | inl e ↦ rw e refl
      | inr e ↦ rw e (insert_by-run_all le x ys (step y s) ∙ ap (run_all ys) (commute x y s))
    ]

    pub run_all-sort_by :
        (le : A → A → Bool) (xs : List A) (s : S) → run_all (sort_by le xs) s ≡ run_all xs s
    unfolding sort_by
    run_all-sort_by le [] s = refl
    run_all-sort_by le (x ∷ xs) s =
        insert_by-run_all le x (sort_by le xs) s ∙ run_all-sort_by le xs (step x s)
