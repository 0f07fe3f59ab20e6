-- ===== src/Common/Quantifiers.antt =====
-- `any` and `all` as statements about the members of a list.
use mathlib.Core.Logic.Or
use mathlib.Core.Logic.{◌↔◌, ∥∥₁_elim, ∥∥₁_map}
use mathlib.Core.Path.{◌≡◌, refl}
use mathlib.Core.Bool.{Bool, true, Bool-set}
use mathlib.Core.Logic.{inl, inr}
use mathlib.Core.List.{
  List, [], ◌∷◌, Mem, not-mem-nil, mem-cons_self, mem-cons_of_mem, eq-or-mem_of_mem-cons,
}
use native.Mathlib.Omega.{arith}
use myco_agent.Common.Lists.{any, all}
use myco_agent.Common.Tests.{Bool-cases}

module _ {A : Type 0} (p : A → Bool) where
  abbrev pub Exists : List A → Type 0
  Exists xs = ∥ ((x : A) × Mem x xs × (p x ≡ true)) ∥₁

  any→exists : (xs : List A) → any p xs ≡ true → Exists xs
  any→exists [] h = absurd (ground arith)
  any→exists (x ∷ xs) h = elim (Bool-cases (p x)) [
    | inl e ↦ ∣ (x, mem-cons_self, e) ∣₁
    | inr e ↦ ∥∥₁_map (any→exists xs (ground arith)) (λ (y, m, q). (y, mem-cons_of_mem x m, q))
  ]

  any_of_mem : (xs : List A) (x : A) → Mem x xs → p x ≡ true → any p xs ≡ true
  any_of_mem [] x m h = absurd (not-mem-nil m)
  any_of_mem (y ∷ ys) x m h =
      Or.elim (Bool-set _ _) (eq-or-mem_of_mem-cons m) (λ e. rw (← e) (ground arith))
        (λ t. ground (arith, any_of_mem ys x t h))

  pub any_iff : (xs : List A) → (any p xs ≡ true) ↔ Exists xs
  any_iff xs = (any→exists xs, λ t. ∥∥₁_elim t (Bool-set _ _) (λ (x, m, h). any_of_mem xs x m h))

  all→mem : (xs : List A) → all p xs ≡ true → (x : A) → Mem x xs → p x ≡ true
  all→mem [] h x m = absurd (not-mem-nil m)
  all→mem (y ∷ ys) h x m =
      Or.elim (Bool-set _ _) (eq-or-mem_of_mem-cons m) (λ e. rw e (ground arith))
        (λ t. all→mem ys (ground arith) x t)

  mem→all : (xs : List A) → ((x : A) → Mem x xs → p x ≡ true) → all p xs ≡ true
  mem→all [] h = refl
  mem→all (y ∷ ys) h = rw (h y mem-cons_self) (mem→all ys (λ x m. h x (mem-cons_of_mem y m)))

  pub all_iff : (xs : List A) → (all p xs ≡ true) ↔ ((x : A) → Mem x xs → p x ≡ true)
  all_iff xs = (all→mem xs, mem→all xs)
