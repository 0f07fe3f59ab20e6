-- ===== src/Exec/Agrees.antt =====
-- Two methods that do the same to the object and whose results are related.
use myco_agent.Common.{◌≡◌, refl, subst}
use myco_agent.Exec.{Result, ok, raise, Exec, resume, ◌>>=◌}

module _ {E A B : Type 0} where
  -- Both raise the same, or both return related values.
  abbrev pub Outcomes : (A → B → Type 0) → Result E A → Result E B → Type 0
  Outcomes R (ok a) (ok b) = R a b
  Outcomes R (ok a) (raise f) = ⊥
  Outcomes R (raise e) (ok b) = ⊥
  Outcomes R (raise e) (raise f) = e ≡ f

pub record Agrees {S E A B : Type 0} (R : A → B → Type 0) (m : Exec S E A) (n : Exec S E B)
    : Type 0 where
  pub at : (s : S) → Outcomes R (m s).0 (n s).0 × ((m s).1 ≡ (n s).1)

module _ {E A : Type 0} where
  Outcomes-refl : (R : A → A → Type 0) → ((a : A) → R a a) → (r : Result E A) → Outcomes R r r
  Outcomes-refl R h (ok a) = h a
  Outcomes-refl R h (raise e) = refl

module _ {S E A : Type 0} where
  pub Agrees-refl : (R : A → A → Type 0) → ((a : A) → R a a) → (m : Exec S E A) → Agrees R m m
  Agrees-refl R h m = record { at = λ s. (Outcomes-refl R h (m s).0, refl) }

module _ {S E A B C D : Type 0} where
  pub Agrees-bind :
      (R : A → B → Type 0) (Q : C → D → Type 0) (m : Exec S E A) (n : Exec S E B)
      (f : A → Exec S E C) (g : B → Exec S E D)
      → Agrees R m n
      → ((a : A) (b : B) → R a b → Agrees Q (f a) (g b))
      → Agrees Q (m >>= f) (n >>= g)
  Agrees-bind R Q m n f g mn fg = record {
    at = λ s. go (m s).0 (n s).0 (m s).1 (n s).1 (mn.at s).0 (mn.at s).1;
  }
    where
      go :
          (r : Result E A) (r' : Result E B) (s t : S)
          → Outcomes R r r'
          → s ≡ t
          → Outcomes Q (resume r f s).0 (resume r' g t).0 × ((resume r f s).1 ≡ (resume r' g t).1)
      go (ok a) (ok b) s t rel e =
          subst (λ x. Outcomes Q (f a s).0 (g b x).0 × ((f a s).1 ≡ (g b x).1)) e
            ((fg a b rel).at s)
      go (ok a) (raise y) s t rel e = absurd rel
      go (raise x) (ok b) s t rel e = absurd rel
      go (raise x) (raise y) s t rel e = (rel, e)
