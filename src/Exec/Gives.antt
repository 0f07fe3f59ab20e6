-- ===== src/Exec/Gives.antt =====
-- What holds of the result of a method, where it returns one.
use myco_agent.Common.{◌≡◌, refl, ap, subst, Bool, true, false, if◌then◌else◌}
use myco_agent.Exec.{Exec, Result, ok, raise, pure, throw, resume, ◌>>=◌}

module _ {E A : Type 0} where
  abbrev Holds : (A → Type 0) → Result E A → Type 0
  Holds P (ok a) = P a
  Holds P (raise e) = Unit

abbrev pub Anything : {A : Type 0} → A → Type 0
Anything a = Unit

module _ {E A : Type 0} where
  Holds-any : (r : Result E A) → Holds Anything r
  Holds-any (ok a) = tt
  Holds-any (raise e) = tt

pub record Gives {S E A : Type 0} (P : A → Type 0) (m : Exec S E A) : Type 0 where
  pub at : (s : S) → Holds P (m s).0

module _ {S E A : Type 0} where
  pub Gives-pure : (P : A → Type 0) (a : A) → P a → Gives {S = S} {E = E} P (pure a)
  Gives-pure P a h = record { at = λ s. h }

  pub Gives-throw : (P : A → Type 0) (e : E) → Gives {S = S} P (throw e)
  Gives-throw P e = record { at = λ s. tt }

  pub Gives-any : (m : Exec S E A) → Gives Anything m
  Gives-any m = record { at = λ s. Holds-any (m s).0 }

  pub Gives-if :
      (P : A → Type 0) (b : Bool) (m n : Exec S E A)
      → (b ≡ true → Gives P m)
      → (b ≡ false → Gives P n)
      → Gives P (if b then m else n)
  Gives-if P true m n hm hn = hm refl
  Gives-if P false m n hm hn = hn refl

  pub given_by :
      (P : A → Type 0) (m : Exec S E A) (s s' : S) (a : A) → Gives P m → m s ≡ (ok a, s') → P a
  given_by P m s s' a h e = subst (Holds P) (ap (λ r. r.0) e) (h.at s)

module _ {S E A B : Type 0} where
  Holds-resume :
      (P : A → Type 0) (Q : B → Type 0) (r : Result E A) (f : A → Exec S E B) (s : S)
      → Holds P r
      → ((a : A) → P a → Gives Q (f a))
      → Holds Q (resume r f s).0
  Holds-resume P Q (ok a) f s h k = (k a h).at s
  Holds-resume P Q (raise e) f s h k = tt

  pub Gives-bind :
      (P : A → Type 0) (Q : B → Type 0) (m : Exec S E A) (f : A → Exec S E B)
      → Gives P m
      → ((a : A) → P a → Gives Q (f a))
      → Gives Q (m >>= f)
  Gives-bind P Q m f hm hf = record {
    at = λ s. let (r, s') = m s in Holds-resume P Q r f s' (hm.at s) hf;
  }

  -- A step whose result is not looked at
  pub Gives-after :
      (Q : B → Type 0) (m : Exec S E A) (f : A → Exec S E B)
      → ((a : A) → Gives Q (f a))
      → Gives Q (m >>= f)
  Gives-after Q m f hf = Gives-bind Anything Q m f (Gives-any m) (λ a any. hf a)
