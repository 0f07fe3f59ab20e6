-- ===== src/Cli/Yields.antt =====
-- What holds of a result that a command comes to, where it comes to one.
use myco_agent.Common.{◌≡◌, subst, Bool, true, false, refl, if◌then◌else◌}
use myco_agent.Exec.{ok, raise}
use myco_agent.Cli.{CliError, CliM, ◌>>=◌}

module _ {A : Type 0} where
  abbrev Holds : (A → Type 0) → CliM A → Type 0
  Holds P (ok a) = P a
  Holds P (raise e) = Unit

  pub record Yields (P : A → Type 0) (m : CliM A) : Type 0 where
    pub at : Holds P m

  pub Yields-ok : (P : A → Type 0) (a : A) → P a → Yields P (ok a)
  Yields-ok P a h = record { at = h }

  pub Yields-raise : (P : A → Type 0) (e : CliError) → Yields P (raise e)
  Yields-raise P e = record { at = tt }

  pub Yields-if :
      (P : A → Type 0) (b : Bool) (m n : CliM A)
      → (b ≡ true → Yields P m)
      → (b ≡ false → Yields P n)
      → Yields P (if b then m else n)
  Yields-if P true m n hm hn = hm refl
  Yields-if P false m n hm hn = hn refl

  pub yielded : (P : A → Type 0) (m : CliM A) (a : A) → Yields P m → m ≡ ok a → P a
  yielded P m a h e = subst (Holds P) e h.at

module _ {A B : Type 0} where
  pub Yields-bind :
      (P : A → Type 0) (Q : B → Type 0) (m : CliM A) (f : A → CliM B)
      → Yields P m
      → ((a : A) → P a → Yields Q (f a))
      → Yields Q (m >>= f)
  Yields-bind P Q (ok a) f h k = k a h.at
  Yields-bind P Q (raise e) f h k = record { at = tt }

abbrev pub Any : {A : Type 0} → A → Type 0
Any a = Unit

pub Yields-Any : {A : Type 0} (m : CliM A) → Yields Any m
Yields-Any (ok a) = record { at = tt }
Yields-Any (raise e) = record { at = tt }
