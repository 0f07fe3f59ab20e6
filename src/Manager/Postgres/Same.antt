-- ===== src/Manager/Postgres/Same.antt =====
-- When what the two stores return is the same but for the order that a collation gives.
use mathlib.Core.List.Perm
use myco_agent.Common.{◌≡◌, Bool, List, [], ◌∷◌, Perm, sort_by, sort_by-perm}
use myco_agent.Models.{GroupInfo}

-- The same group, with its lists of ids in any order.
pub record SameGroup (a b : GroupInfo) : Type 0 where
  pub policy : record a { member_ids = b.member_ids; pending_ids = b.pending_ids } ≡ b
  pub members : Perm a.member_ids b.member_ids
  pub pending : Perm a.pending_ids b.pending_ids

abbrev pub AllSame : List GroupInfo → List GroupInfo → Type 0
AllSame [] [] = Unit
AllSame (a ∷ xs) (b ∷ ys) = SameGroup a b × AllSame xs ys
AllSame _ _ = ⊥

-- The same groups, in any order
abbrev pub SameListing : List GroupInfo → List GroupInfo → Type 0
SameListing xs ys = (zs : List GroupInfo) × Perm xs zs × AllSame zs ys

pub resorted :
    {A : Type 0} (le le' : A → A → Bool) (xs : List A) → Perm (sort_by le xs) (sort_by le' xs)
resorted le le' xs = Perm.trans (sort_by-perm le xs) (Perm.symm (sort_by-perm le' xs))
