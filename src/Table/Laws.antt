-- ===== src/Table/Laws.antt =====
-- What `find` sees of a table after each of its operations.
use mathlib.Core.Option
use myco_agent.Common.{
  String, ◌≡◌, refl, Option, none, some, List, [], ◌∷◌, ◌++◌, map, arith, ◌==◌, eq_iff,
  if◌then◌else◌,
}
use myco_agent.Table.{keys, find, update, put, remove}

abbrev pub or_else : {A : Type 0} → Option A → Option A → Option A
or_else none b = b
or_else (some a) b = some a

module _ {A : Type 0} (key : A → String) where
  pub find_key : (k : String) (rows : List A) (a : A) → find key k rows ≡ some a → key a ≡ k
  unfolding find
  find_key k [] a h = cc
  find_key k (b ∷ rows) a h = ground (arith, eq_iff (key b) k, find_key k rows a)

  pub find-update :
      (k j : String) (f : A → A) (rows : List A)
      → ((a : A) → key (f a) ≡ key a)
      → find key j (update key k f rows)
        ≡ (if k == j then Option.map f (find key j rows) else find key j rows)
  unfolding find update
  find-update k j f [] same = ground arith
  find-update k j f (a ∷ rows) same = ground (
    arith,
    find-update k j f rows same,
    same a,
    eq_iff (key a) k,
    eq_iff (key a) j,
    eq_iff k j,
    eq_iff (key (f a)) j,
  )

  pub find-map :
      (j : String) (f : A → A) (rows : List A)
      → ((a : A) → key (f a) ≡ key a)
      → find key j (map f rows) ≡ Option.map f (find key j rows)
  unfolding find
  find-map j f [] same = refl
  find-map j f (a ∷ rows) same =
      ground (arith, find-map j f rows same, same a, eq_iff (key a) j, eq_iff (key (f a)) j)

  pub find-append :
      (j : String) (rows more : List A)
      → find key j (rows ++ more) ≡ or_else (find key j rows) (find key j more)
  unfolding find
  find-append j [] more = refl
  find-append j (a ∷ rows) more = ground (arith, find-append j rows more)

  pub find-put :
      (j : String) (a : A) (rows : List A)
      → find key j (put key a rows) ≡ (if key a == j then some a else find key j rows)
  unfolding find put
  find-put j a [] = refl
  find-put j a (b ∷ rows) =
      ground (arith, find-put j a rows, eq_iff (key b) (key a), eq_iff (key b) j, eq_iff (key a) j)

  pub find-remove :
      (k j : String) (rows : List A)
      → find key j (remove key k rows) ≡ (if k == j then none else find key j rows)
  unfolding find remove
  find-remove k j [] = ground arith
  find-remove k j (a ∷ rows) =
      ground (arith, find-remove k j rows, eq_iff (key a) k, eq_iff (key a) j, eq_iff k j)

  pub keys-update :
      (k : String) (f : A → A) (rows : List A)
      → ((a : A) → key (f a) ≡ key a)
      → keys key (update key k f rows) ≡ keys key rows
  unfolding update
  keys-update k f [] same = refl
  keys-update k f (a ∷ rows) same = ground (arith, keys-update k f rows same, same a)

  pub keys-map :
      (f : A → A) (rows : List A)
      → ((a : A) → key (f a) ≡ key a)
      → keys key (map f rows) ≡ keys key rows
  keys-map f [] same = refl
  keys-map f (a ∷ rows) same = cc (keys-map f rows same, same a)
