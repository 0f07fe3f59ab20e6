-- ===== src/Table.antt =====
-- Rows with a text key: a SQL table with a TEXT PRIMARY KEY, and a Python dict that holds records.
-- The rows stand in the order of insertion.
pub mod Laws
pub mod Rows
use myco_agent.Common.{String, Option, none, some, List, [], ◌∷◌, map, ◌==◌, if◌then◌else◌}

module _ {A : Type 0} (key : A → String) where
  abbrev pub keys : List A → List String
  keys = map key

  -- SELECT * FROM rows WHERE key = k; rows.get(k)
  unfoldable pub find : String → List A → Option A
  find k [] = none
  find k (a ∷ rows) = if key a == k then some a else find k rows

  -- UPDATE rows SET ... WHERE key = k
  unfoldable pub update : String → (A → A) → List A → List A
  update k f [] = []
  update k f (a ∷ rows) = (if key a == k then f a else a) ∷ update k f rows

  -- rows[k] = a, for the key k of a
  unfoldable pub put : A → List A → List A
  put a [] = a ∷ []
  put a (b ∷ rows) = if key b == key a then a ∷ rows else b ∷ put a rows

  -- DELETE FROM rows WHERE key = k
  unfoldable pub remove : String → List A → List A
  remove k [] = []
  remove k (a ∷ rows) = let rest = remove k rows in if key a == k then rest else a ∷ rest
