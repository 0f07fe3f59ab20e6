-- ===== src/Node/Names/Merged.antt =====
-- `merge_names` of src/mycoagent/node/capabilities.py lists every name once.
use mathlib.Core.List.{Nodup-nil, Nodup-cons, perm_middle, append-nil}
use mathlib.Core.List.Perm
use mathlib.Core.Bool.{false≢true}
use myco_agent.Text.{strip}
use myco_agent.Common.{
  if◌then◌else◌, map, any, ◌&&◌, not, String, ◌≡◌, true, false, ◌||◌, List, [], ◌∷◌, ◌++◌, Nodup,
  arith, inl, inr, contains, contains_iff, truthy, Bool-cases, eq_iff, sym, ◌∙◌, ◌==◌,
}
use myco_agent.Node.Names.{merge_group, merge_groups, merge_names}

-- No name twice, and none that is empty.
pub record Listed (out : List String) : Type 0 where
  pub once : Nodup out
  pub nonempty : (name : String) → contains name out ≡ true → truthy name ≡ true

contains-snoc :
    (x name : String) (out : List String)
    → contains x (out ++ name ∷ []) ≡ (contains x out || name == x)
contains-snoc x name [] = ground arith
contains-snoc x name (y ∷ out) = ground (arith, contains-snoc x name out)

snoc-Listed :
    (out : List String) (name : String)
    → Listed out
    → truthy name ≡ true
    → contains name out ≡ false
    → Listed (out ++ name ∷ [])
snoc-Listed out name v t fresh = record {
  once = Perm.nodup (Perm.symm (perm_middle out [])) (
      Nodup-cons.1 (
        rw append-nil (λ m. false≢true (sym fresh ∙ (contains_iff name out).1 m)),
        rw append-nil v.once,
      ));
  nonempty = λ x h. ground (arith, h, contains-snoc x name out, v.nonempty x, t, eq_iff name x);
}

merge_group-Listed : (items out : List String) → Listed out → Listed (merge_group out items)
unfolding merge_group
merge_group-Listed [] out v = v
merge_group-Listed (item ∷ items) out v =
    merge_group-Listed items _ (elim (Bool-cases (truthy (strip item))) [
      | inr empty ↦ rw empty v
      | inl t ↦ elim (Bool-cases (contains (strip item) out)) [
        | inl known ↦ rw (t, known) v
        | inr fresh ↦ rw (t, fresh) (snoc-Listed out (strip item) v t fresh)
      ]
    ])

merge_groups-Listed :
    (groups : List (List String)) (out : List String)
    → Listed out
    → Listed (merge_groups out groups)
unfolding merge_groups
merge_groups-Listed [] out v = v
merge_groups-Listed (group ∷ groups) out v =
    merge_groups-Listed groups _ (merge_group-Listed group out v)

merge_group-contains :
    (x : String) (items out : List String)
    → contains x (merge_group out items)
      ≡ (contains x out || (truthy x && contains x (map strip items)))
unfolding merge_group
merge_group-contains x [] out = ground arith
merge_group-contains x (item ∷ items) out =
    let name = strip item in
    let next = if not (truthy name) || contains name out then out else out ++ name ∷ [] in
    ground (arith, merge_group-contains x items next, contains-snoc x name out, eq_iff name x)

merge_groups-contains :
    (x : String) (groups : List (List String)) (out : List String)
    → contains x (merge_groups out groups)
      ≡ (contains x out || (truthy x && any (λ group. contains x (map strip group)) groups))
unfolding merge_groups
merge_groups-contains x [] out = ground arith
merge_groups-contains x (group ∷ groups) out = ground (
  arith,
  merge_groups-contains x groups (merge_group out group),
  merge_group-contains x group out,
)

-- The merged names of any groups hold no name twice and no empty one, and they are exactly the names
-- of the groups, with the spaces around them stripped.
pub merge_names-Listed :
    (groups : List (List String))
    → Listed (merge_names groups)
      × ((x : String)
          → contains x (merge_names groups)
            ≡ (truthy x && any (λ group. contains x (map strip group)) groups))
unfolding merge_names
merge_names-Listed groups = (
  merge_groups-Listed groups []
      (record { once = Nodup-nil; nonempty = λ name h. absurd (ground (arith, h)) }),
  λ x. merge_groups-contains x groups [],
)
