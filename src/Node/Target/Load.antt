-- ===== src/Node/Target/Load.antt =====
-- `pick_dispatch_target` of src/mycoagent/node/runtime.py balances the load, and takes turns.
use mathlib.Core.List.{
  not-mem-nil, mem-cons_self, mem-cons_of_mem, eq-or-mem_of_mem-cons, mem-filter,
}
use mathlib.Core.List.Perm
use mathlib.Core.Logic.Or
use mathlib.Core.Logic.{∥∥₁_map}
use myco_agent.Common.{
  ℕ, suc, zero, ◌+◌, ◌-◌, ◌%◌, ◌≤◌, ◌<◌, ◌≡◌, refl, sym, ap, subst, ◌∙◌, String, Bool, some, List,
  [], ◌∷◌, Mem, Perm, arith, inl, inr, ◌↔◌, leb, nat_eq, sort_by, sort_by-perm, keep, length,
  dec_true, Bool-cases,
}
use myco_agent.Models.{NodeRecord}
use native.Mathlib.Bridge.{le_prop}
use native.Mathlib.Nat.{mod-lt, mod-add-mod, add-mod_right, mod-eq_of_lt}
use myco_agent.Node.Target.{load, least, get_elem?, by_id, pool_of, pick_dispatch_target}

module _ {A : Type 0} (f : A → ℕ) where
  least-le : (a : A) (rest : List A) (b : A) → Mem b (a ∷ rest) → least f a rest ≤ f b
  unfolding least
  least-le a [] b m =
      Or.elim le_prop (eq-or-mem_of_mem-cons m) (λ e. rw e (omega arith))
        (λ t. absurd (not-mem-nil t))
  least-le a (c ∷ rest) b m =
      Or.elim le_prop (eq-or-mem_of_mem-cons m) (λ e. rw e (ground arith))
        (λ t. let h = least-le c rest b t in ground (arith, h))

  least-attained : (a : A) (rest : List A) → (b : A) × Mem b (a ∷ rest) × (f b ≡ least f a rest)
  unfolding least
  least-attained a [] = (a, mem-cons_self, refl)
  least-attained a (c ∷ rest) = elim (Bool-cases (leb (f a) (least f c rest))) [
    | inl e ↦ (a, mem-cons_self, ground (arith, e))
    | inr e ↦
        (let (b, m, h) = least-attained c rest in (b, mem-cons_of_mem a m, ground (arith, e, h)))
  ]

module _ {A : Type 0} where
  get_elem?-lt : (xs : List A) (i : ℕ) → i < length xs → (a : A) × (get_elem? xs i ≡ some a)
  unfolding get_elem?
  get_elem?-lt [] i h = absurd (omega arith)
  get_elem?-lt (x ∷ xs) zero h = (x, refl)
  get_elem?-lt (x ∷ xs) (suc i) h = get_elem?-lt xs i (omega arith)

  get_elem?-mem : (xs : List A) (i : ℕ) (a : A) → get_elem? xs i ≡ some a → Mem a xs
  unfolding get_elem?
  get_elem?-mem [] i a h = cc
  get_elem?-mem (x ∷ xs) zero a h = subst (λ y. Mem y (x ∷ xs)) (ground arith) mem-cons_self
  get_elem?-mem (x ∷ xs) (suc i) a h = mem-cons_of_mem x (get_elem?-mem xs i a h)

  mem-length : (xs : List A) (a : A) → Mem a xs → 0 < length xs
  mem-length [] a m = absurd (not-mem-nil m)
  mem-length (x ∷ xs) a m = omega arith

-- Starting at any count, `n` consecutive counts reach every slot of `n`.
turn : (r n i : ℕ) → i < n → (k : ℕ) × (k < n) × ((r + k) % n ≡ i)
turn r n i h =
    let small = mod-lt r {m = n} (omega arith) in
    elim (Bool-cases (leb (r % n) i)) [
      | inl e ↦
          let le : r % n ≤ i = ground (arith, e) in
          (
            i - r % n,
            omega arith,
            sym (mod-add-mod r n (i - r % n))
                ∙ ap (λ x. x % n) (omega (arith, le))
                ∙ mod-eq_of_lt h,
          )
      | inr e ↦
          let lt : i < r % n = ground (arith, e) in
          (
            i + n - r % n,
            omega arith,
            sym (mod-add-mod r n (i + n - r % n))
                ∙ ap (λ x. x % n) (omega (arith, lt, small))
                ∙ add-mod_right i n
                ∙ mod-eq_of_lt h,
          )
    ]

index_of :
    {A : Type 0} (xs : List A) (a : A)
    → Mem a xs
    → ∥ ((i : ℕ) × (i < length xs) × (get_elem? xs i ≡ some a)) ∥₁
unfolding get_elem?
index_of [] a m = absurd (not-mem-nil m)
index_of (x ∷ xs) a m =
    Or.elim squash₁ (eq-or-mem_of_mem-cons m) (λ e. ∣ (zero, omega arith, ap some (sym e)) ∣₁)
      (λ t. ∥∥₁_map (index_of xs a t) (λ (i, h, e). (suc i, omega (arith, h), e)))

-- The candidates that no candidate is less loaded than.
abbrev pub LeastLoaded : List (String × ℕ) → List NodeRecord → NodeRecord → Type 0
LeastLoaded inflight candidates node =
    Mem node candidates
    × ((n : NodeRecord) → Mem n candidates → load inflight node ≤ load inflight n)

mem-pool_of :
    (inflight : List (String × ℕ)) (first : NodeRecord) (rest : List NodeRecord) (node : NodeRecord)
    → Mem node (pool_of inflight first rest) ↔ LeastLoaded inflight (first ∷ rest) node
unfolding pool_of
mem-pool_of inflight first rest node = (there, back)
  where
    f : NodeRecord → ℕ
    f = load inflight

    p : NodeRecord → Bool
    p n = nat_eq (load inflight n) (least (load inflight) first rest)

    sorted : Perm (sort_by by_id (keep p (first ∷ rest))) (keep p (first ∷ rest))
    sorted = sort_by-perm by_id (keep p (first ∷ rest))

    there :
        Mem node (sort_by by_id (keep p (first ∷ rest))) → LeastLoaded inflight (first ∷ rest) node
    there m =
        let (kept, t) =
          (mem-filter (λ (a : NodeRecord). dec_true (p a))).0 ((Perm.mem_iff sorted).0 m) in
        (kept, λ n h. (let le = least-le f first rest n h in ground (arith, t, le)))

    back :
        LeastLoaded inflight (first ∷ rest) node → Mem node (sort_by by_id (keep p (first ∷ rest)))
    back (m, le) =
        let (b, at, e) = least-attained f first rest in
        let low = le b at in
        let high = least-le f first rest node m in
        (Perm.mem_iff sorted).1
          ((mem-filter (λ (a : NodeRecord). dec_true (p a))).1 (m, ground (arith, e, low, high)))

pool_of-nonempty :
    (inflight : List (String × ℕ)) (first : NodeRecord) (rest : List NodeRecord)
    → 0 < length (pool_of inflight first rest)
pool_of-nonempty inflight first rest =
    let (b, m, e) = least-attained (load inflight) first rest in
    mem-length (pool_of inflight first rest) b (
      (mem-pool_of inflight first rest b).1
        (m, λ n h. rw e (least-le (load inflight) first rest n h)))

picked :
    (first : NodeRecord) (rest : List NodeRecord) (inflight : List (String × ℕ)) (round_robin : ℕ)
    (chosen : NodeRecord)
    → get_elem? (pool_of inflight first rest) (round_robin % length (pool_of inflight first rest))
      ≡ some chosen
    → pick_dispatch_target (first ∷ rest) inflight round_robin ≡ some (chosen, round_robin + 1)
unfolding pick_dispatch_target
picked first rest inflight round_robin chosen e = rw (e, pick_dispatch_target) refl

-- From any candidates the dispatcher picks one that none is less loaded than, and counts one turn.
pub pick_dispatch_target-least :
    (first : NodeRecord) (rest : List NodeRecord) (inflight : List (String × ℕ)) (round_robin : ℕ)
    → (chosen : NodeRecord) × (pick_dispatch_target (first ∷ rest) inflight round_robin
        ≡ some (chosen, round_robin + 1))
      × LeastLoaded inflight (first ∷ rest) chosen
pick_dispatch_target-least first rest inflight round_robin =
    let pool = pool_of inflight first rest in
    let small = mod-lt round_robin {m = length pool} (pool_of-nonempty inflight first rest) in
    let (chosen, e) = get_elem?-lt pool (round_robin % length pool) small in
    (
      chosen,
      picked first rest inflight round_robin chosen e,
      (mem-pool_of inflight first rest chosen).0 (get_elem?-mem pool _ chosen e),
    )

-- While the loads stay as they are, no least loaded candidate is starved: it is picked within as
-- many turns as there are such candidates.
pub pick_dispatch_target-fair :
    (first : NodeRecord) (rest : List NodeRecord) (inflight : List (String × ℕ)) (round_robin : ℕ)
    (node : NodeRecord)
    → LeastLoaded inflight (first ∷ rest) node
    → ∥ (
        (k : ℕ) × (k < length (pool_of inflight first rest))
        × (pick_dispatch_target (first ∷ rest) inflight (round_robin + k)
            ≡ some (node, round_robin + k + 1))) ∥₁
pick_dispatch_target-fair first rest inflight round_robin node least_loaded =
    let pool = pool_of inflight first rest in
    ∥∥₁_map (index_of pool node ((mem-pool_of inflight first rest node).1 least_loaded))
      (λ (i, h, e).
        let (k, small, at) = turn round_robin (length pool) i h in
        (
          k,
          small,
          picked first rest inflight (round_robin + k) node (ap (λ x. get_elem? pool x) at ∙ e),
        ))
