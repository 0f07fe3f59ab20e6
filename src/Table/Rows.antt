-- ===== src/Table/Rows.antt =====
-- Membership of rows, and keys that stay distinct.
use mathlib.Core.HLevel.{⊥_prop}
use mathlib.Core.Logic.Or
use mathlib.Core.List.{
  not-mem-nil, mem-cons_self, mem-cons_of_mem, eq-or-mem_of_mem-cons, Nodup-cons, map-append,
  perm_middle, append-nil, nil-sublist, Sublist, Mem-prop, mem-append, mem-map_of_mem,
}
use mathlib.Core.List.Nodup
use mathlib.Core.List.Perm
use mathlib.Core.List.Sublist
use mathlib.Core.Option.{is_set}
use myco_agent.Common.{
  eq_refl, String, Bool, true, false, keep, if◌then◌else◌, map, ◌≡◌, refl, sym, subst, inl, inr,
  none, some, List, [], ◌∷◌, ◌++◌, Mem, Nodup, arith, ◌==◌, eq_iff, is_some, Bool-cases,
  Option-cases,
}
use myco_agent.Table.Laws.{find_key}
use myco_agent.Table.{keys, find, put, remove, update}

module _ {A : Type 0} (key : A → String) where
  pub find-mem : (k : String) (rows : List A) (a : A) → find key k rows ≡ some a → Mem a rows
  unfolding find
  find-mem k [] a h = cc
  find-mem k (b ∷ rows) a h = elim (Bool-cases (key b == k)) [
    | inl e ↦ subst (λ x. Mem x (b ∷ rows)) (ground arith) mem-cons_self
    | inr e ↦ mem-cons_of_mem b (find-mem k rows a (ground arith))
  ]

  pub not-mem_of_find-none :
      (k : String) (rows : List A) → find key k rows ≡ none → ¬ Mem k (keys key rows)
  unfolding find
  not-mem_of_find-none k [] h = not-mem-nil
  not-mem_of_find-none k (b ∷ rows) h = λ m.
      Or.elim ⊥_prop (eq-or-mem_of_mem-cons m) (λ e. ground (arith, eq_iff (key b) k))
        (not-mem_of_find-none k rows (ground (arith, eq_iff (key b) k)))

  pub find-none_of_not-mem :
      (k : String) (rows : List A) → ¬ Mem k (keys key rows) → find key k rows ≡ none
  unfolding find
  find-none_of_not-mem k [] h = refl
  find-none_of_not-mem k (b ∷ rows) h = elim (Bool-cases (key b == k)) [
    | inl e ↦ absurd (h (rw (← (eq_iff (key b) k).0 e) mem-cons_self))
    | inr e ↦ rw e (find-none_of_not-mem k rows (λ m. h (mem-cons_of_mem (key b) m)))
  ]

  pub All-put :
      (P : A → Type 0) (a : A) (rows : List A)
      → ((b : A) → IsProp (P b))
      → P a
      → ((b : A) → Mem b rows → P b)
      → (b : A) → Mem b (put key a rows)
      → P b
  unfolding put
  All-put P a [] prop new h b m =
      Or.elim (prop b) (eq-or-mem_of_mem-cons m) (λ e. subst P (sym e) new)
        (λ t. absurd (not-mem-nil t))
  All-put P a (c ∷ rows) prop new h b m = elim (Bool-cases (key c == key a)) [
    | inl e ↦
        Or.elim (prop b) (eq-or-mem_of_mem-cons (rw e at m)) (λ x. subst P (sym x) new)
          (λ t. h b (mem-cons_of_mem c t))
    | inr e ↦
        Or.elim (prop b) (eq-or-mem_of_mem-cons (rw e at m))
          (λ x. subst P (sym x) (h c mem-cons_self))
          (All-put P a rows prop new (λ d t. h d (mem-cons_of_mem c t)) b)
  ]

  pub Nodup-snoc :
      (rows : List A) (a : A)
      → find key (key a) rows ≡ none
      → Nodup (keys key rows)
      → Nodup (keys key (rows ++ a ∷ []))
  Nodup-snoc rows a h d = rw map-append (
      Perm.nodup (Perm.symm (perm_middle (keys key rows) []))
        (Nodup-cons.1 (rw append-nil (not-mem_of_find-none (key a) rows h), rw append-nil d)))

  remove-sublist :
      (k : String) (rows : List A) → Sublist (keys key (remove key k rows)) (keys key rows)
  unfolding remove
  remove-sublist k [] = nil-sublist []
  remove-sublist k (a ∷ rows) = ground (
    arith,
    Sublist.cons-cons (key a) (remove-sublist k rows),
    Sublist.cons (key a) (remove-sublist k rows),
  )

  pub Nodup-remove :
      (k : String) (rows : List A) → Nodup (keys key rows) → Nodup (keys key (remove key k rows))
  Nodup-remove k rows d = Nodup.sublist (remove-sublist k rows) d

  put_known :
      (a : A) (rows : List A)
      → is_some (find key (key a) rows) ≡ true
      → keys key (put key a rows) ≡ keys key rows
  unfolding find put
  put_known a [] h = absurd (ground arith)
  put_known a (b ∷ rows) h = ground (arith, put_known a rows, eq_iff (key b) (key a))

  pub put_new :
      (a : A) (rows : List A) → find key (key a) rows ≡ none → put key a rows ≡ rows ++ a ∷ []
  unfolding find put
  put_new a [] h = refl
  put_new a (b ∷ rows) h = ground (arith, put_new a rows, eq_iff (key b) (key a))

  pub Nodup-put :
      (a : A) (rows : List A) → Nodup (keys key rows) → Nodup (keys key (put key a rows))
  Nodup-put a rows d = elim (Option-cases (find key (key a) rows)) [
    | inl e ↦ rw (put_new a rows e) (Nodup-snoc rows a e d)
    | inr (b, e) ↦ rw (put_known a rows (rw e)) d
  ]

  keep-sublist : (p : A → Bool) (rows : List A) → Sublist (keys key (keep p rows)) (keys key rows)
  keep-sublist p [] = nil-sublist []
  keep-sublist p (a ∷ rows) = ground (
    arith,
    Sublist.cons-cons (key a) (keep-sublist p rows),
    Sublist.cons (key a) (keep-sublist p rows),
  )

  pub Nodup-keep :
      (p : A → Bool) (rows : List A) → Nodup (keys key rows) → Nodup (keys key (keep p rows))
  Nodup-keep p rows d = Nodup.sublist (keep-sublist p rows) d

  -- With distinct keys a row is the one that its key finds.
  pub find_of_mem :
      IsSet A
      → (rows : List A) (a : A) → Nodup (keys key rows)
      → Mem a rows
      → find key (key a) rows ≡ some a
  unfolding find
  find_of_mem set [] a d m = absurd (not-mem-nil m)
  find_of_mem set (b ∷ rows) a d m =
      let (fresh, rest) = Nodup-cons.0 d in
      Or.elim (is_set set _ _) (eq-or-mem_of_mem-cons m)
        (λ e. rw e (ground (arith, eq_refl (key b))))
        (λ t. elim (Bool-cases (key b == key a)) [
          | inl same ↦ absurd (fresh (rw ((eq_iff (key b) (key a)).0 same) (mem-map_of_mem key t)))
          | inr other ↦ rw other (find_of_mem set rows a rest t)
        ])

  mem-keys_of_find :
      (k : String) (rows : List A) (a : A) → find key k rows ≡ some a → Mem k (keys key rows)
  mem-keys_of_find k rows a h =
      subst (λ x. Mem x (keys key rows)) (find_key key k rows a h)
        (mem-map_of_mem key (find-mem k rows a h))

  -- With distinct keys, a row that is found among those kept is the row that was found before.
  pub find_of_find-keep :
      (p : A → Bool) (k : String) (rows : List A) (a : A)
      → Nodup (keys key rows)
      → find key k (keep p rows) ≡ some a
      → find key k rows ≡ some a
  unfolding find
  find_of_find-keep p k [] a d h = cc
  find_of_find-keep p k (b ∷ rows) a d h =
      let (fresh, rest) = Nodup-cons.0 d in
      elim (Bool-cases (p b)) [
        | inl e ↦ let h' = rw e at h in ground (arith, find_of_find-keep p k rows a rest)
        | inr e ↦
            let h' = rw e at h in
            let before = find_of_find-keep p k rows a rest h' in
            elim (Bool-cases (key b == k)) [
              | inl same ↦
                  absurd (fresh (rw ((eq_iff (key b) k).0 same) (mem-keys_of_find k rows a before)))
              | inr other ↦ rw other before
            ]
      ]

  pub mem-keys-remove :
      (k x : String) (rows : List A)
      → (x == k) ≡ false
      → Mem x (keys key rows)
      → Mem x (keys key (remove key k rows))
  unfolding remove
  mem-keys-remove k x [] ne m = m
  mem-keys-remove k x (a ∷ rows) ne m =
      Or.elim Mem-prop (eq-or-mem_of_mem-cons m)
        (λ e. elim (Bool-cases (key a == k)) [
          | inl t ↦ absurd (ground (arith, eq_iff (key a) k, eq_iff x k))
          | inr f ↦ rw f (rw e mem-cons_self)
        ])
        (λ t.
          let rest = mem-keys-remove k x rows ne t in
          ground (arith, rest, mem-cons_of_mem (key a) rest))

  -- What a change to some rows keeps of each row, it keeps of all.
  pub All-update :
      (P : A → Type 0) (k : String) (f : A → A) (rows : List A)
      → ((a : A) → IsProp (P a))
      → ((a : A) → P a → P (f a))
      → ((a : A) → Mem a rows → P a)
      → (a : A) → Mem a (update key k f rows)
      → P a
  unfolding update
  All-update P k f [] prop step h a m = absurd (not-mem-nil m)
  All-update P k f (b ∷ rows) prop step h a m =
      Or.elim (prop a) (eq-or-mem_of_mem-cons m) (λ e. subst P (sym e) (changed (key b == k)))
        (All-update P k f rows prop step (λ c t. h c (mem-cons_of_mem b t)) a)
    where
      changed : (t : Bool) → P (if t then f b else b)
      changed true = step b (h b mem-cons_self)
      changed false = h b mem-cons_self

module _ {A : Type 0} where
  pub All-map :
      (P : A → Type 0) (f : A → A) (rows : List A)
      → ((a : A) → IsProp (P a))
      → ((a : A) → P a → P (f a))
      → ((a : A) → Mem a rows → P a)
      → (a : A) → Mem a (map f rows)
      → P a
  All-map P f [] prop step h a m = absurd (not-mem-nil m)
  All-map P f (b ∷ rows) prop step h a m =
      Or.elim (prop a) (eq-or-mem_of_mem-cons m) (λ e. subst P (sym e) (step b (h b mem-cons_self)))
        (All-map P f rows prop step (λ c t. h c (mem-cons_of_mem b t)) a)

  pub All-append :
      (P : A → Type 0) (rows more : List A)
      → ((a : A) → IsProp (P a))
      → ((a : A) → Mem a rows → P a)
      → ((a : A) → Mem a more → P a)
      → (a : A) → Mem a (rows ++ more)
      → P a
  All-append P rows more prop h k a m = Or.elim (prop a) (mem-append.0 m) (h a) (k a)
