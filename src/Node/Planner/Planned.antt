-- ===== src/Node/Planner/Planned.antt =====
-- What a plan that is accepted is like.
use myco_agent.Common.{
  String, ◌≡◌, refl, sym, ap, subst, Bool, true, false, ◌&&◌, List, [], ◌∷◌, is_nil, truthy,
  or_empty, all, arith, ◌==◌, eq_iff, inl, inr, Bool-cases, Option,
}
use myco_agent.Exec.{Result, ok, raise}
use myco_agent.Models.{
  Fields, Json, null, bool, num, other_num, text, arr, obj, Items, nil, cons, SubtaskSpec,
  NodeRecord,
}
use myco_agent.Text.{strip}
use myco_agent.Text.Strip.{strip_idem}
use myco_agent.Node.Executor.{LlmResponse, Message, argument}
use myco_agent.Node.Planner.{
  planned_spec, next, described, subtask_of, subtasks_of, extract_json, raw_items, invalid,
  read_plan, plan,
}

-- A description that is not empty and has no spaces around it
abbrev pub plain_description : SubtaskSpec → Bool
plain_description spec = truthy spec.description && strip spec.description == spec.description

module _ {A B : Type 0} where
  -- A step that is followed by one that returns has returned.
  record Passed (r : Result String A) (f : A → Result String B) (b : B) : Type 0 where
    pub value : A
    pub first : r ≡ ok value
    pub onward : f value ≡ ok b

  passed : (r : Result String A) (f : A → Result String B) (b : B) → next r f ≡ ok b → Passed r f b
  passed (ok a) f b h = record { value = a; first = refl; onward = h }
  passed (raise exc) f b h = absurd (ground (arith, h))

module _ (str : Json → String) (not_iterable : Json → String) (fenced : String → Option String)
    (loads : String → Result String Json) where
  abbrev read_item : Json → Result String SubtaskSpec
  read_item = subtask_of str not_iterable fenced loads

  description_of_built :
      (d : String) (skills tools : Result String (List String)) (payload : Fields)
      (spec : SubtaskSpec)
      → next skills (λ s. next tools (λ t. ok (planned_spec d s t payload))) ≡ ok spec
      → d ≡ spec.description
  description_of_built d (ok s) (ok t) payload spec h =
      let same : planned_spec d s t payload ≡ spec = ground (arith, h) in
      ap (λ x. x.description) same
  description_of_built d (ok s) (raise e) payload spec h = absurd (ground (arith, h))
  description_of_built d (raise e) tools payload spec h = absurd (ground (arith, h))

  described-plain :
      (d : String) (fields : Fields) (spec : SubtaskSpec)
      → strip d ≡ d
      → described str not_iterable fenced loads d fields ≡ ok spec
      → plain_description spec ≡ true
  described-plain d fields spec same h = elim (Bool-cases (truthy d)) [
    | inl t ↦
        let e : d ≡ spec.description = description_of_built d _ _ _ spec (rw t at h) in
        subst (λ x. truthy x && strip x == x ≡ true) e (ground (arith, t, same, eq_iff (strip d) d))
    | inr t ↦
        let raised : raise "planner subtask missing description" ≡ ok spec = rw t at h in
        absurd (ground (arith, raised))
  ]

  subtask_of-plain :
      (item : Json) (spec : SubtaskSpec) → read_item item ≡ ok spec → plain_description spec ≡ true
  unfolding subtask_of
  subtask_of-plain (obj fields) spec h =
      described-plain _ fields spec (strip_idem (argument str fields "description" "")) h
  subtask_of-plain null spec h = absurd (ground (arith, h))
  subtask_of-plain (bool b) spec h = absurd (ground (arith, h))
  subtask_of-plain (num n) spec h = absurd (ground (arith, h))
  subtask_of-plain (other_num shown nonzero) spec h = absurd (ground (arith, h))
  subtask_of-plain (text t) spec h = absurd (ground (arith, h))
  subtask_of-plain (arr items) spec h = absurd (ground (arith, h))

  subtasks_of-plain :
      (items : Items) (specs : List SubtaskSpec)
      → subtasks_of str not_iterable fenced loads items ≡ ok specs
      → all plain_description specs ≡ true
  unfolding subtasks_of
  subtasks_of-plain nil specs h = let e : [] ≡ specs = ground (arith, h) in rw (sym e) refl
  subtasks_of-plain (cons item items) specs h =
      let one = passed (read_item item) _ specs h in
      let more = passed (subtasks_of str not_iterable fenced loads items) _ specs one.onward in
      let e : one.value ∷ more.value ≡ specs = ground (arith, more.onward) in
      rw (sym e, subtask_of-plain item one.value one.first)
        (subtasks_of-plain items more.value more.first)

  subtasks_of-nonempty :
      (item : Json) (items : Items) (specs : List SubtaskSpec)
      → subtasks_of str not_iterable fenced loads (cons item items) ≡ ok specs
      → is_nil specs ≡ false
  unfolding subtasks_of
  subtasks_of-nonempty item items specs h =
      let one = passed (read_item item) _ specs h in
      let more = passed (subtasks_of str not_iterable fenced loads items) _ specs one.onward in
      let e : one.value ∷ more.value ≡ specs = ground (arith, more.onward) in rw (sym e) refl

  raw_items-plain :
      (v : Json) (specs : List SubtaskSpec)
      → next (raw_items v) (subtasks_of str not_iterable fenced loads) ≡ ok specs
      → (is_nil specs ≡ false) × (all plain_description specs ≡ true)
  raw_items-plain (arr (cons item items)) specs h =
      (subtasks_of-nonempty item items specs h, subtasks_of-plain (cons item items) specs h)
  raw_items-plain (arr nil) specs h = absurd (ground (arith, h))
  raw_items-plain null specs h = absurd (ground (arith, h))
  raw_items-plain (bool b) specs h = absurd (ground (arith, h))
  raw_items-plain (num n) specs h = absurd (ground (arith, h))
  raw_items-plain (other_num shown nonzero) specs h = absurd (ground (arith, h))
  raw_items-plain (text t) specs h = absurd (ground (arith, h))
  raw_items-plain (obj fields) specs h = absurd (ground (arith, h))

  read_plan-plain :
      (response : LlmResponse) (specs : List SubtaskSpec)
      → read_plan str not_iterable fenced loads response ≡ ok specs
      → (is_nil specs ≡ false) × (all plain_description specs ≡ true)
  unfolding read_plan
  read_plan-plain response specs h = elim (Bool-cases (truthy (or_empty response.content))) [
    | inl t ↦
        let payload =
          passed (invalid (extract_json str not_iterable fenced loads (or_empty response.content)))
            _ specs (rw t at h) in
        raw_items-plain _ specs payload.onward
    | inr t ↦
        let raised : raise "planner returned empty content" ≡ ok specs = rw t at h in
        absurd (ground (arith, raised))
  ]

  module _ (planner_system : String) (line : NodeRecord → String)
      (chat : List Message → Result String LlmResponse) where
    -- A plan that returns has a subtask, and every subtask of it a description that is not empty and has
    -- no spaces around it, whatever the model answers.
    pub plan-plain :
        (description : String) (catalog : List NodeRecord) (parent_id : String)
        (specs : List SubtaskSpec)
        → plan str not_iterable fenced loads planner_system line chat description catalog parent_id
          ≡ ok specs
        → (is_nil specs ≡ false) × (all plain_description specs ≡ true)
    unfolding plan
    plan-plain description catalog parent_id specs h =
        let response = passed (chat _) _ specs h in
        read_plan-plain response.value specs response.onward
