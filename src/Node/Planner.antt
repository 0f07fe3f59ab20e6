-- ===== src/Node/Planner.antt =====
-- src/mycoagent/node/planner.py: the checks on the model's plan. The model (`chat`), `json.loads`, the search for a
-- fenced block, Python's `str` of a JSON value and its text of a node are parameters; an exception is its text.
pub mod Planned
mod Tests
use Prim.Native.Char.{Char}
use myco_agent.Common.{
  ℕ, zero, suc, ◌+◌, ◌-◌, String, Bool, true, false, not, ◌&&◌, Option, none, some, List, [], ◌∷◌,
  ◌++◌, map, is_nil, truthy, or_empty, ltb, if◌then◌else◌,
}
use myco_agent.Exec.{Result, ok, raise}
use myco_agent.Models.{
  Fields, end, field, Json, null, bool, num, other_num, text, arr, obj, Items, nil, cons,
  SubtaskSpec, NodeRecord,
}
use myco_agent.Text.{Chars, chars, is_char, strip, join, cat, drop}
use myco_agent.Text as Text
use myco_agent.Node.Executor.{LlmResponse, Message, get_field, argument}

abbrev pub take : ℕ → Chars → Chars
take zero cs = []
take (suc n) [] = []
take (suc n) (c ∷ cs) = c ∷ take n cs

-- `s.find(c)`, `none` for -1
abbrev pub find_char : (c : ℕ) → Chars → Option ℕ
find_char c [] = none
find_char c (d ∷ cs) =
    let rest = find_char c cs in
    if is_char c d then some 0 else elim rest [ none ↦ none | some i ↦ some (suc i) ]

-- `s.rfind(c)`, `none` for -1
abbrev pub rfind_char : (c : ℕ) → Chars → Option ℕ
rfind_char c [] = none
rfind_char c (d ∷ cs) = elim (rfind_char c cs) [
  | some i ↦ some (suc i)
  | none ↦ if is_char c d then some 0 else none
]

abbrev pub between : Option ℕ → Option ℕ → String → String
between (some start) (some stop) stripped =
    if ltb start stop
    then Text.text (take (stop + 1 - start) (drop start (chars stripped)))
    else stripped
between _ _ stripped = stripped

-- From the first opening to the last closing brace, where there are such
unfoldable pub braced : String → String
braced stripped =
    between (find_char b'{' (chars stripped)) (rfind_char b'}' (chars stripped)) stripped

abbrev pub next : {A B : Type 0} → Result String A → (A → Result String B) → Result String B
next (ok a) f = f a
next (raise exc) f = raise exc

abbrev pub object_of : Json → Result String Fields
object_of (obj fields) = ok fields
object_of _ = raise "JSON root must be an object"

-- `isinstance(raw_items, list)` with an item
abbrev pub raw_items : Json → Result String Items
raw_items (arr (cons item items)) = ok (cons item items)
raw_items _ = raise "planner returned no subtasks"

abbrev pub payload_of : Json → Fields
payload_of (obj fields) = fields
payload_of _ = end

abbrev pub planned_spec : String → (skills tools : List String) → Fields → SubtaskSpec
planned_spec description skills tools payload = record {
  description = description;
  skills = skills;
  tools = tools;
  payload = payload;
  model = none;
  min_context_window = none;
  min_memory_mb = none;
}

abbrev pub invalid : Result String Fields → Result String Fields
invalid (ok fields) = ok fields
invalid (raise exc) = raise (cat "planner returned invalid JSON: " exc)

abbrev pub key_texts : Fields → List String
key_texts end = []
key_texts (field key value rest) = key ∷ key_texts rest

module _ (str : Json → String) (not_iterable : Json → String) (fenced : String → Option String)
    (loads : String → Result String Json) where
  abbrev pub str_of : Json → String
  str_of (text t) = t
  str_of value = str value

  abbrev pub each_str : Items → List String
  each_str nil = []
  each_str (cons item items) = str_of item ∷ each_str items

  -- A number that is not zero and `true` raise `TypeError`.
  unfoldable pub as_str_list : Json → Result String (List String)
  as_str_list null = ok []
  as_str_list (bool b) = if b then raise (not_iterable (bool b)) else ok []
  as_str_list (num zero) = ok []
  as_str_list (num (suc n)) = raise (not_iterable (num (suc n)))
  as_str_list (other_num shown nonzero) =
      if nonzero then raise (not_iterable (other_num shown nonzero)) else ok []
  as_str_list (text t) = ok (if truthy t then t ∷ [] else [])
  as_str_list (arr items) = ok (each_str items)
  as_str_list (obj fields) = ok (key_texts fields)

  unfoldable pub extract_json : String → Result String Fields
  extract_json content =
      let stripped = strip content in
      elim (fenced stripped) [
        | none ↦ next (loads (braced stripped)) object_of
        | some block ↦ next (loads block) object_of
      ]

  abbrev pub described : String → Fields → Result String SubtaskSpec
  described description_text fields =
      if not (truthy description_text)
      then raise "planner subtask missing description"
      else next (as_str_list (get_field "skills" fields)) (λ skills.
        next (as_str_list (get_field "tools" fields)) (λ tools.
          ok
            (planned_spec description_text skills tools (payload_of (get_field "payload" fields)))))

  unfoldable pub subtask_of : Json → Result String SubtaskSpec
  subtask_of (obj fields) = described (strip (argument str fields "description" "")) fields
  subtask_of _ = raise "planner subtask is not an object"

  unfoldable pub subtasks_of : Items → Result String (List SubtaskSpec)
  subtasks_of nil = ok []
  subtasks_of (cons item items) =
      next (subtask_of item) (λ spec. next (subtasks_of items) (λ specs. ok (spec ∷ specs)))

  -- What `plan` makes of the model's answer
  unfoldable pub read_plan : LlmResponse → Result String (List SubtaskSpec)
  read_plan response =
      if not (truthy (or_empty response.content))
      then raise "planner returned empty content"
      else next (invalid (extract_json (or_empty response.content)))
          (λ payload. next (raw_items (get_field "subtasks" payload)) subtasks_of)

  module _ (planner_system : String) (line : NodeRecord → String)
      (chat : List Message → Result String LlmResponse) where
    unfoldable pub prompt : String → List NodeRecord → String → String
    prompt description catalog parent_id =
        let catalog_text =
          if is_nil catalog then "(no idle peers)" else join "\n" (map line catalog) in
        cat "Job: " (
          cat description (
            cat "\nParent agent_id: " (
              cat parent_id
                (cat "\nSame-group catalog:\n" (cat catalog_text "\nReturn JSON only.")))))

    unfoldable pub plan : String → List NodeRecord → String → Result String (List SubtaskSpec)
    plan description catalog parent_id =
        next
          (chat (
            Message.system planner_system
            ∷ (Message.user (prompt description catalog parent_id) ∷ [])))
          read_plan
