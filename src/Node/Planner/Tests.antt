-- ===== src/Node/Planner/Tests.antt =====
-- Application of the theorem on plans at an answer with two subtasks.
use myco_agent.Common.{String, ◌≡◌, refl, true, false, none, some, List, [], ◌∷◌, is_nil, all}
use myco_agent.Exec.{Result, ok}
use myco_agent.Models.{Json, text, arr, obj, nil, cons, end, field, SubtaskSpec}
use myco_agent.Text.{strip}
use myco_agent.Node.Executor.{LlmResponse, Message, get_field, argument}
use myco_agent.Node.Planner.{
  plan, read_plan, extract_json, subtasks_of, subtask_of, as_str_list, planned_spec, braced,
}
use myco_agent.Node.Planner.Planned.{plain_description, plan-plain}

abbrev answer_json : Json
answer_json = obj (
    field "subtasks"
      (arr (
        cons
          (obj (
            field "description" (text " draw ") (field "skills" (arr (cons (text "art") nil)) end)))
          (cons (obj (field "description" (text "check") (field "tools" (text "shell") end))) nil)))
      end)

abbrev str : Json → String
str v = "value"

abbrev loads : String → Result String Json
loads s = ok answer_json

abbrev chat : List Message → Result String LlmResponse
chat messages = ok (record { content = some "{...}"; tool_calls = [] })

abbrev two_specs : List SubtaskSpec
two_specs =
    planned_spec "draw" ("art" ∷ []) [] end ∷ (planned_spec "check" [] ("shell" ∷ []) end ∷ [])

planned : plan str str (λ s. none) loads "split" (λ node. "node") chat "make" [] "a1" ≡ ok two_specs
unfolding plan read_plan extract_json subtasks_of subtask_of as_str_list braced strip get_field
    argument
planned = refl

plan-plain_example : (is_nil two_specs ≡ false) × (all plain_description two_specs ≡ true)
plan-plain_example =
    plan-plain str str (λ s. none) loads "split" (λ node. "node") chat "make" [] "a1" two_specs
      planned
