-- ===== src/Node/Executor.antt =====
-- src/mycoagent/node/executor.py: `ChildAgentExecutor`, the loop of a model that calls tools. The model,
-- the tools of the workspace and Python's `str` of a JSON value are parameters.
pub mod Loop
pub mod Ends
use Prim.Native.String.{◌++◌ as join_texts}
use myco_agent.Common.{
  ℕ, zero, suc, String, Bool, true, false, not, Option, none, some, List, [], ◌∷◌, ◌++◌, map,
  is_nil, truthy, or_empty, ◌==◌, if◌then◌else◌,
}
use myco_agent.Exec.{Result, ok, raise}
use myco_agent.Models.{
  ChildWork, SubtaskStatus, Fields, end, field, Json, null, bool, num, other_num, text, arr, obj,
  Items, nil, cons,
}

pub record ToolCall : Type 0 where
  pub id : String
  pub name : String
  pub arguments : Fields

pub record LlmResponse : Type 0 where
  pub content : Option String
  pub tool_calls : List ToolCall

-- The messages of a conversation, by their roles.
pub data Message : Type 0 where
  system user : String → Message
  assistant : LlmResponse → Message
  tool : (call_id : String) → (content : String) → Message

-- The operations of the assignment's workspace: a raise is the exception's text.
pub record Workspace : Type 0 where
  pub run_shell : String → Result String String
  pub write_file : String → String → Result String String
  pub read_file : String → Result String String
  pub list_dir : String → Result String (List String)
  pub strip_local_paths : String → String

unfoldable pub get_field : String → Fields → Json
get_field key end = null
get_field key (field k v rest) = let found = get_field key rest in if k == key then v else found

-- `str(arguments.get(key) or default)`; `str` is Python's, of a value that is no text.
unfoldable pub argument : (str : Json → String) → Fields → (key default : String) → String
argument str arguments key default = elim (get_field key arguments) [
  | null ↦ default
  | bool b ↦ if b then str (bool b) else default
  | num n ↦ elim n [ zero ↦ default | suc m ↦ str (num (suc m)) ]
  | other_num shown nonzero ↦ if nonzero then str (other_num shown nonzero) else default
  | text t ↦ if truthy t then t else default
  | arr items ↦ elim items [ nil ↦ default | cons x xs ↦ str (arr (cons x xs)) ]
  | obj fields ↦ elim fields [ end ↦ default | field k v rest ↦ str (obj (field k v rest)) ]
]

-- `"\n".join(entries)`
unfoldable pub lines_of : List String → String
lines_of [] = ""
lines_of (entry ∷ entries) =
    let rest = lines_of entries in
    if is_nil entries then entry else join_texts entry (join_texts "\n" rest)

abbrev wrote : Result String String → Result String String
wrote (ok path) = ok (join_texts "wrote " path)
wrote (raise exc) = raise exc

abbrev listing : Result String (List String) → Result String String
listing (ok entries) = ok (if is_nil entries then "(empty)" else lines_of entries)
listing (raise exc) = raise exc

-- What one answer of the model leads to.
pub data Turn : Type 0 where
  answers : String → Turn
  goes_on : List Message → Turn

module _ (str : Json → String) (workspace : Workspace) where
  unfoldable pub call_tool : (name : String) → Fields → Result String String
  unfolding lines_of
  call_tool name arguments =
      let path = argument str arguments "path" "" in
      if name == "shell"
      then workspace.run_shell (argument str arguments "command" "")
      else if name == "write_file"
      then wrote (workspace.write_file path (argument str arguments "content" ""))
      else if name == "read_file"
      then workspace.read_file path
      else if name == "list_dir"
      then listing (workspace.list_dir (argument str arguments "path" "."))
      else ok (join_texts "unknown tool: " name)

  -- Errors of a tool go back to the model.
  unfoldable pub dispatch_tool : (name : String) → Fields → String
  dispatch_tool name arguments = elim (call_tool name arguments) [
    | ok output ↦ output
    | raise exc ↦ workspace.strip_local_paths (join_texts "tool error: " exc)
  ]

  abbrev pub tool_message : ToolCall → Message
  tool_message call = tool call.id (dispatch_tool call.name call.arguments)

  unfoldable pub turn : List Message → LlmResponse → Turn
  turn messages response =
      let last_text = workspace.strip_local_paths (or_empty response.content) in
      if not (is_nil response.tool_calls)
      then goes_on (messages ++ assistant response ∷ map tool_message response.tool_calls)
      else if truthy last_text
      then answers last_text
      else goes_on messages

  -- The loop over `max_steps`: `chat k` is the model at its `k`-th answer, `exceeded` the error at the end.
  unfoldable pub run_loop :
      (chat : ℕ → List Message → Result String LlmResponse)
      → (exceeded : String) → ChildWork
      → (steps k : ℕ) → List Message
      → Result String ChildWork
  run_loop chat exceeded work zero k messages = raise exceeded
  run_loop chat exceeded work (suc steps) k messages = elim (chat k messages) [
    | raise exc ↦ raise exc
    | ok response ↦ elim (turn messages response) [
      | answers result ↦ ok (record work { status = SubtaskStatus.completed; result = some result })
      | goes_on next ↦ run_loop chat exceeded work steps (suc k) next
    ]
  ]

  -- `run`: `system_prompt` and `user_prompt` are the two first messages.
  unfoldable pub run :
      (chat : ℕ → List Message → Result String LlmResponse)
      → (exceeded system_prompt user_prompt : String) → (max_steps : ℕ) → ChildWork
      → Result String ChildWork
  run chat exceeded system_prompt user_prompt max_steps work =
      run_loop chat exceeded work max_steps 0 (system system_prompt ∷ (user user_prompt ∷ []))

-- `EchoExecutor.run`; `shown` is Python's text of a payload.
unfoldable pub echo_run : (shown : Fields → String) → ChildWork → ChildWork
echo_run shown work = record work {
  status = SubtaskStatus.completed;
  result = some (join_texts (join_texts "done:" work.description) (payload_text work.payload));
}
  where
    payload_text : Fields → String
    payload_text end = ""
    payload_text (field key value rest) = join_texts " payload=" (shown (field key value rest))
