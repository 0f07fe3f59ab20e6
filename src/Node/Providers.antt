-- ===== src/Node/Providers.antt =====
-- src/mycoagent/node/providers.py: the choice of a model's provider and URL. Whether the process is in a container, and
-- the answer to GET /models, are parameters.
pub mod Url
use Prim.Native.Char.{Char, code}
use mathlib.Core.List
use myco_agent.Common.{
  ◌≡◌, refl, ℕ, String, Bool, true, false, not, ◌&&◌, ◌||◌, Option, none, some, List, [], ◌∷◌, ◌++◌,
  map, keep, any, all, contains, is_nil, truthy, given, or_empty, leb, ltb, nat_eq, length, ◌==◌,
  if◌then◌else◌,
}
use myco_agent.Exec.{Result, ok, raise}
use myco_agent.Models.{Json, Items, Fields, null, bool, num, other_num, text, arr, obj, nil, cons}
use myco_agent.Text.{
  lower_char, Chars, chars, is_char, strip, rstrip, rstrip_by, lower, join, cat, contains_text,
  begins, drop,
}
use myco_agent.Text as Text
use myco_agent.Node.Executor.{get_field}
use myco_agent.Node.Planner.{key_texts}
use myco_agent.Node.Providers.Url.{normalize_openai_base_url}

abbrev pub providers : List String
providers = "echo" ∷ ("omlx" ∷ ("ollama" ∷ ("custom" ∷ [])))

abbrev pub host_name : (in_container : Bool) → String
host_name in_container = if in_container then "host.docker.internal" else "127.0.0.1"

unfoldable pub provider_base_url : (in_container : Bool) → String → String
provider_base_url in_container provider =
    let name = lower (strip provider) in
    if name == "omlx"
    then cat "http://" (cat (host_name in_container) ":8000/v1")
    else if name == "ollama"
    then cat "http://" (cat (host_name in_container) ":11434/v1")
    else ""

unfoldable pub infer_provider : (url : String) → String
infer_provider url =
    let raw = lower (strip url) in
    if not (truthy raw)
    then "echo"
    else if contains_text ":8000" raw
    then "omlx"
    else if contains_text ":11434" raw
    then "ollama"
    else "custom"

abbrev pub skip_fragments : List String
skip_fragments = "embed" ∷ ("rerank" ∷ ("bge-" ∷ ("e5-" ∷ ("gte-" ∷ ("minilm" ∷ [])))))

unfoldable pub is_chat_model : (model_id : String) → Bool
is_chat_model model_id =
    not (any (λ fragment. contains_text fragment (lower model_id)) skip_fragments)

-- How GET /models ends: the text of an exception, a failing status, a body that is no JSON, or JSON.
pub data ModelsReply : Type 0 where
  unreachable : String → ModelsReply
  http_status : String → ModelsReply
  no_json : String → ModelsReply
  answered : Json → ModelsReply

module _ (str : Json → String) where
  -- `item.get("id")` where it is true
  unfoldable pub id_text : Json → Option String
  id_text null = none
  id_text (bool b) = if b then some (str (bool b)) else none
  id_text (num n) = if nat_eq n 0 then none else some (str (num n))
  id_text (other_num shown nonzero) = if nonzero then some (str (other_num shown nonzero)) else none
  id_text (text t) = if truthy t then some t else none
  id_text (arr nil) = none
  id_text (arr (cons item items)) = some (str (arr (cons item items)))
  id_text (obj fields) = elim fields [
    | Fields.end ↦ none
    | Fields.field k v rest ↦ some (str (obj (Fields.field k v rest)))
  ]

  abbrev pub row_id : Json → Option String
  row_id (obj fields) = id_text (get_field "id" fields)
  row_id (text t) = if truthy (strip t) then some (strip t) else none
  row_id _ = none

  unfoldable pub row_ids : Items → List String
  row_ids nil = []
  row_ids (cons row rows) =
      let rest = row_ids rows in elim (row_id row) [ none ↦ rest | some id ↦ id ∷ rest ]

  -- Of an object the keys and of a text the characters; a number, which raises, gives no row.
  abbrev pub rows_of : Json → List String
  rows_of (arr rows) = row_ids rows
  rows_of (obj fields) = keep truthy (map strip (key_texts fields))
  rows_of (text t) = keep truthy (map (λ c. strip (Text.text (c ∷ []))) (chars t))
  rows_of _ = []

  abbrev pub ids_of : Json → List String
  ids_of (obj fields) = rows_of (get_field "data" fields)
  ids_of _ = []

  -- The models and the error; one of them is empty.
  unfoldable pub chosen : List String → List String × Option String
  chosen ids =
      let chat = keep is_chat_model ids in
      let models = if is_nil chat then ids else chat in
      if is_nil models then ([], some "GET /models returned no chat models") else (models, none)

  abbrev pub listed : ModelsReply → List String × Option String
  listed (unreachable exc) = ([], some (cat "GET /models failed: " exc))
  listed (http_status status) = ([], some (cat "GET /models HTTP " status))
  listed (no_json exc) = ([], some (cat "GET /models invalid JSON: " exc))
  listed (answered payload) = chosen (ids_of payload)

  -- `get` is the request with its base URL and key.
  module _ (get : (url key : String) → ModelsReply) where
    unfoldable pub list_llm_models : (base_url api_key : String) → List String × Option String
    list_llm_models base_url api_key =
        let url = normalize_openai_base_url base_url in
        if not (truthy url) then ([], some "empty LLM URL") else listed (get url api_key)

    unfoldable pub detect_preferred_provider : (in_container : Bool) → String
    detect_preferred_provider in_container =
        let up : String → Bool =
          λ name. not (is_nil (list_llm_models (provider_base_url in_container name) "").0) in
        if up "omlx" then "omlx" else if up "ollama" then "ollama" else "echo"

    -- `quoted` is `repr`; the last component are the notes.
    abbrev pub note_of :
        (quoted : String → String) → List String × Option String → String × List String
    note_of quoted (models, some error) = ("", error ∷ [])
    note_of quoted ([], none) = ("", [])
    note_of quoted (model ∷ [], none) = (model, [])
    note_of quoted (model ∷ (other ∷ more), none) = (
      model,
      cat "using first chat model " (
            cat (quoted model)
              (cat "; available: " (join ", " (first_eight (model ∷ (other ∷ more))))))
          ∷ [],
    )
      where
        take : ℕ → List String → List String
        take ℕ.zero xs = []
        take (ℕ.suc n) [] = []
        take (ℕ.suc n) (x ∷ xs) = x ∷ take n xs

        first_eight : List String → List String
        first_eight = take 8

    abbrev pub named_url : (in_container : Bool) → (name url : String) → String
    named_url in_container name url =
        if (name == "omlx" || name == "ollama") && not (truthy url)
        then provider_base_url in_container name
        else url

    -- The URL, the model and the notes, or the text of a `ValueError`.
    unfoldable pub resolve_for_init :
        (in_container : Bool)
        → (quoted : String → String) → (provider llm_url llm_model : Option String)
        → (llm_key : String) → Result String (String × (String × List String))
    resolve_for_init in_container quoted provider llm_url llm_model llm_key =
        let name = lower (strip (or_empty provider)) in
        let url =
          normalize_openai_base_url (named_url in_container name (strip (or_empty llm_url))) in
        let model = strip (or_empty llm_model) in
        let (first_model, notes) = note_of quoted (list_llm_models url llm_key) in
        if truthy name && not (contains name providers)
        then raise (
            cat "unknown provider "
              (cat (quoted (or_empty provider)) (cat "; use " (join ", " providers))))
        else if name == "echo"
        then ok ("", ("", []))
        else if truthy url && not (truthy model)
        then ok (url, (first_model, notes))
        else ok (url, (model, []))
