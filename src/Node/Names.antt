-- ===== src/Node/Names.antt =====
-- src/mycoagent/node/capabilities.py: `merge_names`, and src/mycoagent/node/identity.py: `resolve_agent_id`.
pub mod Merged
use Prim.Native.String.{◌++◌ as join_texts}
use myco_agent.Text.{strip}
use myco_agent.Common.{
  String, Bool, true, false, not, ◌||◌, ◌&&◌, Option, none, some, List, [], ◌∷◌, ◌++◌, contains,
  truthy, given, or_empty, if◌then◌else◌,
}

-- The inner loop: `out` are the names so far, which are those of `seen`.
unfoldable pub merge_group : List String → List String → List String
merge_group out [] = out
merge_group out (item ∷ items) =
    let name = strip item in
    merge_group (if not (truthy name) || contains name out then out else out ++ name ∷ []) items

unfoldable pub merge_groups : List String → List (List String) → List String
merge_groups out [] = out
merge_groups out (group ∷ groups) = merge_groups (merge_group out group) groups

unfoldable pub merge_names : List (List String) → List String
unfolding merge_groups
merge_names groups = merge_groups [] groups

-- The id and what the file holds afterwards. `env_id` is the variable, stripped where it is set; `stored`
-- is the file's text where the file is there; `has_file` says whether a file was named.
unfoldable pub resolve_agent_id :
    (uuid : String)
    → (explicit env_id : Option String) → (has_file : Bool) → (stored : Option String)
    → String × Option String
resolve_agent_id uuid explicit env_id has_file stored =
    let from_file =
      if has_file
      then elim stored [ none ↦ uuid | some t ↦ if truthy (strip t) then strip t else uuid ]
      else uuid in
    let agent_id =
      if given explicit && truthy (strip (or_empty explicit))
      then strip (or_empty explicit)
      else if given env_id
      then or_empty env_id
      else from_file in
    (agent_id, if has_file then some (join_texts agent_id "\n") else none)
