-- ===== src/Node/Workspace.antt =====
-- src/mycoagent/node/workspace.py: the containment of paths and what is shown of the directory. `resolve` is
-- `Path.resolve`, and a path is the list of its segments.
pub mod Hidden
use mathlib.Core.List
use myco_agent.Common.{
  is_some, ◌==◌, ℕ, String, Bool, true, false, not, ◌&&◌, Option, none, some, List, [], ◌∷◌, ◌++◌,
  keep, contains, sort_by, leb, length, nat_eq, truthy, if◌then◌else◌, is_nil,
}
use myco_agent.Text.{
  chars, cat, strip, rstrip_by, is_space, text, startswith, removeprefix, replace,
}

abbrev pub add_variant : List String → String → List String
add_variant variants v = if contains v variants then variants else variants ++ v ∷ []

-- The ways to write the directory: as it was given, resolved, and resolved without `/private`.
unfoldable pub variants : (root resolved : String) → List String
variants root resolved =
    let both = add_variant (root ∷ []) resolved in
    if startswith "/private/" resolved
    then add_variant both (removeprefix "/private" resolved)
    else both

-- From the longest on
unfoldable pub longest_first : List String → List String
longest_first = sort_by (λ a b. leb (length (chars b)) (length (chars a)))

unfoldable pub replace_all : List String → String → String
replace_all [] result = result
replace_all (variant ∷ more) result =
    replace_all more (if truthy variant then replace variant "[workspace]" result else result)

unfoldable pub strip_local_paths : (root resolved : String) → String → String
strip_local_paths root resolved shown =
    if not (truthy shown) then shown else replace_all (longest_first (variants root resolved)) shown

abbrev pub given_text : Option String → String
given_text none = ""
given_text (some value) = value

-- `completed.stdout` and `completed.stderr`; `returncode` is `none` for 0 and otherwise the code in decimal.
unfoldable pub shell_output :
    (root resolved : String)
    → (stdout stderr : Option String) → (returncode : Option String) → String
shell_output root resolved stdout stderr returncode =
    let out = cat (given_text stdout) (given_text stderr) in
    let suffix = cat "exit=" (given_text returncode) in
    strip_local_paths root resolved (
      if not (is_some returncode)
      then out
      else if truthy (strip out)
      then cat (text (rstrip_by is_space (chars out))) (cat "\n" suffix)
      else suffix)

abbrev pub below : List String → List String → Bool
below [] target = true
below (s ∷ root) [] = false
below (s ∷ root) (t ∷ target) = s == t && below root target

-- `resolve_path`, which raises `WorkspaceEscape` where it gives `none`
unfoldable pub resolve_path :
    (resolve : List String → List String)
    → (root : List String) → (is_absolute : Bool) → (raw : List String) → Option (List String)
resolve_path resolve root is_absolute raw =
    let target = if is_absolute then resolve raw else resolve (root ++ raw) in
    if below root target then some target else none
