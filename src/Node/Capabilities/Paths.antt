-- ===== src/Node/Capabilities/Paths.antt =====
-- `load_names` and `load_capabilities` of src/mycoagent/node/capabilities.py, and the search for skills of
-- src/mycoagent/node/opencode_discover.py, on the file system that `pathlib` shows.
use myco_agent.Common.{
  String, Bool, not, ◌&&◌, Option, none, some, List, [], ◌∷◌, ◌++◌, truthy, ◌==◌, if◌then◌else◌,
}
use myco_agent.Models.{Json}
use myco_agent.Text.{strip}
use myco_agent.Node.Names.{merge_names}
use myco_agent.Node.Capabilities.{DirEntry, from_file, from_entries, file_capabilities, both}

-- What the source calls of `pathlib`; `none` where a read raises.
pub record PathLib : Type 0 where
  pub expanduser : String → String
  pub exists : String → Bool
  pub is_dir : String → Bool
  pub is_file : String → Bool
  pub suffix : String → String
  pub child : String → String → String
  pub iterdir : String → List DirEntry
  pub read_text : String → Option String

module _ (str : Json → String) (loads : String → Option Json) (fs : PathLib) where
  -- `load_capabilities` of a path that is a file
  abbrev pub capabilities_file : (root : String) → Option (List String × List String)
  capabilities_file root = elim (fs.read_text root) [
    | none ↦ none
    | some content ↦ file_capabilities str loads content
  ]

  abbrev pub one_kind : (kind : String) → Option (List String × List String) → Option (List String)
  one_kind kind none = none
  one_kind kind (some (skills, tools)) = some (if kind == "skills" then skills else tools)

  unfoldable pub from_dir : (root kind : String) → Option (List String)
  from_dir root kind =
      let nested = fs.child root kind in
      let scan = if fs.is_dir nested then nested else root in
      let cap = fs.child scan "capabilities.json" in
      if fs.is_file cap && fs.is_dir nested
      then one_kind kind (capabilities_file cap)
      else some (from_entries (fs.iterdir scan))

  -- `none` where it raises
  unfoldable pub load_names : (path kind : String) → Option (List String)
  load_names path kind =
      let root = fs.expanduser path in
      if not (fs.exists root)
      then none
      else if fs.is_dir root
      then from_dir root kind
      else elim (fs.read_text root) [
        | none ↦ none
        | some content ↦ from_file str loads (fs.suffix root) kind content
      ]

  -- `none` where it raises
  unfoldable pub load_capabilities : (path : String) → Option (List String × List String)
  load_capabilities path =
      let root = fs.expanduser path in
      let cap = fs.child root "capabilities.json" in
      if not (fs.exists root)
      then none
      else if fs.is_file root
      then capabilities_file root
      else if fs.is_file cap
      then capabilities_file cap
      else both str loads (load_names root "skills") (load_names root "tools")

  -- `config_dir` is the variable `OPENCODE_CONFIG_DIR`, or empty.
  unfoldable pub default_opencode_skill_dirs : (home config_dir : String) → List String
  default_opencode_skill_dirs home config_dir =
      let dirs =
        fs.child (fs.child (fs.child home ".config") "opencode") "skills"
        ∷ (fs.child (fs.child home ".claude") "skills"
            ∷ (fs.child (fs.child home ".agents") "skills" ∷ [])) in
      if truthy (strip config_dir)
      then dirs ++ fs.child (fs.expanduser (strip config_dir)) "skills" ∷ []
      else dirs

  abbrev pub with_found : List String → Option (List String) → List String
  with_found skills none = skills
  with_found skills (some names) = merge_names (skills ∷ (names ∷ []))

  -- The loop over the directories
  unfoldable pub discover_in : List String → List String → List String
  discover_in skills [] = skills
  discover_in skills (path ∷ paths) =
      discover_in (if fs.is_dir path then with_found skills (load_names path "skills") else skills)
        paths

  unfoldable pub discover_opencode_catalog :
      (home config_dir : String) → (extra_dirs : List String) → List String × List String
  discover_opencode_catalog home config_dir extra_dirs = (
    discover_in [] (default_opencode_skill_dirs home config_dir ++ expanded extra_dirs),
    "opencode" ∷ [],
  )
    where
      expanded : List String → List String
      expanded [] = []
      expanded (raw ∷ raws) = fs.expanduser raw ∷ expanded raws
