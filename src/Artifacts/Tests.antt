-- ===== src/Artifacts/Tests.antt =====
-- Applications of the theorems on artifacts at the upload of two files.
use mathlib.Core.List.{Nodup-cons, Nodup-nil, not-mem-nil}
use myco_agent.Common.{String, ◌≡◌, refl, [], ◌∷◌, List, Nodup, arith, contains_iff}
use myco_agent.Exec.{ok}
use myco_agent.Artifacts.{
  ArtifactStore, Blob, upload_workspace_files, put, artifact_key, safe_name, key_of,
}
use myco_agent.Text.{cat, split, lstrip, replace_char}
use myco_agent.Artifacts.Kept.{AllBelow, upload_workspace_files-Below}

abbrev empty_store : ArtifactStore
empty_store = record { objects = [] }

abbrev files : List (String × Blob)
files = ("\\out/a.txt", 1 ∷ []) ∷ (("b.txt", 2 ∷ (3 ∷ [])) ∷ [])

abbrev ids : List String
ids = "lab/j1/s1/out/a.txt" ∷ ("lab/j1/s1/b.txt" ∷ [])

uploaded : (upload_workspace_files "lab" "j1" "s1" files empty_store).0 ≡ ok ids
unfolding upload_workspace_files put artifact_key safe_name key_of cat split lstrip replace_char
uploaded = refl

upload_workspace_files-Below_example : AllBelow "lab" "j1" "s1" ids
upload_workspace_files-Below_example =
    upload_workspace_files-Below "lab" "j1" "s1" files empty_store ids refl refl refl uploaded

ids_distinct : Nodup ids
ids_distinct = Nodup-cons.1 (
  λ m. absurd (ground (arith, (contains_iff "lab/j1/s1/out/a.txt" ("lab/j1/s1/b.txt" ∷ [])).1 m)),
  Nodup-cons.1 (λ m. not-mem-nil m, Nodup-nil),
)
