-- ===== src/Artifacts/Keys.antt =====
-- Where the id of an artifact lies, and whose blobs an upload can change.
use myco_agent.Common.{
  String, ◌≡◌, refl, sym, ap, ◌∙◌, true, false, List, ◌∷◌, ◌++◌, map, any, arith, ◌==◌, inl, inr,
  Bool-cases,
}
use myco_agent.Exec.{ok}
use myco_agent.Text.{chars, text, chars-text, text-chars, cat, split, split_at}
use myco_agent.Text.Split.{lacks, split_at-append}
use myco_agent.Artifacts.{safe_name, key_of, artifact_key}

-- The id is the path of a file below the directory of the subtask, and has no `..` that leads out of it.
pub record Below (group job_id subtask_id key : String) : Type 0 where
  pub parts : List String
  pub path : split b'/' key ≡ group ∷ (job_id ∷ (subtask_id ∷ parts))
  pub inside : any (λ part. part == "..") parts ≡ false

-- A text that can stand for one directory of a path
abbrev pub Segment : String → Type 0
Segment w = lacks b'/' (chars w) ≡ true

split-cat : (w rest : String) → Segment w → split b'/' (cat w (cat "/" rest)) ≡ w ∷ split b'/' rest
unfolding split cat
split-cat w rest h =
    ap (λ cs. map text (split_at b'/' cs))
      (chars-text _ ∙ ap (λ cs. chars w ++ cs) (chars-text (chars "/" ++ chars rest)))
    ∙ ap (map text) (split_at-append b'/' _ (chars w) (chars rest) refl h)
    ∙ ap (λ v. v ∷ map text (split_at b'/' (chars rest))) (text-chars w)

pub split-key_of :
    (group job_id subtask_id name : String)
    → Segment group
    → Segment job_id
    → Segment subtask_id
    → split b'/' (key_of group job_id subtask_id name)
      ≡ group ∷ (job_id ∷ (subtask_id ∷ split b'/' name))
unfolding key_of
split-key_of group job_id subtask_id name g j s =
    split-cat group _ g
    ∙ ap (◌∷◌ group) (split-cat job_id _ j ∙ ap (◌∷◌ job_id) (split-cat subtask_id name s))

pub artifact_key-Below :
    (group job_id subtask_id name key : String)
    → Segment group
    → Segment job_id
    → Segment subtask_id
    → artifact_key group job_id subtask_id name ≡ ok key
    → Below group job_id subtask_id key
unfolding artifact_key
artifact_key-Below group job_id subtask_id name key g j s h =
    elim (Bool-cases (any (λ part. part == "..") (split b'/' (safe_name name)))) [
      | inl e ↦ absurd (ground (arith, e, h))
      | inr e ↦
          let same : key_of group job_id subtask_id (safe_name name) ≡ key = ground (arith, e, h) in
          record {
            parts = split b'/' (safe_name name);
            path =
                ap (split b'/') (sym same)
                ∙ split-key_of group job_id subtask_id (safe_name name) g j s;
            inside = e;
          }
    ]
