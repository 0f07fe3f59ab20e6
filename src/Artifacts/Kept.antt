-- ===== src/Artifacts/Kept.antt =====
-- What the store in memory holds after an upload.
use mathlib.Core.List.{Mem, mem-cons_of_mem, mem-cons_self, Nodup-cons}
use myco_agent.Common.{
  String, ◌≡◌, ◌≢◌, refl, sym, ap, ◌∙◌, subst, Bool, true, false, List, [], ◌∷◌, map, arith, ◌==◌,
  eq_iff, if◌then◌else◌, Nodup,
}
use myco_agent.Exec.{Result, ok, raise, resume, pure, ◌>>=◌}
use myco_agent.Table.{find}
use myco_agent.Table.Laws.{find-put}
use myco_agent.Artifacts.{
  some, ArtifactError, ArtifactStore, Blob, Object, artifact_key, write, put, store_under, get,
  found_object, upload_workspace_files,
}
use myco_agent.Artifacts.Keys.{Below, Segment, artifact_key-Below}

get-write :
    (key other : String) (bytes : Blob) (s : ArtifactStore)
    → get other (write key bytes s) ≡ (if key == other then ok bytes else get other s)
unfolding get write
get-write key other bytes s =
    ap (found_object other)
      (find-put Object.key other (record { key = key; data_bytes = bytes }) s.objects)
    ∙ go (key == other)
  where
    go :
        (b : Bool)
        → found_object other (
            if b
            then some (record { key = key; data_bytes = bytes })
            else find Object.key other s.objects)
          ≡ (if b then ok bytes else found_object other (find Object.key other s.objects))
    go true = refl
    go false = refl

get-write_same :
    (key : String) (bytes : Blob) (s : ArtifactStore) → get key (write key bytes s) ≡ ok bytes
get-write_same key bytes s = ground (arith, get-write key key bytes s, eq_iff key key)

get-write_other :
    (key other : String) (bytes : Blob) (s : ArtifactStore)
    → key ≢ other
    → get other (write key bytes s) ≡ get other s
get-write_other key other bytes s ne = ground (arith, get-write key other bytes s, eq_iff key other)

module _ (group job_id subtask_id : String) where
  abbrev upload :
      List (String × Blob) → ArtifactStore → Result ArtifactError (List String) × ArtifactStore
  upload = upload_workspace_files group job_id subtask_id

  -- An upload that returns wrote its first file and then uploaded the others.
  record First (rel : String) (bytes : Blob) (files : List (String × Blob)) (s : ArtifactStore)
      (ids : List String) : Type 0 where
    pub id : String
    pub rest : List String
    pub shape : ids ≡ id ∷ rest
    pub named : artifact_key group job_id subtask_id rel ≡ ok id
    pub returned : (upload files (write id bytes s)).0 ≡ ok rest
    pub leaves : (upload ((rel, bytes) ∷ files) s).1 ≡ (upload files (write id bytes s)).1

  first :
      (rel : String) (bytes : Blob) (files : List (String × Blob)) (s : ArtifactStore)
      (ids : List String)
      → (upload ((rel, bytes) ∷ files) s).0 ≡ ok ids
      → First rel bytes files s ids
  unfolding upload_workspace_files put
  first rel bytes files s ids h = by_key (artifact_key group job_id subtask_id rel) refl h
    where
      Outcome : Type 0
      Outcome = Result ArtifactError (List String) × ArtifactStore

      after : Result ArtifactError String → Outcome
      after r = (store_under r bytes >>= λ id. upload files >>= λ rest. pure (id ∷ rest)) s

      listed : String → Outcome → Outcome
      listed id r = resume r.0 (λ rest. pure (id ∷ rest)) r.1

      by_rest :
          (id : String) (r : Outcome)
          → artifact_key group job_id subtask_id rel ≡ ok id
          → upload files (write id bytes s) ≡ r
          → (listed id r).0 ≡ ok ids
          → First rel bytes files s ids
      by_rest id (ok rest, t) named ran shape = record {
        id = id;
        rest = rest;
        shape = ground (arith, shape);
        named = named;
        returned = ap (λ r. r.0) ran;
        leaves = rw (named, ran) refl;
      }
      by_rest id (raise e, t) named ran shape = absurd (ground (arith, shape))

      by_key :
          (r : Result ArtifactError String)
          → artifact_key group job_id subtask_id rel ≡ r
          → (after r).0 ≡ ok ids
          → First rel bytes files s ids
      by_key (ok id) e h = by_rest id (upload files (write id bytes s)) e refl h
      by_key (raise x) e h = absurd (ground (arith, h))

  -- A key that the upload does not return holds what it held.
  upload-keeps :
      (files : List (String × Blob)) (s : ArtifactStore) (ids : List String) (key : String)
      → (upload files s).0 ≡ ok ids
      → ¬ Mem key ids
      → get key (upload files s).1 ≡ get key s
  unfolding upload_workspace_files
  upload-keeps [] s ids key h out = refl
  upload-keeps ((rel, bytes) ∷ files) s ids key h out =
      let f = first rel bytes files s ids h in
      let outside : ¬ Mem key (f.id ∷ f.rest) = subst (λ l. ¬ Mem key l) f.shape out in
      ap (get key) f.leaves
      ∙ upload-keeps files (write f.id bytes s) f.rest key f.returned
          (λ m. outside (mem-cons_of_mem f.id m))
      ∙ get-write_other f.id key bytes s
          (λ same. outside (subst (λ k. Mem k (f.id ∷ f.rest)) same mem-cons_self))

  abbrev pub AllBelow : List String → Type 0
  AllBelow [] = Unit
  AllBelow (id ∷ ids) = Below group job_id subtask_id id × AllBelow ids

  -- Every id that an upload returns lies below the directory of the subtask.
  pub upload_workspace_files-Below :
      (files : List (String × Blob)) (s : ArtifactStore) (ids : List String)
      → Segment group
      → Segment job_id
      → Segment subtask_id
      → (upload_workspace_files group job_id subtask_id files s).0 ≡ ok ids
      → AllBelow ids
  unfolding upload_workspace_files
  upload_workspace_files-Below [] s ids g j t h =
      let e : [] ≡ ids = ground (arith, h) in subst AllBelow e tt
  upload_workspace_files-Below ((rel, bytes) ∷ files) s ids g j t h =
      let f = first rel bytes files s ids h in
      subst AllBelow (sym f.shape) (
        artifact_key-Below group job_id subtask_id rel f.id g j t f.named,
        upload_workspace_files-Below files (write f.id bytes s) f.rest g j t f.returned,
      )

  -- After an upload whose ids are distinct, each id gives the content of its file.
  pub get-upload_workspace_files :
      (files : List (String × Blob)) (s : ArtifactStore) (ids : List String)
      → (upload_workspace_files group job_id subtask_id files s).0 ≡ ok ids
      → Nodup ids
      → map (λ id. get id (upload_workspace_files group job_id subtask_id files s).1) ids
        ≡ map (λ file. ok file.1) files
  unfolding upload_workspace_files
  get-upload_workspace_files [] s ids h distinct =
      let e : [] ≡ ids = ground (arith, h) in rw (sym e) refl
  get-upload_workspace_files ((rel, bytes) ∷ files) s ids h distinct =
      let f = first rel bytes files s ids h in
      let (fresh, rest) = Nodup-cons.0 (subst Nodup f.shape distinct) in
      let kept : get f.id (upload files (write f.id bytes s)).1 ≡ ok bytes =
        upload-keeps files (write f.id bytes s) f.rest f.id f.returned fresh
        ∙ get-write_same f.id bytes s in
      rw (f.leaves, f.shape, kept)
        (ap (◌∷◌ (ok bytes))
          (get-upload_workspace_files files (write f.id bytes s) f.rest f.returned rest))
