-- ===== src/Node/Jobs/Load.antt =====
-- What is on disk is what is in memory: writing keeps them equal, and loading reads the same jobs.
use mathlib.Core.List.{Nodup-append, mem-cons_self, append_assoc, append-nil, map-append}
use myco_agent.Common.{◌≡◌, refl, ◌∙◌, ap, none, some, List, [], ◌∷◌, ◌++◌, map, Nodup, arith}
use myco_agent.Models.{JobMemory}
use myco_agent.Table.{keys, find, put}
use myco_agent.Table.Rows.{put_new, find-none_of_not-mem}
use myco_agent.Node.Jobs.{Codec, Restores, job_key, row_key, row_of, load_rows}

module _ (codec : Codec) where
  pub map-put :
      (job : JobMemory) (jobs : List JobMemory)
      → put row_key (row_of codec job) (map (row_of codec) jobs)
        ≡ map (row_of codec) (put job_key job jobs)
  unfolding put
  map-put job [] = refl
  map-put job (j ∷ jobs) = ground (arith, map-put job jobs)

  head_fresh :
      (job : JobMemory) (before after : List JobMemory)
      → Nodup (keys job_key (before ++ (job ∷ after)))
      → find job_key job.job_id before ≡ none
  head_fresh job before after d =
      let (_, _, apart) = Nodup-append.0 (rw map-append at d) in
      find-none_of_not-mem job_key job.job_id before (λ m. apart _ m mem-cons_self)

  pub load_rows-map :
      (jobs before : List JobMemory)
      → Restores codec jobs
      → Nodup (keys job_key (before ++ jobs))
      → load_rows codec (map (row_of codec) jobs) before ≡ some (before ++ jobs)
  unfolding load_rows
  load_rows-map [] before r d = rw append-nil
  load_rows-map (job ∷ jobs) before (r, rs) d =
      rw (r, load_rows, put_new job_key job before (head_fresh job before jobs d))
        (load_rows-map jobs (before ++ job ∷ []) rs (rw append_assoc d)
          ∙ ap some (append_assoc before (job ∷ []) jobs))
