-- ===== src/Node/OpenCode/Hidden.antt =====
-- What a run of OpenCode and a shell command give back does not name the workspace's directory.
use myco_agent.Common.{
  keep, String, ◌≡◌, refl, true, false, Option, some, List, contains, is_some, truthy, inl, inr,
  Bool-cases, [], ◌∷◌,
}
use myco_agent.Exec.{Result, ok, raise}
use myco_agent.Models.{ChildWork, SubtaskStatus, Json}
use myco_agent.Text.{chars, contains_text}
use myco_agent.Node.Workspace.{variants, strip_local_paths, shell_output}
use myco_agent.Node.Workspace.Hidden.{plain_path, strip_local_paths-hides, contains_text-lacks}
use myco_agent.Node.OpenCode.{
  or_text, join, strip, OpenCodeError, LaunchError, launch, failed, Completed,
  extract_opencode_text, finished, after_run, run,
}

module _ (v : String) (pl : plain_path (chars v) ≡ true) (root resolved : String) where
  -- A work that is given back is the one that was given, completed, with a text that is not empty and does
  -- not name the directory; what is said of a failure does not name it either.
  unfoldable pub Hides : ChildWork → Result OpenCodeError ChildWork → Type 0
  Hides work (ok done) =
      (shown : String) × (done
        ≡ record work { status = SubtaskStatus.completed; result = some shown })
      × (truthy shown ≡ true)
      × (contains_text v shown ≡ false)
  Hides work (raise (failed detail)) = contains_text v detail ≡ false
  Hides work (raise (launch e)) = Unit

  no_output-hides : contains_text v "opencode produced no output" ≡ false
  no_output-hides = contains_text-lacks v pl "opencode produced no output" refl

  module _ (loads : String → Option Json) (h : contains v (variants root resolved) ≡ true) where
    finished-Hides :
        (work : ChildWork) (completed : Completed)
        → Hides work (finished loads root resolved work completed)
    unfolding finished Hides
    finished-Hides work completed = elim (Bool-cases (is_some completed.returncode)) [
      | inl e ↦ rw e (strip_local_paths-hides v pl root resolved _ h)
      | inr e ↦ elim (Bool-cases (truthy shown)) [
        | inl t ↦ rw (e, t) (shown, refl, t, strip_local_paths-hides v pl root resolved _ h)
        | inr t ↦ rw (e, t) no_output-hides
      ]
    ]
      where
        combined : String
        combined = strip (join "\n" (keep truthy (completed.stdout ∷ (completed.stderr ∷ []))))

        shown : String
        shown =
            strip_local_paths root resolved
              (or_text (extract_opencode_text loads completed.stdout) combined)

    -- Where a way to write the workspace's directory begins with a slash and has no opening bracket: a
    -- shell command's output does not name it; and a run of OpenCode gives the work back completed,
    -- with nothing else changed, with a text that is not empty and does not name it, or fails with a
    -- detail that does not name it, or with what kept the program from running.
    pub run-Hides :
        (stdout stderr returncode : Option String)
        (runner : List String → Result LaunchError Completed)
        (arguments : Result LaunchError (List String)) (work : ChildWork)
        → (contains_text v (shell_output root resolved stdout stderr returncode) ≡ false)
          × Hides work (run loads root resolved runner arguments work)
    unfolding run shell_output
    run-Hides stdout stderr returncode runner arguments work =
        (strip_local_paths-hides v pl root resolved _ h, started arguments)
      where
        launched :
            (r : Result LaunchError Completed) → Hides work (after_run loads root resolved work r)
        launched (ok completed) = finished-Hides work completed
        launched (raise e) = unfold Hides in tt

        started :
            (r : Result LaunchError (List String))
            → Hides work (run loads root resolved runner r work)
        started (ok line) = launched (runner line)
        started (raise e) = unfold Hides in tt
