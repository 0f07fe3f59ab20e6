-- ===== src/Manager/Postgres/Tests.antt =====
-- Applications of the theorem on the Postgres store at a concrete call.
use Prim.Native.Char.{char}
use myco_agent.Common.{ℕ, zero, suc, String, Bool, ◌≡◌, refl, ap, [], ◌∷◌, leb, length}
use myco_agent.Models.{JoinMode}
use myco_agent.Text.{Chars, chars, text, chars-text}
use myco_agent.Exec.Agrees.{Agrees}
use myco_agent.Manager.Store.Calls.{Call, create_group_call}
use myco_agent.Manager.Postgres.Refines.{SameReply, perform, perform_pg, perform-Agrees}

abbrev new_lab : Call
new_lab = create_group_call 5 6 "lab" "" JoinMode.auto ("a1" ∷ []) []

abbrev marks : ℕ → Chars
marks zero = []
marks (suc n) = char b'I' tt ∷ marks n

length-marks : (n : ℕ) → length (marks n) ≡ n
length-marks zero = refl
length-marks (suc n) = ap suc (length-marks n)

-- Texts are ordered by their lengths, and an instant is written as that many marks.
abbrev by_length : String → String → Bool
by_length s t = leb (length (chars s)) (length (chars t))

abbrev strokes : ℕ → String
strokes n = text (marks n)

dated : (a b : ℕ) → by_length (strokes a) (strokes b) ≡ leb a b
dated a b = rw (chars-text (marks a), chars-text (marks b), length-marks a, length-marks b) refl

perform-Agrees_example : Agrees SameReply (perform_pg by_length strokes new_lab) (perform new_lab)
perform-Agrees_example = perform-Agrees by_length strokes dated new_lab
