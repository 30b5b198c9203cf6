-- ===== src/Tail/Reopen.antt =====
-- agent/tail/tail.go: openFile and reopenFile, the loop that waits for a file that was removed, and setErr,
-- Err and Stop. `Tail.follow_from` has only what comes of it, as `replaced`.
use fireactions.Prelude.{◌≡◌, refl, List, [], ◌∷◌, ◌++◌, Option, none, some, Result, ok, err, Fault}

-- An error that a Tail can be given: errors.Is(err, context.Canceled), or another.
pub data Stopped : Type 0 where
  canceled : Stopped
  failed_to_open failed_to_watch other : Fault → Stopped

abbrev pub open_file : Option Fault → Result Stopped (Unit {0})
open_file none = ok tt
open_file (some e) = err (failed_to_open e)

-- A round of reopenFile's loop: the context is done, or os.Open and then watcher.Add answer.
pub data Round : Type 0 where
  context_done : Round
  opens : Option Fault → Option Fault → Round

abbrev pub add_watch : Option Fault → Result Stopped (Unit {0})
add_watch none = ok tt
add_watch (some e) = err (failed_to_watch e)

-- The loop, without a pause between its rounds; `none` while it goes on.
unfoldable pub reopen_file : List Round → Option (Result Stopped (Unit {0}))
reopen_file [] = none
reopen_file (context_done ∷ rounds) = some (err canceled)
reopen_file (opens file watch ∷ rounds) =
    let later = reopen_file rounds in
    elim (open_file file) [ ok u ↦ some (add_watch watch) | err e ↦ later ]

-- setErr on the field `err`. The first error stays.
unfoldable pub set_err : Stopped → Option Stopped → Option Stopped
set_err canceled kept = kept
set_err (failed_to_open e) kept = elim kept [ none ↦ some (failed_to_open e) | some k ↦ some k ]
set_err (failed_to_watch e) kept = elim kept [ none ↦ some (failed_to_watch e) | some k ↦ some k ]
set_err (other e) kept = elim kept [ none ↦ some (other e) | some k ↦ some k ]

-- The field after reopenFile has returned to the loop of follow mode.
unfoldable pub after_reopening : Option (Result Stopped (Unit {0})) → Option Stopped
unfolding set_err
after_reopening none = none
after_reopening (some (ok u)) = none
after_reopening (some (err e)) = set_err e none

-- Rounds in which the file is not there.
unfoldable pub absences : List Fault → List Round
absences [] = []
absences (e ∷ es) = opens (some e) none ∷ absences es

-- However long the file is not there, reopenFile goes on, and ends with the first round in which the file
-- is there or the context done.
pub reopen_file-absences :
    (es : List Fault) (rounds : List Round)
    → reopen_file (absences es ++ rounds) ≡ reopen_file rounds
unfolding reopen_file absences
reopen_file-absences [] rounds = refl
reopen_file-absences (e ∷ es) rounds = reopen_file-absences es rounds

-- A tail that is stopped while it waits for its file has no error.
pub reopen_file-stopped :
    (es : List Fault) (rounds : List Round)
    → after_reopening (reopen_file (absences es ++ context_done ∷ rounds)) ≡ none
unfolding after_reopening reopen_file
reopen_file-stopped es rounds = rw (reopen_file-absences es (context_done ∷ rounds)) refl
