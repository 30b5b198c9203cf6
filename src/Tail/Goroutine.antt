-- ===== src/Tail/Goroutine.antt =====
-- agent/tail/tail.go: the goroutine of TailFile, cut at the statements that may wait, with Stop and Wait. What
-- the files, the scanners and the watcher give is part of a turn; Tail.antt says what the scanners give.
use fireactions.Prelude.{
  Text, ◌≡◌, Bool, true, false, List, [], ◌∷◌, Option, none, some, Result, ok, err, if◌then◌else◌,
}
use fireactions.Tail.{TailConfig, Line}
use fireactions.Tail.Reopen.{Stopped, set_err}

-- Where the goroutine stands. A list is what is left to be sent: of tailLines, or of what the scanner gives,
-- with its error at last.
pub data Place : Type 0 where
  opening seeking starting scanning waiting : Place
  sending_history : List Text → Place
  reading making_watcher following : List Line → Place
  sending_error reopening rewatching returned : Place

pub record Goroutine : Type 0 where
  pub config : TailConfig
  pub cancelled : Bool
  pub place : Place
  pub error : Option Stopped

-- What an event of the watcher is to the loop; `closes` is a closed channel.
pub data Change : Type 0 where
  is_written removes_or_renames other_event closes fails : Change

-- What happens next: the answer of openFile, of seekToPosition (with the lines of tailLines), of a
-- scanner, or of NewWatcher and Add; the end of a loop over lines; a line that the reader takes;
-- ctx.Done in a select; or an event of the watcher.
pub data Turn : Type 0 where
  opens watches : Option Stopped → Turn
  seeks : Result Stopped (List Text) → Turn
  scans : List Line → Turn
  goes_on sends is_done : Turn
  hears : Change → Turn

-- TailFile's goroutine at its start.
abbrev pub tail_file : TailConfig → Goroutine
tail_file c = record { config = c; cancelled = false; place = opening; error = none }

abbrev moves : Place → Goroutine → Option Goroutine
moves p g = some (record g { place = p })

abbrev returns : Stopped → Goroutine → Option Goroutine
returns e g = some (record g { place = returned; error = set_err e g.error })

abbrev after : Option Stopped → Place → Goroutine → Option Goroutine
after none p g = moves p g
after (some e) p g = returns e g

-- A select with ctx.Done, which sets no error: setErr drops a cancelled context.
abbrev done : Goroutine → Option Goroutine
done g = if g.cancelled then moves returned g else none

unfoldable pub open_step : Turn → Goroutine → Option Goroutine
unfolding set_err
open_step (opens e) g = after e seeking g
open_step _ g = none

unfoldable pub seek_step : Turn → Goroutine → Option Goroutine
unfolding set_err
seek_step (seeks (ok history)) g = moves (sending_history history) g
seek_step (seeks (err e)) g = returns e g
seek_step _ g = none

unfoldable pub history_step : List Text → Turn → Goroutine → Option Goroutine
history_step [] goes_on g = moves starting g
history_step (l ∷ ls) sends g = moves (sending_history ls) g
history_step (l ∷ ls) is_done g = done g
history_step _ _ g = none

-- The first scanner, and Follow.
unfoldable pub start_step : Turn → Goroutine → Option Goroutine
start_step (scans ls) g =
    if g.config.follow then moves (making_watcher ls) g else moves (reading ls) g
start_step _ g = none

unfoldable pub read_step : List Line → Turn → Goroutine → Option Goroutine
read_step [] goes_on g = moves returned g
read_step (l ∷ ls) sends g = moves (reading ls) g
read_step (l ∷ ls) is_done g = done g
read_step _ _ g = none

unfoldable pub watch_step : List Line → Turn → Goroutine → Option Goroutine
unfolding set_err
watch_step ls (watches e) g = after e (following ls) g
watch_step ls _ g = none

-- The lines at the head of the loop of follow mode.
unfoldable pub follow_step : List Line → Turn → Goroutine → Option Goroutine
follow_step [] goes_on g = moves waiting g
follow_step (l ∷ ls) sends g = moves (following ls) g
follow_step (l ∷ ls) is_done g = done g
follow_step _ _ g = none

-- The select at the end of the loop. Where both are ready, it takes ctx.Done or an event.
unfoldable pub wait_step : Turn → Goroutine → Option Goroutine
wait_step is_done g = done g
wait_step (hears is_written) g = moves scanning g
wait_step (hears removes_or_renames) g =
    if g.config.re_open then moves reopening g else moves returned g
wait_step (hears other_event) g = moves scanning g
wait_step (hears closes) g = moves returned g
wait_step (hears fails) g = moves sending_error g
wait_step _ g = none

-- A new scanner after a write or a reopening; the old one otherwise.
unfoldable pub scan_step : Turn → Goroutine → Option Goroutine
scan_step (scans ls) g = moves (following ls) g
scan_step _ g = none

unfoldable pub error_step : Turn → Goroutine → Option Goroutine
error_step sends g = moves scanning g
error_step is_done g = done g
error_step _ g = none

-- A round of reopenFile: its select has a default, which is taken only while the context is not done.
unfoldable pub reopen_step : Turn → Goroutine → Option Goroutine
reopen_step is_done g = done g
reopen_step (opens none) g = if g.cancelled then none else moves rewatching g
reopen_step (opens (some e)) g = if g.cancelled then none else moves reopening g
reopen_step _ g = none

unfoldable pub rewatch_step : Turn → Goroutine → Option Goroutine
unfolding set_err
rewatch_step (watches e) g = after e scanning g
rewatch_step _ g = none

-- `none` where the turn cannot come.
unfoldable pub turn_at : Place → Turn → Goroutine → Option Goroutine
unfolding open_step seek_step history_step start_step read_step watch_step follow_step wait_step
    scan_step error_step reopen_step rewatch_step
turn_at opening t g = open_step t g
turn_at seeking t g = seek_step t g
turn_at (sending_history ls) t g = history_step ls t g
turn_at starting t g = start_step t g
turn_at (reading ls) t g = read_step ls t g
turn_at (making_watcher ls) t g = watch_step ls t g
turn_at (following ls) t g = follow_step ls t g
turn_at waiting t g = wait_step t g
turn_at scanning t g = scan_step t g
turn_at sending_error t g = error_step t g
turn_at reopening t g = reopen_step t g
turn_at rewatching t g = rewatch_step t g
turn_at returned t g = none

unfoldable pub run_turn : Turn → Goroutine → Option Goroutine
unfolding turn_at
run_turn t g = turn_at g.place t g

-- Stop cancels the context.
unfoldable pub stop : Goroutine → Goroutine
stop g = record g { cancelled = true }

-- Wait, and so Cleanup, returns when the goroutine has.
abbrev pub Waited : Goroutine → Type 0
Waited g = g.place ≡ returned
