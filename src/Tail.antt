-- ===== src/Tail.antt =====
-- agent/tail/tail.go: what a Tail sends on its channel of lines, for a file and for what happens to
-- the file afterwards. What the channel's reader takes before the context is cancelled is a number.
-- Left out: reads that fail; the goroutine at its waits, and Stop, are in Tail/Goroutine.antt.
pub mod Window
pub mod Follow
pub mod Reopen
pub mod Goroutine
pub mod Stop
pub mod Tests
use fireactions.Prelude.{
  Text, ℕ, zero, suc, ◌+◌, ◌-◌, ◌*◌, ◌≡◌, Bool, true, false, List, [], ◌∷◌, ◌++◌, map, Option, none,
  some, Result, ok, err, ℤ, pos, negsuc, ltb, leb, if◌then◌else◌, ◌==◌, length, drop,
}
use fireactions.Scanner.{Scanned, scan, drained}

pub data Whence : Type 0 where
  seek_start seek_current seek_end : Whence

pub record SeekInfo : Type 0 where
  pub offset : ℤ
  pub whence : Whence

pub record TailConfig : Type 0 where
  pub follow : Bool
  pub location : Option SeekInfo
  pub max_line_size : ℕ
  pub re_open : Bool

pub data TailError : Type 0 where
  open_file negative_position token_too_long watch_reopened watching : TailError

pub data Line : Type 0 where
  text : Text → Line
  failed : TailError → Line

-- TailFile's default, and the size of the buffer that the scanners are given to start with, which a
-- smaller limit does not shrink.
unfoldable pub buffer_size : TailConfig → ℕ
buffer_size c =
    let max = if c.max_line_size == 0 then 1048576 else c.max_line_size in
    if ltb max 65536 then 65536 else max

unfoldable pub keep_last : ℕ → List Text → List Text
keep_last n lines = if ltb n (length lines) then drop (length lines - n) lines else lines

-- tailLines up to its sends, for a file of 2 ^ 63 bytes at most. An estimated offset below 0 is 0.
unfoldable pub tail_lines : ℕ → ℕ → Text → Result TailError (List Text)
unfolding keep_last scan
tail_lines n max file =
    if length file == 0
    then ok []
    else let scanned = scan max (drop (length file - n * 100) file) in
      if scanned.too_long then err token_too_long else ok (keep_last n scanned.lines)

-- Lines to send, and what is unread then.
pub record Sought : Type 0 where
  pub history : List Text
  pub unread : Text

-- file.Seek with an offset from `base`.
unfoldable pub seek : ℕ → ℤ → Text → Result TailError Sought
seek base (pos n) file = ok (record { history = []; unread = drop (base + n) file })
seek base (negsuc n) file =
    if leb (suc n) base
    then ok (record { history = []; unread = drop (base - suc n) file })
    else err negative_position

-- tailLines as a seek: the scanner has read the file to its end.
abbrev pub tail_sought : Result TailError (List Text) → Result TailError Sought
tail_sought (err e) = err e
tail_sought (ok lines) = ok (record { history = lines; unread = [] })

unfoldable pub seek_from : Whence → ℤ → ℕ → Text → Result TailError Sought
unfolding seek tail_lines
seek_from seek_start offset max file = seek 0 offset file
seek_from seek_current offset max file = seek 0 offset file
seek_from seek_end (pos n) max file = seek (length file) (pos n) file
seek_from seek_end (negsuc n) max file = tail_sought (tail_lines (suc n) max file)

unfoldable pub seek_to_position : TailConfig → Text → Result TailError Sought
unfolding seek_from buffer_size
seek_to_position c file = elim c.location [
  | none ↦ ok (record { history = []; unread = file })
  | some l ↦ seek_from l.whence l.offset (buffer_size c) file
]

-- readLines, and the head of the loop in follow mode: the lines, then the scanner's error.
unfoldable pub read_lines : Scanned → List Line
read_lines s = map text s.lines ++ (if s.too_long then failed token_too_long ∷ [] else [])

-- What the select at the end of the loop receives. `written` says what has been appended to the file
-- since it was last read. A file that was removed or renamed comes with the file that opening its name
-- finds at last, or with `none` where that one cannot be watched.
pub data Happening : Type 0 where
  written : Text → Happening
  replaced : Option Text → Happening
  watch_error : TailError → Happening
  other_event watcher_closed : Happening

-- What the loop sends, the error that it leaves, and whether it goes on waiting.
pub record Followed : Type 0 where
  pub sent : List Line
  pub error : Option TailError
  pub waiting : Bool

abbrev pub after : List Line → Followed → Followed
after lines f = record { sent = lines ++ f.sent; error = f.error; waiting = f.waiting }

abbrev returning : Option TailError → Followed
returning e = record { sent = []; error = e; waiting = false }

-- The loop of follow mode from its head on, for a scanner that has been let loose on the file. A
-- scanner that has met its end stays there: after anything but a write or a reopening only what a
-- line that is too long has left in its buffer is to come.
unfoldable pub follow_from : ℕ → Bool → Scanned → List Happening → Followed
unfolding read_lines scan
follow_from max reopens scanner [] = record {
  sent = read_lines scanner;
  error = none;
  waiting = true;
}
follow_from max reopens scanner (written chunk ∷ es) =
    after (read_lines scanner) (follow_from max reopens (scan max (scanner.unread ++ chunk)) es)
follow_from max reopens scanner (replaced none ∷ es) =
    after (read_lines scanner) (returning (if reopens then some watch_reopened else none))
follow_from max reopens scanner (replaced (some file) ∷ es) =
    let again = follow_from max reopens (scan max file) es in
    after (read_lines scanner) (if reopens then again else returning none)
follow_from max reopens scanner (watch_error f ∷ es) =
    after (read_lines scanner ++ failed f ∷ []) (follow_from max reopens (drained scanner) es)
follow_from max reopens scanner (other_event ∷ es) =
    after (read_lines scanner) (follow_from max reopens (drained scanner) es)
follow_from max reopens scanner (watcher_closed ∷ es) = after (read_lines scanner) (returning none)

-- The first lines of a list.
abbrev take_first : ℕ → List Line → List Line
take_first zero ls = []
take_first (suc n) [] = []
take_first (suc n) (l ∷ ls) = l ∷ take_first n ls

-- What the reader has of the lines when the context is cancelled after `room` of them. setErr drops the error of a cancelled context.
unfoldable pub deliver : ℕ → Followed → Followed
deliver room f =
    if ltb room (length f.sent)
    then record { sent = take_first room f.sent; error = none; waiting = false }
    else f

-- The goroutine of TailFile from the seek on.
unfoldable pub produce_from : TailConfig → List Happening → Result TailError Sought → Followed
unfolding follow_from read_lines scan buffer_size
produce_from c es (err e) = returning (some e)
produce_from c es (ok sought) =
    let scanner = scan (buffer_size c) sought.unread in
    let rest =
      if c.follow
      then follow_from (buffer_size c) c.re_open scanner es
      else record { sent = read_lines scanner; error = none; waiting = false } in
    after (map text sought.history) rest

-- The whole goroutine, for a file that cannot be opened where it is `none`.
unfoldable pub produce : TailConfig → Option Text → List Happening → Followed
unfolding seek_to_position produce_from
produce c none es = returning (some open_file)
produce c (some file) es = produce_from c es (seek_to_position c file)

-- A reader that stops the tail after `room` lines.
unfoldable pub run : TailConfig → Option Text → ℕ → List Happening → Followed
unfolding produce deliver
run c file room es = deliver room (produce c file es)
