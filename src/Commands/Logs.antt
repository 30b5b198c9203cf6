-- ===== src/Commands/Logs.antt =====
-- cmd/fireactions/logs.go: `logs`, and a machine's log on its whole way to the terminal, through
-- agent/rpc.go and server/rpc.go.
use fireactions.Prelude.{
  concat, Text, ℕ, suc, ◌*◌, ◌≤◌, ◌<◌, ◌≡◌, refl, ap, ◌∙◌, Bool, false, List, [], ◌∷◌, ◌++◌, map,
  Option, none, some, Result, ok, err, Fault, ℤ, pos, length, All, signed32, to_int32,
  signed32-wrap32, if◌then◌else◌,
}
use fireactions.Pool.{Machine}
use fireactions.Scanner.Lines.{IsLine, unlines}
use fireactions.Server.{Server, Guest, find_machine}
use fireactions.Server.Proxy.{Recv, line, eof, broken, Proxied, LogsError, get_machine_logs, proxy}
use fireactions.Tail
use fireactions.Agent.{LogFile, LogsFault, get_logs, contents}
use fireactions.Agent.Logs.{ended}
use fireactions.Agent.Relay.{received, get_machine_logs-tail}

pub data LogsCmdError : Type 0 where
  failed_to_get_stream failed_to_receive_log failed_to_write_log : Fault → LogsCmdError

-- What the terminal has got, and how the command has ended; none while it waits for the server.
pub record Shown : Type 0 where
  pub written : Text
  pub outcome : Option (Result LogsCmdError (Unit {0}))

abbrev pub ends_with : Result LogsCmdError (Unit {0}) → Shown
ends_with r = record { written = []; outcome = some r }

-- The loop over what the server's stream gives. The n-th Write is answered by `write n`; `interrupted`
-- says whether the context has been cancelled when Recv fails.
unfoldable pub show : Bool → (ℕ → Option Fault) → ℕ → List Recv → Shown
show interrupted write n [] = record { written = []; outcome = none }
show interrupted write n (eof ∷ rest) = ends_with (ok tt)
show interrupted write n (broken e ∷ rest) =
    ends_with (if interrupted then ok tt else err (failed_to_receive_log e))
show interrupted write n (line l ∷ rest) =
    let later = show interrupted write (suc n) rest in
    elim (write n) [
      | some e ↦ ends_with (err (failed_to_write_log e))
      | none ↦ record { written = l ++ later.written; outcome = later.outcome }
    ]

-- `request` is the call of GetMachineLogs with its arguments. The number of lines is sent as int32(tail).
unfoldable pub run_logs_cmd :
    (Text → Bool → ℤ → Result Fault (List Recv))
    → Bool
    → (ℕ → Option Fault)
    → Text
    → Bool
    → ℤ
    → Shown
unfolding show signed32 to_int32
run_logs_cmd request interrupted write vmid follow tail =
    elim (request vmid follow (signed32 (to_int32 tail))) [
      | err e ↦ ends_with (err (failed_to_get_stream e))
      | ok stream ↦ show interrupted write 0 stream
    ]

-- The client's end of the server's stream, as the agent's stream reaches the server.
abbrev pub closed_by : (LogsError → Fault) → Option (Result LogsError (Unit {0})) → List Recv
closed_by as_status none = []
closed_by as_status (some (ok u)) = eof ∷ []
closed_by as_status (some (err e)) = broken (as_status e) ∷ []

abbrev pub reaching_client : (LogsError → Fault) → Proxied → List Recv
reaching_client as_status p = map line p.sent ++ closed_by as_status p.outcome

-- What is between the command and a machine's log file: the statuses that errors become, the answers of
-- Send on either way, and how long the context of the agent's stream lasts.
pub record Wires : Type 0 where
  pub guest : Guest
  pub to_server : ℕ → Option Fault
  pub to_client : ℕ → Option Fault
  pub agent_status : LogsFault → Fault
  pub server_status : LogsError → Fault
  pub patience : ℕ

-- The call of GetMachineLogs at a server of which every machine has that file.
unfoldable pub over_wires :
    Wires → LogFile → List Tail.Happening → Server → Text → Bool → ℤ → Result Fault (List Recv)
over_wires w file es s id follow lines = ok (
    reaching_client w.server_status (
      get_machine_logs w.guest
        (λ m. ok (received w.agent_status (get_logs w.to_server w.patience file es follow lines)))
        w.to_client id s))

show-lines :
    (interrupted : Bool) (write : ℕ → Option Fault) (n : ℕ) (ls : List Text)
    → ((k : ℕ) → write k ≡ none)
    → show interrupted write n (map line ls ++ eof ∷ [])
      ≡ record { written = concat ls; outcome = some (ok tt) }
unfolding show
show-lines interrupted write n [] h = refl
show-lines interrupted write n (l ∷ ls) h =
    rw (h n, show)
      (ap (λ (x : Shown). record { written = l ++ x.written; outcome = x.outcome })
        (show-lines interrupted write (suc n) ls h))

get_machine_logs-proxy :
    (guest : Guest) (stream : List Recv) (send : ℕ → Option Fault) (id : Text) (s : Server)
    (m : Machine)
    → find_machine id s ≡ ok m
    → guest.connect m ≡ ok tt
    → get_machine_logs guest (λ m. ok stream) send id s ≡ proxy send 0 stream
unfolding get_machine_logs proxy
get_machine_logs-proxy guest stream send id s m found reached =
    rw (found, get_machine_logs) (rw reached refl)

-- `logs ID --tail n` writes exactly the last n lines of the machine's log, each with its newline, and ends
-- without an error: where the machine is found and its agent can be reached, n fits an int32, the lines
-- take 100 bytes each on average at most, no line of the file has a MiB, the file is not followed, no
-- send and no write fails, and the context of the agent's stream outlives the lines.
pub run_logs_cmd-tail :
    (w : Wires) (interrupted : Bool) (write : ℕ → Option Fault) (n : ℕ) (before last : List Text)
    (es : List Tail.Happening) (id : Text) (s : Server) (m : Machine)
    → find_machine id s ≡ ok m
    → w.guest.connect m ≡ ok tt
    → ((k : ℕ) → w.to_server k ≡ none)
    → ((k : ℕ) → w.to_client k ≡ none)
    → ((k : ℕ) → write k ≡ none)
    → length last < w.patience
    → All (IsLine 1048576) before
    → All (IsLine 1048576) last
    → length last ≡ suc n
    → suc n < 2147483648
    → length (unlines last) ≤ suc n * 100
    → run_logs_cmd
        (over_wires w (contents (unlines before ++ unlines last)) es s)
        interrupted
        write
        id
        false
        (pos (suc n))
      ≡ record { written = concat (map ended last); outcome = some (ok tt) }
unfolding run_logs_cmd over_wires
run_logs_cmd-tail w interrupted write n before last es id s m found reached to_s to_c wr p b l e i
      h =
    let file = contents (unlines before ++ unlines last) in
    let stream : ℤ → List Recv =
      λ lines. received w.agent_status (get_logs w.to_server w.patience file es false lines) in
    let handed_on =
      get_machine_logs-proxy w.guest (stream (pos (suc n))) w.to_client id s m found reached
      ∙ get_machine_logs-tail w.to_server w.to_client w.agent_status w.patience n before last es
          to_s to_c p b l e h in
    ap
      (λ lines. show interrupted write 0 (
        reaching_client w.server_status
          (get_machine_logs w.guest (λ m. ok (stream lines)) w.to_client id s)))
      (signed32-wrap32 (suc n) i)
    ∙ ap (λ r. show interrupted write 0 (reaching_client w.server_status r)) handed_on
    ∙ show-lines interrupted write 0 (map ended last) wr
