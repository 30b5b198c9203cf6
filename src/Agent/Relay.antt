-- ===== src/Agent/Relay.antt =====
-- agent/rpc.go with server/rpc.go: an agent's log on its way through the server to the client.
use fireactions.Prelude.{
  Text, ℕ, suc, ◌*◌, ◌≤◌, ◌<◌, ◌≡◌, refl, ap, ◌∙◌, false, List, [], ◌∷◌, ◌++◌, map, Option, none,
  some, Result, ok, err, Fault, pos, length, All,
}
use fireactions.Scanner.Lines.{IsLine, unlines}
use fireactions.Server.Proxy.{Recv, line, eof, broken, proxy}
use fireactions.Server.Logs.{proxy-line}
use fireactions.Tail
use fireactions.Agent.{Served, LogsFault, get_logs, contents}
use fireactions.Agent.Logs.{ended, get_logs-tail}

-- What gRPC makes of the handler's end: nil is io.EOF at the other end. `as_status` is the error that an
-- error of the handler becomes.
unfoldable pub closing_message :
    (LogsFault → Fault) → Option (Result LogsFault (Unit {0})) → List Recv
closing_message as_status none = []
closing_message as_status (some (ok u)) = eof ∷ []
closing_message as_status (some (err e)) = broken (as_status e) ∷ []

-- The agent's stream as the server receives it.
unfoldable pub received : (LogsFault → Fault) → Served → List Recv
unfolding closing_message
received as_status s = map line s.sent ++ closing_message as_status s.outcome

proxy-eof :
    (send : ℕ → Option Fault) (n : ℕ) (ls : List Text)
    → ((k : ℕ) → send k ≡ none)
    → proxy send n (map line ls ++ eof ∷ []) ≡ record { sent = ls; outcome = some (ok tt) }
unfolding proxy
proxy-eof send n [] s = refl
proxy-eof send n (l ∷ ls) s =
    proxy-line send n l (map line ls ++ eof ∷ []) (s n)
    ∙ ap (λ p. record { sent = l ∷ p.sent; outcome = p.outcome }) (proxy-eof send (suc n) ls s)

-- The client that asks the server for the last n lines of a machine's log gets exactly those, each with
-- its newline, and then the end of the stream: where the lines take 100 bytes each on average at most,
-- no line of the file has a MiB, the file is not followed, no send fails on either way, and the
-- context of the agent's stream outlives the lines.
pub get_machine_logs-tail :
    (to_server to_client : ℕ → Option Fault) (as_status : LogsFault → Fault) (patience n : ℕ)
    (before last : List Text) (es : List Tail.Happening)
    → ((k : ℕ) → to_server k ≡ none)
    → ((k : ℕ) → to_client k ≡ none)
    → length last < patience
    → All (IsLine 1048576) before
    → All (IsLine 1048576) last
    → length last ≡ suc n
    → length (unlines last) ≤ suc n * 100
    → proxy to_client 0 (
        received as_status (
          get_logs to_server patience
            (contents (unlines before ++ unlines last))
            es
            false
            (pos (suc n))))
      ≡ record { sent = map ended last; outcome = some (ok tt) }
unfolding received
get_machine_logs-tail to_server to_client as_status patience n before last es s c p a b e h =
    ap (λ r. proxy to_client 0 (received as_status r))
      (get_logs-tail to_server patience n before last es s p a b e h)
    ∙ proxy-eof to_client 0 (map ended last) c
