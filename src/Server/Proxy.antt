-- ===== src/Server/Proxy.antt =====
-- server/rpc.go: GetMachineLogs, which hands on what the agent of a machine sends.
use fireactions.Prelude.{Text, ℕ, suc, List, [], ◌∷◌, Option, none, some, Result, ok, err, Fault}
use fireactions.Pool.{Machine}
use fireactions.Server.{
  Server, Guest, Status, internal, connect_to_agent, agent_get_logs, receive_from_agent,
  find_machine, not_found_status,
}

-- What Recv on the agent's stream gives.
pub data Recv : Type 0 where
  line : Text → Recv
  eof : Recv
  broken : Fault → Recv

pub data LogsError : Type 0 where
  with_status : Status → LogsError
  send_failed : Fault → LogsError

-- What the loop has sent to the client, and how it has ended; none while it waits for the agent.
pub record Proxied : Type 0 where
  pub sent : List Text
  pub outcome : Option (Result LogsError (Unit {0}))

-- The loop of GetMachineLogs over what the agent's stream gives. The n-th Send is answered by `send n`,
-- and a line whose Send fails is not counted as sent.
unfoldable pub proxy : (ℕ → Option Fault) → ℕ → List Recv → Proxied
proxy send n [] = record { sent = []; outcome = none }
proxy send n (eof ∷ rest) = record { sent = []; outcome = some (ok tt) }
proxy send n (broken e ∷ rest) = record {
  sent = [];
  outcome = some (err (with_status (record { code = internal; cause = receive_from_agent e })));
}
proxy send n (line l ∷ rest) =
    let later = proxy send (suc n) rest in
    elim (send n) [
      | none ↦ record { sent = l ∷ later.sent; outcome = later.outcome }
      | some e ↦ record { sent = []; outcome = some (err (send_failed e)) }
    ]

-- `get_logs` is the agent's answer to the request: an error, or the stream.
unfoldable pub get_machine_logs :
    Guest → (Machine → Result Fault (List Recv)) → (ℕ → Option Fault) → Text → Server → Proxied
unfolding find_machine proxy
get_machine_logs guest get_logs send id s = elim (find_machine id s) [
  | err e ↦ record { sent = []; outcome = some (err (with_status (not_found_status e))) }
  | ok m ↦ elim (guest.connect m) [
    | err e ↦ record {
      sent = [];
      outcome = some (err (with_status (record { code = internal; cause = connect_to_agent e })));
    }
    | ok u ↦ elim (get_logs m) [
      | err e ↦ record {
        sent = [];
        outcome = some (err (with_status (record { code = internal; cause = agent_get_logs e })));
      }
      | ok stream ↦ proxy send 0 stream
    ]
  ]
]
