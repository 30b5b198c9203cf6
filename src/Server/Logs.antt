-- ===== src/Server/Logs.antt =====
-- server/rpc.go: the loop of GetMachineLogs, which hands an agent's log lines on to the client.
use fireactions.Prelude.{
  Text, ℕ, suc, ◌+◌, ◌≡◌, refl, ap, inl, inr, List, [], ◌∷◌, ◌++◌, map, Option, none, some, ok, err,
  Fault, arith, length, Option-cases,
}
use fireactions.Server.{internal, receive_from_agent}
use fireactions.Server.Proxy.{Recv, line, eof, broken, Proxied, with_status, send_failed, proxy}

-- The sends from the n-th on for a list of lines succeed.
abbrev pub AllSent : (ℕ → Option Fault) → ℕ → List Text → Type 0
AllSent send n [] = Unit
AllSent send n (l ∷ ls) = (send n ≡ none) × AllSent send (suc n) ls

-- The ways in which the loop can have gone.
pub data Ran (send : ℕ → Option Fault) (n : ℕ) (stream : List Recv) (p : Proxied) : Type 0 where
  waiting : stream ≡ map line p.sent → p.outcome ≡ none → Ran send n stream p
  finished :
      (rest : List Recv)
      → stream ≡ map line p.sent ++ eof ∷ rest
      → p.outcome ≡ some (ok tt)
      → Ran send n stream p
  agent_failed :
      (e : Fault) (rest : List Recv)
      → stream ≡ map line p.sent ++ broken e ∷ rest
      → p.outcome
        ≡ some (err (with_status (record { code = internal; cause = receive_from_agent e })))
      → Ran send n stream p
  client_failed :
      (e : Fault) (l : Text) (rest : List Recv)
      → stream ≡ map line p.sent ++ line l ∷ rest
      → send (n + length p.sent) ≡ some e
      → p.outcome ≡ some (err (send_failed e))
      → Ran send n stream p

pub proxy-line :
    (send : ℕ → Option Fault) (n : ℕ) (l : Text) (rest : List Recv)
    → send n ≡ none
    → proxy send n (line l ∷ rest) ≡ record {
      sent = l ∷ (proxy send (suc n) rest).sent;
      outcome = (proxy send (suc n) rest).outcome;
    }
unfolding proxy
proxy-line send n l rest e = rw (e, proxy) refl

prepend-Ran :
    (send : ℕ → Option Fault) (n : ℕ) (l : Text) (rest : List Recv) (p : Proxied)
    → Ran send (suc n) rest p
    → Ran send n (line l ∷ rest) (record { sent = l ∷ p.sent; outcome = p.outcome })
prepend-Ran send n l rest p (waiting e o) = waiting (ap (◌∷◌ (line l)) e) o
prepend-Ran send n l rest p (finished r e o) = finished r (ap (◌∷◌ (line l)) e) o
prepend-Ran send n l rest p (agent_failed f r e o) = agent_failed f r (ap (◌∷◌ (line l)) e) o
prepend-Ran send n l rest p (client_failed f l' r e s o) =
    let same : n + suc (length p.sent) ≡ suc n + length p.sent = omega arith in
    client_failed f l' r (ap (◌∷◌ (line l)) e) (rw same s) o

-- The loop sends the client exactly the agent's lines, in their order, from the first on. It returns
-- nil only at the end of the agent's stream, with all lines before it sent; an error of the agent's
-- stream or of a send ends it there, with just the lines before it sent; else it waits for the agent.
pub proxy-Ran :
    (send : ℕ → Option Fault) (n : ℕ) (stream : List Recv)
    → Ran send n stream (proxy send n stream) × AllSent send n (proxy send n stream).sent
unfolding proxy
proxy-Ran send n [] = (waiting refl refl, tt)
proxy-Ran send n (eof ∷ rest) = (finished rest refl refl, tt)
proxy-Ran send n (broken e ∷ rest) = (agent_failed e rest refl refl, tt)
proxy-Ran send n (line l ∷ rest) = elim (Option-cases (send n)) [
  | inl e ↦
      let (r, a) = proxy-Ran send (suc n) rest in
      rw (proxy-line send n l rest e)
        (prepend-Ran send n l rest (proxy send (suc n) rest) r, (e, a))
  | inr (f, e) ↦
      let same : n + 0 ≡ n = omega arith in
      rw (e, proxy) (client_failed f l rest refl (rw same e) refl, tt)
]
