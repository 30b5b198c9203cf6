-- ===== src/Mmds/Handoff.antt =====
-- server/pool.go to cmd/fireactions/agent.go: the metadata that createMachine puts into a machine's MMDS
-- as the agent in that machine reads it.
use fireactions.Prelude.{Text, codes, ◌≡◌, refl, ap, ◌∙◌, List, [], ◌∷◌, none, ok, lookup, text_eq}
use fireactions.Agent.{AgentConfig, Setup}
use fireactions.Create.{Metadata}
use fireactions.Mmds.{
  Http, Response, Value, string, bool, token_request, metadata_request, read_token, read_metadata,
  refresh_token, send_put, ask, get_metadata, read_config, configure, build, run_agent_cmd,
  send_get,
}
use fireactions.Mmds.Requests.{Granted}

-- The map literal of createMachine.
unfoldable pub to_map : Metadata → List (Text × Value)
to_map m =
    (codes "runner_id", string m.runner_id)
    ∷ (codes "runner_jit_config", string m.runner_jit_config)
    ∷ (codes "hostname", string m.hostname)
    ∷ (codes "shutdown_on_exit", bool m.shutdown_on_exit)
    ∷ []

abbrev pub config_of : Text → Metadata → AgentConfig
config_of log_level m = record {
  port = 9001;
  runner_jit_config = m.runner_jit_config;
  hostname = m.hostname;
  log_level = log_level;
  shutdown_on_exit = m.shutdown_on_exit;
}

read_config-to_map :
    (level : Text) (m : Metadata) → read_config level (to_map m) ≡ ok (config_of level m)
unfolding read_config to_map lookup text_eq
read_config-to_map level m = refl

-- The service's answer to the agent's request carries a machine's metadata.
pub record Serves (http : Http) (t : Text) (m : Metadata) : Type 0 where
  pub parses : (url : Text) → http.refuses url ≡ none
  pub response : Response
  pub body : Text
  pub answered : http.do_request (metadata_request (codes "fireactions") t) ≡ ok response
  pub status : response.status_code ≡ 200
  pub has_body : response.body ≡ ok body
  pub decoded : http.decode body ≡ ok (to_map m)

read_token-Granted :
    (http : Http) (old t : Text)
    → Granted http t
    → read_token old (http.do_request token_request) ≡ (ok t, t)
unfolding read_token
read_token-Granted http old t g = rw (g.answered, g.status, g.token) refl

read_metadata-Serves :
    (http : Http) (t : Text) (m : Metadata)
    → Serves http t m
    → read_metadata http.decode (http.do_request (metadata_request (codes "fireactions") t))
      ≡ ok (to_map m)
unfolding read_metadata
read_metadata-Serves http t m s = rw (s.answered, s.status, s.has_body, s.decoded) refl

refresh_token-Granted :
    (http : Http) (old t : Text)
    → Granted http t
    → ((url : Text) → http.refuses url ≡ none)
    → refresh_token http old ≡ record { result = ok t; requests = token_request ∷ []; token = t }
unfolding refresh_token send_put
refresh_token-Granted http old t g parses =
    ap (λ o. send_put o (http.do_request token_request) old) (parses token_request.url)
    ∙ ap (λ r. record { result = r.0; requests = token_request ∷ []; token = r.1 })
        (read_token-Granted http old t g)

get_metadata-Serves :
    (http : Http) (old t : Text) (m : Metadata)
    → Granted http t
    → Serves http t m
    → (get_metadata http (codes "fireactions") old).result ≡ ok (to_map m)
unfolding get_metadata ask send_get
get_metadata-Serves http old t m g s =
    let path = codes "fireactions" in
    let request = metadata_request path t in
    ap (λ x. (ask http path x.requests x.token x.result).result)
      (refresh_token-Granted http old t g s.parses)
    ∙ ap (λ o. (send_get http request (token_request ∷ []) t o).result) (s.parses request.url)
    ∙ read_metadata-Serves http t m s

-- Where the metadata service grants a token and serves the metadata that createMachine has made for
-- the machine, runAgentCmd asks for an agent with exactly its JIT configuration, host name and
-- shutdown flag, and answers as agent.New does for them.
pub run_agent_cmd-Metadata :
    (setup : Setup) (http : Http) (level t : Text) (m : Metadata)
    → Granted http t
    → Serves http t m
    → run_agent_cmd setup http level ≡ build setup (ok (config_of level m))
unfolding run_agent_cmd configure
run_agent_cmd-Metadata setup http level t m g s =
    ap (λ r. build setup (configure level r)) (get_metadata-Serves http [] t m g s)
    ∙ ap (build setup) (read_config-to_map level m)
