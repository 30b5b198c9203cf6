-- ===== src/Mmds.antt =====
-- agent/mmds/client.go and cmd/fireactions/agent.go: how the agent gets its configuration from the
-- metadata service of its virtual machine. The HTTP client (with the retries of go-retryablehttp) and
-- the decoding of JSON are parameters. Left out: the context, and the read of the body of an
-- answer that is an error.
pub mod Requests
pub mod Handoff
use fireactions.Prelude.{
  Text, codes, ℕ, zero, suc, ◌+◌, ◌≡◌, Bool, true, false, not, List, [], ◌∷◌, ◌++◌, Option, none,
  some, Result, ok, err, Fault, ltb, if◌then◌else◌, ◌==◌, lookup, has_prefix, map_err,
}
use fireactions.Agent.{AgentConfig, AgentError, Agent, Setup, new_agent}
use fireactions.Create.{Metadata}

-- The values of map[string]interface{} that the code tells apart.
pub data Value : Type 0 where
  string : Text → Value
  bool : Bool → Value
  other : Value

pub data Method : Type 0 where
  get put : Method

pub record Request : Type 0 where
  pub method : Method
  pub url : Text
  pub headers : List (Text × Text)

pub record Response : Type 0 where
  pub status_code : ℕ
  pub body : Result Fault Text

-- http.NewRequest, which refuses a URL that it cannot parse, http.Client.Do, and json's Decode.
pub record Http : Type 0 where
  pub refuses : Text → Option Fault
  pub do_request : Request → Result Fault Response
  pub decode : Text → Result Fault (List (Text × Value))

pub data MmdsError : Type 0 where
  refreshing_token failed : Fault → MmdsError
  token_status unexpected_status : ℕ → MmdsError
  unauthorized : MmdsError

-- A call's result, the requests that it has sent, in their order, and the client's token after it.
pub record Asked (A : Type 0) : Type 0 where
  pub result : Result MmdsError A
  pub requests : List Request
  pub token : Text

abbrev pub address : Text
address = codes "http://169.254.169.254"

abbrev pub token_request : Request
token_request = record {
  method = put;
  url = address ++ codes "/latest/api/token";
  headers = (codes "X-Metadata-Token-TTL-Seconds", codes "21600") ∷ [];
}

abbrev keep_body : Text → Result Fault Text → Result MmdsError Text × Text
keep_body token (err e) = (err (refreshing_token e), token)
keep_body token (ok t) = (ok t, t)

-- The body of the answer becomes the token where its status is 200.
unfoldable pub read_token : Text → Result Fault Response → Result MmdsError Text × Text
read_token token (err e) = (err (refreshing_token e), token)
read_token token (ok r) =
    if r.status_code == 200
    then keep_body token r.body
    else (err (token_status r.status_code), token)

-- The request for a token, where its URL can be parsed.
unfoldable pub send_put : Option Fault → Result Fault Response → Text → Asked Text
unfolding read_token
send_put (some e) answer token = record {
  result = err (refreshing_token e);
  requests = [];
  token = token;
}
send_put none answer token =
    let read = read_token token answer in
    record { result = read.0; requests = token_request ∷ []; token = read.1 }

unfoldable pub refresh_token : Http → Text → Asked Text
unfolding send_put
refresh_token http token =
    send_put (http.refuses token_request.url) (http.do_request token_request) token

abbrev pub with_slash : Text → Text
with_slash path = if has_prefix path (codes "/") then path else codes "/" ++ path

abbrev pub metadata_request : Text → Text → Request
metadata_request path token = record {
  method = get;
  url = address ++ (codes "/latest/meta-data" ++ with_slash path);
  headers = (codes "Accept", codes "application/json") ∷ (codes "X-Metadata-Token", token) ∷ [];
}

abbrev decode_body :
    (Text → Result Fault (List (Text × Value)))
    → Result Fault Text
    → Result MmdsError (List (Text × Value))
decode_body decode (err e) = err (failed e)
decode_body decode (ok b) = map_err failed (decode b)

-- The switch on the status.
unfoldable pub read_metadata :
    (Text → Result Fault (List (Text × Value)))
    → Result Fault Response
    → Result MmdsError (List (Text × Value))
read_metadata decode (err e) = err (failed e)
read_metadata decode (ok r) =
    if ltb r.status_code 300
    then decode_body decode r.body
    else if r.status_code == 401
    then err unauthorized
    else err (unexpected_status r.status_code)

-- The request for the metadata, where its URL can be parsed, after those of `sent`.
unfoldable pub send_get :
    Http → Request → List Request → Text → Option Fault → Asked (List (Text × Value))
unfolding read_metadata
send_get http request sent token (some e) = record {
  result = err (failed e);
  requests = sent;
  token = token;
}
send_get http request sent token none = record {
  result = read_metadata http.decode (http.do_request request);
  requests = sent ++ request ∷ [];
  token = token;
}

-- GetMetadata after the refresh.
unfoldable pub ask :
    Http → Text → List Request → Text → Result MmdsError Text → Asked (List (Text × Value))
unfolding send_get
ask http path sent token (err e) = record { result = err e; requests = sent; token = token }
ask http path sent token (ok t) =
    let request = metadata_request path token in
    send_get http request sent token (http.refuses request.url)

unfoldable pub get_metadata : Http → Text → Text → Asked (List (Text × Value))
unfolding refresh_token ask
get_metadata http path token =
    let refreshed = refresh_token http token in
    ask http path refreshed.requests refreshed.token refreshed.result

pub record Client : Type 0 where
  pub http : Http
  pub token : Text

pub data Opt : Type 0 where
  with_http_client : Http → Opt

abbrev apply_options : List Opt → Client → Client
apply_options [] c = c
apply_options (with_http_client http ∷ opts) c = apply_options opts (record c { http = http })

-- NewClient. `retrying` is the client that go-retryablehttp makes.
unfoldable pub new_client : Http → List Opt → Client
new_client retrying opts = apply_options opts (record { http = retrying; token = [] })

pub data ConfigError : Type 0 where
  no_jit_config no_hostname : ConfigError
  getting_metadata : MmdsError → ConfigError
  creating_agent : AgentError → ConfigError

abbrev as_string : Option Value → Option Text
as_string none = none
as_string (some (string s)) = some s
as_string (some (bool b)) = none
as_string (some other) = none

abbrev as_bool : Option Value → Bool
as_bool none = false
as_bool (some (string s)) = false
as_bool (some (bool b)) = b
as_bool (some other) = false

-- runAgentCmd between its two calls: a flag that is missing or of another type counts as false.
unfoldable pub read_config : Text → List (Text × Value) → Result ConfigError AgentConfig
unfolding lookup
read_config log_level m = elim (as_string (lookup (codes "runner_jit_config") m)) [
  | none ↦ err no_jit_config
  | some jit ↦ elim (as_string (lookup (codes "hostname") m)) [
    | none ↦ err no_hostname
    | some hostname ↦ ok (record {
      port = 9001;
      runner_jit_config = jit;
      hostname = hostname;
      log_level = log_level;
      shutdown_on_exit = as_bool (lookup (codes "shutdown_on_exit") m);
    })
  ]
]

unfoldable pub configure :
    Text → Result MmdsError (List (Text × Value)) → Result ConfigError AgentConfig
unfolding read_config
configure log_level (err e) = err (getting_metadata e)
configure log_level (ok m) = read_config log_level m

unfoldable pub build : Setup → Result ConfigError AgentConfig → Result ConfigError Agent
unfolding new_agent
build s (err e) = err e
build s (ok cfg) = elim (new_agent s cfg) [ err e ↦ err (creating_agent e) | ok a ↦ ok a ]

-- runAgentCmd up to the agent's Run.
unfoldable pub run_agent_cmd : Setup → Http → Text → Result ConfigError Agent
unfolding new_client get_metadata configure build
run_agent_cmd s retrying log_level =
    let client = new_client retrying [] in
    build s
      (configure log_level (get_metadata client.http (codes "fireactions") client.token).result)
