-- ===== src/Mmds/Requests.antt =====
-- agent/mmds/client.go: which requests a call of GetMetadata sends.
use fireactions.Prelude.{
  Text, ◌≡◌, refl, ◌⊎◌, inl, inr, List, [], ◌∷◌, Option, none, some, Result, ok, err, Fault, arith,
  Bool-cases, Result-cases, ◌==◌,
}
use fireactions.Mmds.{
  Http, Response, Asked, MmdsError, refreshing_token, token_status, failed, Value, token_request,
  metadata_request, read_token, refresh_token, send_put, send_get, read_metadata, ask, get_metadata,
}

-- The service has granted a token.
pub record Granted (http : Http) (t : Text) : Type 0 where
  pub response : Response
  pub answered : http.do_request token_request ≡ ok response
  pub status : response.status_code ≡ 200
  pub token : response.body ≡ ok t

-- The ways in which a refresh can have gone.
pub data Refreshed (http : Http) (old : Text) (x : Asked Text) : Type 0 where
  kept :
      (e : MmdsError)
      → x.result ≡ err e
      → x.token ≡ old
      → (x.requests ≡ []) ⊎ (x.requests ≡ token_request ∷ [])
      → Refreshed http old x
  renewed :
      (t : Text)
      → Granted http t
      → x ≡ record { result = ok t; requests = token_request ∷ []; token = t }
      → Refreshed http old x

send_put-Refreshed :
    (http : Http) (old : Text) (refusal : Option Fault) (answer : Result Fault Response)
    → http.do_request token_request ≡ answer
    → Refreshed http old (send_put refusal answer old)
unfolding send_put read_token
send_put-Refreshed http old (some e) answer k = kept (refreshing_token e) refl refl (inl refl)
send_put-Refreshed http old none (err e) k = kept (refreshing_token e) refl refl (inr refl)
send_put-Refreshed http old none (ok r) k = elim (Bool-cases (r.status_code == 200)) [
  | inr s ↦ rw s (kept (token_status r.status_code) refl refl (inr refl))
  | inl s ↦ elim (Result-cases r.body) [
    | inr (e, b) ↦ rw (s, b) (kept (refreshing_token e) refl refl (inr refl))
    | inl (t, b) ↦
        rw (s, b)
          (renewed t (record { response = r; answered = k; status = ground arith; token = b }) refl)
  ]
]

-- The ways in which a call can have gone.
pub data Talk (http : Http) (path old : Text) (x : Asked (List (Text × Value))) : Type 0 where
  no_token :
      (e : MmdsError)
      → x.result ≡ err e
      → x.token ≡ old
      → (x.requests ≡ []) ⊎ (x.requests ≡ token_request ∷ [])
      → Talk http path old x
  refused :
      (t : Text) (e : MmdsError)
      → Granted http t
      → x ≡ record { result = err e; requests = token_request ∷ []; token = t }
      → Talk http path old x
  asked :
      (t : Text)
      → Granted http t
      → x ≡ record {
        result = read_metadata http.decode (http.do_request (metadata_request path t));
        requests = token_request ∷ metadata_request path t ∷ [];
        token = t;
      }
      → Talk http path old x

send_get-Talk :
    (http : Http) (path old t : Text) (refusal : Option Fault)
    → Granted http t
    → Talk http path old (send_get http (metadata_request path t) (token_request ∷ []) t refusal)
unfolding send_get
send_get-Talk http path old t (some e) g = refused t (failed e) g refl
send_get-Talk http path old t none g = asked t g refl

ask-Talk :
    (http : Http) (path old : Text) (x : Asked Text)
    → Refreshed http old x
    → Talk http path old (ask http path x.requests x.token x.result)
unfolding ask
ask-Talk http path old x (kept e r t q) = rw r (no_token e refl t q)
ask-Talk http path old x (renewed t g e) =
    rw e (send_get-Talk http path old t (http.refuses (metadata_request path t).url) g)

-- GetMetadata asks for metadata only when the service has answered 200 to its request for a token,
-- and then with that token, which the client keeps; the answer to it is read by its status. Else it
-- sends no further request, returns an error, and keeps the token that it had if no token came.
pub get_metadata-Talk :
    (http : Http) (path old : Text) → Talk http path old (get_metadata http path old)
unfolding get_metadata refresh_token
get_metadata-Talk http path old = ask-Talk http path old (refresh_token http old) (
    send_put-Refreshed http old (http.refuses token_request.url) (http.do_request token_request)
      refl)
