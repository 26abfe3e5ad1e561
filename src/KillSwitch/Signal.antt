-- ===== src/KillSwitch/Signal.antt =====
-- `_signal_endpoint` and `_signal_and_ledger` of api.py: the halt signal to an agent's own endpoint.
use field_platform.Prelude.{
  ℕ, String, Bool, true, false, ◌||◌, not, Option, none, some, List, [], ◌∷◌, str_eq, elem_of, ltb,
  leb, if◌then◌else◌,
}
use field_platform.Registry.{AgentRecord}
use field_platform.KillSwitch.{
  Env, EndpointResult, called, failed, skipped, Why, no_reason, self_endpoint, no_manifest_ref,
  manifest_unresolved, malformed, value_error, raise, no_endpoint, non_http_endpoint,
  allowlist_unset, host_not_allowlisted, unsupported_method, transport_error, http_redirect,
  http_error, Endpoint, Resolution, resolved, no_ref, unresolved, endpoint_signal, M, pure, ◌>>=◌,
  ◌>>◌, case_option, send, ledger_note,
}

abbrev pub skip : Why → Option String → EndpointResult
skip why host = record { outcome = skipped; why = why; endpoint_host = host }

abbrev pub is_listed : Option String → List String → Bool
is_listed none allow = false
is_listed (some host) allow = elem_of host allow

abbrev pub is_empty : List String → Bool
is_empty [] = true
is_empty (h ∷ hs) = false

-- An answer of 300 or more did not reach the endpoint.
abbrev pub answer_of : Option String → Option (Option ℕ) → EndpointResult
answer_of host none = record { outcome = failed; why = transport_error; endpoint_host = host }
answer_of host (some none) = record { outcome = called; why = no_reason; endpoint_host = host }
answer_of host (some (some status)) =
    if leb 300 status
    then record {
      outcome = failed;
      why = if ltb status 400 then http_redirect else http_error;
      endpoint_host = host;
    }
    else record { outcome = called; why = no_reason; endpoint_host = host }

module _ {W : Type 0} (env : Env W) where
  unfoldable pub call_endpoint : Endpoint → (method : String) → M W EndpointResult
  call_endpoint e method = do
    answer ← send env method e.url e.hostname
    pure (answer_of e.hostname answer)

  -- The checks on the endpoint, in the order of the code.
  unfoldable pub signal_at : (agent_id : String) → Endpoint → M W EndpointResult
  signal_at id e =
      if str_eq e.url ""
      then pure (skip no_endpoint none)
      else (if not (str_eq e.scheme "http" || str_eq e.scheme "https")
          then pure (skip non_http_endpoint none)
          else (if env.is_self_endpoint e.path id
              then pure (skip self_endpoint e.hostname)
              else (if is_empty env.allowlist
                  then pure (skip allowlist_unset e.hostname)
                  else (if not (is_listed e.hostname env.allowlist)
                      then pure (skip host_not_allowlisted e.hostname)
                      else case_option (env.parse_method e.method)
                          (pure (skip unsupported_method e.hostname))
                          (λ method. call_endpoint e method)))))

  abbrev pub signal_resolved : (agent_id : String) → Resolution → M W EndpointResult
  signal_resolved id (resolved e) = signal_at id e
  signal_resolved id no_ref = pure (skip no_manifest_ref none)
  signal_resolved id unresolved = pure (skip manifest_unresolved none)
  signal_resolved id malformed = raise value_error

  -- `_signal_endpoint`; `origin` is whether the request carries the service's own header.
  unfoldable pub signal_endpoint : (agent_id : String) → AgentRecord → Bool → M W EndpointResult
  signal_endpoint id r origin =
      if origin
      then pure (skip self_endpoint none)
      else signal_resolved id (env.resolve r.manifest_ref)

  -- `_signal_and_ledger`
  unfoldable pub signal_and_ledger : (agent_id : String) → AgentRecord → Bool → M W EndpointResult
  signal_and_ledger id r origin = do
    result ← signal_endpoint id r origin
    ledger_note env (endpoint_signal id result)
    pure result
