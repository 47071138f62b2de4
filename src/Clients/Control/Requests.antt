-- ===== src/Clients/Control/Requests.antt =====
-- The requests of src/clients/control-client.ts: proxying and probes. A handler starts the work, and
-- another function takes its outcome.
use consensus_node.Base.{
  ◌+◌, ◌-◌, Text, codes, text_eq, Bool, true, false, ◌||◌, [], ◌∷◌, ◌++◌, Option, none, some, ◌==◌,
  if◌then◌else◌, Result, ok, err, or_else,
}
use consensus_node.Base.Int.{ℤ, pos}
use consensus_node.Base.Json.{Json, num}
use consensus_node.Tunnel.Messages.Kinds.{
  ProxyResponseMessage, EvalRequestMessage, proxy_response, eval_response, stream_data, error,
  heartbeat,
}
use consensus_node.Clients.Control.State.{
  ControlClient, Action, Handled, sent, proxy_started, eval_started,
}
use consensus_node.Base.{length}

-- PROXY_REQUEST; `executeProxyCommand` is started.
unfoldable pub on_proxy_request : Option Text → ControlClient → Handled
on_proxy_request id c =
    (record c { active_requests = c.active_requests + 1 }, proxy_started id ∷ [])

-- `Math.max(0, activeRequests - 1)`
abbrev pub request_done : ControlClient → ControlClient
request_done c = record c { active_requests = c.active_requests - 1 }

unfoldable pub finish_proxy :
    Option Text → Result Text ProxyResponseMessage → ControlClient → Handled
finish_proxy id (ok response) c = (request_done c, sent (proxy_response response) ∷ [])
finish_proxy id (err message) c = (
  request_done c,
  sent (error (record { reply_to = id; code = codes "proxy_failed"; message = message })) ∷ [],
)

-- The outcome of `executeProxySessionMessage`, as base64
unfoldable pub finish_session : Text → Result Text Text → ControlClient → Handled
finish_session stream_id (ok output) c = (
  request_done c,
  sent (
        stream_data
          (record { stream_id = stream_id; data_text = output; encoding = codes "base64" }))
      ∷ [],
)
finish_session stream_id (err message) c = (
  request_done c,
  sent (error (record { reply_to = none; code = codes "stream_data_failed"; message = message }))
      ∷ [],
)

-- The two read-only actions that the control tunnel allows.
abbrev pub is_allowed : Text → Bool
is_allowed action = action == codes "benchmark_sustained" || action == codes "integrity"

-- EVAL_REQUEST; `runEvalAction` is started.
unfoldable pub on_eval_request : Option Text → EvalRequestMessage → ControlClient → Handled
on_eval_request id m c = if is_allowed m.action then (c, eval_started id m.action ∷ []) else (
  c,
  sent (
        error (record {
          reply_to = id;
          code = codes "eval_action_not_allowed";
          message = codes "Action not allowed on the control tunnel: " ++ m.action;
        }))
      ∷ [],
)

abbrev eval_answer : Option Text → Text → Bool → Option Json → Option Text → Action
eval_answer id action succeeded result message = sent (
    eval_response (record {
      reply_to = or_else id [];
      action = action;
      succeeded = succeeded;
      result = result;
      error = message;
    }))

unfoldable pub finish_eval : Option Text → Text → Result Text Json → ControlClient → Handled
finish_eval id action (ok result) c = (c, eval_answer id action true (some result) none ∷ [])
finish_eval id action (err message) c = (c, eval_answer id action false none (some message) ∷ [])

-- sendHeartbeat at an uptime, with the record of the capabilities
unfoldable pub send_heartbeat : Text → ℤ → Json → ControlClient → Handled
send_heartbeat node_id uptime capabilities c = (
  c,
  sent (
        heartbeat (record {
          node_id = node_id;
          uptime_seconds = uptime;
          capabilities = capabilities;
          active_requests = some (num (pos c.active_requests));
          active_streams = some (num (pos (length c.active_streams)));
        }))
      ∷ [],
)
