-- ===== src/Adapters/Http.antt =====
-- The request that both adapters make: the same headers and a time limit of ten seconds.
use aspin_partners_bridge.Common.{String, ◌++◌, [], ◌∷◌}
use aspin_partners_bridge.Value.{Value, str}
use aspin_partners_bridge.Effects.{Prog, HttpRequest, http_request, attempt, Services, to_text}

module _ (s : Services) where
  -- The request of `makeHttpRequest`, its base and its key from the configuration.
  abbrev pub request_of : (base_url api_key method path : String) → Value → HttpRequest
  request_of base_url api_key method path payload = record {
    method = method;
    url = to_text s.host (s.config_get base_url) ++ "/" ++ path;
    headers =
        ("Accept", str "application/json")
        ∷ ("Content-Type", str "application/json")
        ∷ ("x-api-key", s.config_get api_key)
        ∷ [];
    payload = payload;
    timeout = 10000;
  }

  unfoldable pub send : (base_url api_key method path : String) → Value → Prog Value
  send base_url api_key method path payload =
      attempt (http_request (request_of base_url api_key method path payload)) (λ r. r)
