-- ===== src/Mcp/Router.antt =====
-- The router's handlers over its table of services (mcp_routing/mcp_router.py). A request's fields
-- are read as texts; what `await` lets happen between the two halves of a forwarded request is any
-- sequence of the other handlers.
pub mod History
use signal_count.Base.{
  ℕ, String, Bool, true, false, Option, none, some, List, [], ◌∷◌, length, ◌==◌, string_eq, nat_beq,
  if◌then◌else◌,
}
use signal_count.Base.Dict.{Dict, lookup, insert, remove}
use signal_count.Base.Outcome.{Outcome, ok, err, ◌>>=◌, or_raise}
use signal_count.Base.Json.{Json, Fields, null, str, nat, field, end}
use signal_count.Base.Text.{fstring, is_empty}

pub record Service : Type 0 where
  pub endpoint : String
  pub registered_at : String
  pub healthy : Bool

-- `services`
abbrev pub Services : Type 0
Services = Dict String Service

pub record Response : Type 0 where
  pub status : ℕ
  pub body : Fields

-- The JSON bodies, with the defaults of `get`; an error is the text of what `request.json` raises.
pub record RouteBody : Type 0 where
  pub service : String
  pub request : Option Json
  pub from_peer_id : String

pub record RegisterBody : Type 0 where
  pub service : String
  pub endpoint : String

-- The first half of `handle_route`: an answer, or the endpoint that the request is posted to.
pub data Routing : Type 0 where
  answered : Response → Routing
  forwarded : (service_name endpoint : String) → Routing

-- What `session.post` comes to: a status with the body's JSON, or the exception that reading it
-- raises, a `TimeoutError`, or any other exception.
pub data Posted : Type 0 where
  replied : ℕ → Outcome String Json → Posted
  timed_out : Posted
  raised : String → Posted

-- The `KeyError` of a service that is no longer there.
pub data RouterError : Type 0 where
  key_error : RouterError

abbrev pub failure : ℕ → String → Response
failure status message = record {
  status = status;
  body = field "response" null (field "error" (str message) end);
}

abbrev pub success : Json → Response
success value = record { status = 200; body = field "response" value (field "error" null end) }

abbrev route_known : String → Option Service → Routing
route_known service_name none =
    answered (failure 404 (fstring ("Service not found: " ∷ service_name ∷ [])))
route_known service_name (some s) = forwarded service_name s.endpoint

unfoldable pub route_start : Outcome String RouteBody → Services → Routing
route_start (err e) services = answered (failure 400 (fstring ("Invalid JSON: " ∷ e ∷ [])))
route_start (ok b) services =
    if is_empty b.service
    then answered (failure 400 "Missing 'service' field")
    else route_known b.service (lookup b.service services)

abbrev pub with_health : Bool → Service → Service
with_health h s = record s { healthy = h }

-- `services[service_name]["healthy"] = h`
unfoldable pub set_health : String → Bool → Services → Outcome RouterError Services
set_health service_name h services = do
  s ← or_raise (lookup service_name services) key_error
  ok (insert service_name (with_health h s) services)

-- A handler that marks the service as not healthy; a `KeyError` in it is not caught.
abbrev pub unhealthy : String → Services → Response → Outcome RouterError (Services × Response)
unhealthy service_name services response = do
  services' ← set_health service_name false services
  ok (services', response)

-- The status as text, for the reply; `show` is `str` of a number.
module _ (show : ℕ → String) where
  -- `except Exception`: a `KeyError` of the `try` is one, and its text is quoted.
  abbrev pub forward_error : String → Services → String → Outcome RouterError (Services × Response)
  forward_error service_name services message =
      unhealthy service_name services (failure 502 (fstring ("Forward error: " ∷ message ∷ [])))

  abbrev pub in_try :
      String
      → Services
      → Outcome RouterError Services
      → Response
      → Outcome RouterError (Services × Response)
  in_try service_name services (ok services') response = ok (services', response)
  in_try service_name services (err key_error) response =
      forward_error service_name services (fstring ("'" ∷ service_name ∷ "'" ∷ []))

  abbrev pub read_reply :
      String → Services → Outcome String Json → Outcome RouterError (Services × Response)
  read_reply service_name services (err e) = forward_error service_name services e
  read_reply service_name services (ok value) =
      in_try service_name services (set_health service_name true services) (success value)

  -- The second half of `handle_route`, on the services as they are when the reply comes.
  unfoldable pub route_end : String → Posted → Services → Outcome RouterError (Services × Response)
  unfolding set_health
  route_end service_name (replied status body) services =
      if nat_beq status 204
      then ok (services, success null)
      else if nat_beq status 200
      then read_reply service_name services body
      else in_try service_name services (set_health service_name false services)
          (failure 502 (fstring ("Service error: " ∷ show status ∷ [])))
  route_end service_name timed_out services =
      unhealthy service_name services (failure 504 "Service timeout")
  route_end service_name (raised e) services = forward_error service_name services e

abbrev plain_error : ℕ → String → Response
plain_error status message = record { status = status; body = field "error" (str message) end }

abbrev done : String → String → Response
done status service_name = record {
  status = 200;
  body = field "status" (str status) (field "service" (str service_name) end);
}

-- `handle_register`; `now` is the time.
unfoldable pub register : String → Outcome String RegisterBody → Services → Services × Response
register now (err e) services = (services, plain_error 400 (fstring ("Invalid JSON: " ∷ e ∷ [])))
register now (ok b) services =
    if is_empty b.service
    then (services, plain_error 400 "Both 'service' and 'endpoint' are required")
    else if is_empty b.endpoint
    then (services, plain_error 400 "Both 'service' and 'endpoint' are required")
    else (
      insert b.service (record { endpoint = b.endpoint; registered_at = now; healthy = true })
          services,
      done "registered" b.service,
    )

abbrev pub deregister_known : String → Option Service → Services → Services × Response
deregister_known service_name none services =
    (services, plain_error 404 (fstring ("Service not found: " ∷ service_name ∷ [])))
deregister_known service_name (some s) services =
    (remove service_name services, done "deregistered" service_name)

-- `handle_deregister`
unfoldable pub deregister : String → Services → Services × Response
deregister service_name services =
    if is_empty service_name
    then (services, plain_error 400 "Service name required")
    else deregister_known service_name (lookup service_name services) services

-- `handle_health`
pub health : Services → Response
health services = record {
  status = 200;
  body = field "status" (str "ok") (field "service_count" (nat (length services)) end);
}
