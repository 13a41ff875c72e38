-- ===== src/Examples/Router.antt =====
-- Sequences of handlers to test mcp_routing/mcp_router.py with.
use signal_count.Base.{ℕ, String, ◌≡◌, ◌↔◌, refl, false, none, some, List, [], ◌∷◌, string_eq}
use signal_count.Base.Dict.{lookup}
use signal_count.Base.Outcome.{ok, err}
use signal_count.Base.Json.{null}
use signal_count.Mcp.Router.{Services, replied, timed_out, key_error, route_end}
use signal_count.Mcp.Router.History.{
  Event, registering, deregistering, ending, run, endpoint_of, expected, endpoint_of-run,
  is_no_content, route_end-key_error,
}

abbrev show : ℕ → String
show n = "500"

abbrev no_services : Services
no_services = []

abbrev events : List Event
events =
    registering "t1" (ok (record { service = "risk"; endpoint = "http://a" }))
    ∷ registering "t2" (err "bad")
    ∷ ending "risk" timed_out
    ∷ registering "t3" (ok (record { service = "risk"; endpoint = "http://b" }))
    ∷ ending "risk" (replied 500 (ok null))
    ∷ deregistering "news"
    ∷ []

expected_b : expected "risk" events none ≡ some "http://b"
expected_b = refl

endpoint_of-run_example : endpoint_of "risk" (run show events []) ≡ some "http://b"
endpoint_of-run_example = endpoint_of-run show "risk" events []

route_end-key_error_example :
    (route_end show "risk" timed_out no_services ≡ err key_error)
    ↔ ((lookup "risk" no_services ≡ none) × (is_no_content timed_out ≡ false))
route_end-key_error_example = route_end-key_error show "risk" no_services timed_out
