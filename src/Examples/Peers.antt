-- ===== src/Examples/Peers.antt =====
-- A registry with several peers for a role, to test app/axl/registry.py with.
use signal_count.Base.{ℕ, String, ◌≡◌, refl, false, Option, some, [], ◌∷◌, is_mem, string_eq}
use signal_count.Base.Outcome.{ok}
use signal_count.Base.Json.{Fields, str, arr, nil, item, end, field}
use signal_count.Axl.Registry.{
  PeerService, AxlRegistry, parse_peer_candidates, get_candidates_for_role,
}
use signal_count.Axl.Capability.{PeerSelection, select_for_role}
use signal_count.Axl.Capability.Selection.{IsService, IsSelected, select_for_role_lem}
use signal_count.Examples.Floats.{sample_floats}

abbrev pub peer : String → PeerService
peer p = record { peer_id = p; service_name = "risk_analyst" }

parsed :
    parse_peer_candidates " a|svc , ,b: ,c" (peer "z")
    ≡ record { peer_id = "a"; service_name = "svc" } ∷ peer "b" ∷ peer "c" ∷ []
unfolding parse_peer_candidates
parsed = refl

abbrev pub two_peers : AxlRegistry
two_peers = record {
  services = ("risk", peer "a") ∷ [];
  candidates = ("risk", peer "a" ∷ peer "b" ∷ []) ∷ [];
}

abbrev topology : Option Fields
topology = some (field "peers" (arr (item (str "b") nil)) end)

pub two_peers_found : get_candidates_for_role two_peers "risk" ≡ ok (peer "a" ∷ peer "b" ∷ [])
unfolding get_candidates_for_role
two_peers_found = refl

select_for_role_lem_example :
    (sel : PeerSelection ℕ) × (select_for_role sample_floats two_peers "risk" topology [] ("a" ∷ [])
      ≡ ok sel)
    × IsSelected sample_floats two_peers "risk" topology []
        ("a" ∷ [])
        sel
        (peer "a" ∷ peer "b" ∷ [])
    × ((live : PeerService)
        → IsService live (peer "a" ∷ peer "b" ∷ [])
        → is_mem live.peer_id ("a" ∷ []) ≡ false
        → is_mem sel.service.peer_id ("a" ∷ []) ≡ false)
select_for_role_lem_example =
    select_for_role_lem sample_floats two_peers "risk" topology [] ("a" ∷ []) (peer "a")
      (peer "b" ∷ []) two_peers_found
