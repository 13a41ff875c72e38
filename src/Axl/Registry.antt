-- ===== src/Axl/Registry.antt =====
-- Role to peer mapping and the choice of a peer (app/axl/registry.py).
use signal_count.Base.{String, List, [], ◌∷◌, nat_eq, string_eq, if◌then◌else◌}
use signal_count.Base.Dict.{Dict, lookup}
use signal_count.Base.Outcome.{Outcome, or_raise}
use signal_count.Base.Text.{is_empty, strip, split_on, has_char, before_char, after_char}

-- What the registry raises: an unknown role, and `max` of no candidate.
pub data RegistryError : Type 0 where
  unknown_role no_candidate : RegistryError

pub record PeerService : Type 0 where
  pub peer_id : String
  pub service_name : String

-- The settings that the registry reads: each role's peer, service and candidate list.
pub record RoleSettings : Type 0 where
  pub peer_id : String
  pub service_name : String
  pub peer_candidates : String

pub record Settings : Type 0 where
  pub regime : RoleSettings
  pub narrative : RoleSettings
  pub risk : RoleSettings
  pub chain_analyst : RoleSettings

pub record AxlRegistry : Type 0 where
  pub services : Dict String PeerService
  pub candidates : Dict String (List PeerService)

-- One item of the candidate list, already stripped and not empty.
parse_item : PeerService → String → PeerService
unfolding strip has_char before_char after_char
parse_item fallback it =
    let bar = has_char b'|' it in
    let colon = has_char b':' it in
    let peer = if bar then before_char b'|' it else if colon then before_char b':' it else it in
    let service =
      if bar
      then after_char b'|' it
      else if colon
      then after_char b':' it
      else fallback.service_name in
    record {
      peer_id = strip peer;
      service_name = if is_empty (strip service) then fallback.service_name else strip service;
    }

parse_items : PeerService → List String → List PeerService
unfolding parse_item
parse_items fallback [] = []
parse_items fallback (raw ∷ rest) =
    let it = strip raw in
    let later = parse_items fallback rest in
    if is_empty it then later else parse_item fallback it ∷ later

-- `candidates or [fallback]`
abbrev or_fallback : PeerService → List PeerService → List PeerService
or_fallback fallback [] = fallback ∷ []
or_fallback fallback (c ∷ cs) = c ∷ cs

unfoldable pub parse_peer_candidates : String → PeerService → List PeerService
unfolding parse_items split_on
parse_peer_candidates raw fallback =
    if is_empty (strip raw)
    then fallback ∷ []
    else or_fallback fallback (parse_items fallback (split_on b',' raw))

abbrev service_of : RoleSettings → PeerService
service_of s = record { peer_id = s.peer_id; service_name = s.service_name }

abbrev candidates_of : RoleSettings → List PeerService
candidates_of s = parse_peer_candidates s.peer_candidates (service_of s)

-- `AXLRegistry.__init__`
pub make_registry : Settings → AxlRegistry
make_registry s = record {
  services =
      ("regime", service_of s.regime)
      ∷ ("narrative", service_of s.narrative)
      ∷ ("risk", service_of s.risk)
      ∷ ("chain_analyst", service_of s.chain_analyst)
      ∷ [];
  candidates =
      ("regime", candidates_of s.regime)
      ∷ ("narrative", candidates_of s.narrative)
      ∷ ("risk", candidates_of s.risk)
      ∷ ("chain_analyst", candidates_of s.chain_analyst)
      ∷ [];
}

pub get_service_for_role : AxlRegistry → String → Outcome RegistryError PeerService
get_service_for_role r role = or_raise (lookup role r.services) unknown_role

unfoldable pub get_candidates_for_role :
    AxlRegistry → String → Outcome RegistryError (List PeerService)
get_candidates_for_role r role = or_raise (lookup role r.candidates) unknown_role
