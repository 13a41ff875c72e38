-- ===== src/Axl/Capability.antt =====
-- The choice of a peer by health and reputation (`AXLCapabilityRegistry`, app/axl/registry.py).
pub mod Selection
use signal_count.Base.{
  ℕ, String, Bool, true, false, ◌&&◌, ◌||◌, not, Option, none, some, List, [], ◌∷◌, ◌++◌, map,
  select, length, is_mem, ltb, nat_beq, ◌==◌, nat_eq, string_eq, if◌then◌else◌,
}
use signal_count.Base.Outcome.{Outcome, ok, err, ◌>>=◌}
use signal_count.Base.Text.{fstring}
use signal_count.Base.Floats.{Floats}
use signal_count.Base.Json.{
  Json, Items, Fields, str, arr, obj, nil, item, end, field, get_field, text_of,
}
use signal_count.Axl.Registry.{
  RegistryError, no_candidate, PeerService, AxlRegistry, get_candidates_for_role,
}

-- A dict of `reputation_updates`; a missing key is `none`.
pub record UpdateDict (F : Type 0) : Type 0 where
  pub node_role : Option String
  pub peer_id : Option String
  pub reputation_points : Option F
  pub credit_eligible : Option Bool

pub record PeerCapability (F : Type 0) : Type 0 where
  pub role : String
  pub peer_id : String
  pub service_name : String
  pub wallet : String
  pub health : String
  pub reputation_score : F
  pub latency_ms : Option F

pub record PeerSelection (F : Type 0) : Type 0 where
  pub service : PeerService
  pub reason : String
  pub capability : PeerCapability F

abbrev add_text : Option String → List String → List String
add_text none ids = ids
add_text (some s) ids = s ∷ ids

-- `for key in keys: value = d.get(key); if isinstance(value, str) and value: ids.add(value)`
add_fields : List String → Fields → List String → List String
add_fields [] d ids = ids
add_fields (k ∷ ks) d ids = add_fields ks d (add_text (text_of (get_field k d)) ids)

-- One item of `peers` or `tree`.
add_item : Json → List String → List String
unfolding add_fields
add_item (obj d) ids = add_fields ("public_key" ∷ "peer_id" ∷ "id" ∷ []) d ids
add_item j ids = add_text (text_of (some j)) ids

add_items : Items → List String → List String
unfolding add_item
add_items nil ids = ids
add_items (item j js) ids = add_items js (add_item j ids)

-- A value that is no list is skipped.
add_collection : Option Json → List String → List String
unfolding add_items
add_collection (some (arr js)) ids = add_items js ids
add_collection _ ids = ids

-- `_topology_peer_ids`: the set as a list of what is added; only membership and emptiness are read.
unfoldable pub topology_peer_ids : Option Fields → List String
unfolding add_fields add_collection
topology_peer_ids none = []
topology_peer_ids (some d) =
    let own =
      add_fields ("our_public_key" ∷ "local_peer_id" ∷ "peer_id" ∷ "public_key" ∷ []) d [] in
    add_collection (get_field "tree" d) (add_collection (get_field "peers" d) own)

unfoldable pub candidate_health : String → List String → List String → String
candidate_health peer_id [] failed = if is_mem peer_id failed then "failed" else "configured"
candidate_health peer_id (t ∷ ts) failed =
    if is_mem peer_id failed then "failed" else if is_mem peer_id (t ∷ ts) then "up" else "down"

unfoldable pub health_rank : String → ℕ
health_rank h =
    if h == "failed"
    then 0
    else if h == "down"
    then 1
    else if h == "configured"
    then 2
    else if h == "up"
    then 3
    else 0

module _ (fl : Floats) where
  open fl use {Float, zero, lt, fixed2}

  abbrev float_max : Float → List Float → Float
  float_max best [] = best
  float_max best (x ∷ xs) = float_max (if lt best x then x else best) xs

  abbrev max_or_zero : List Float → Float
  max_or_zero [] = zero
  max_or_zero (x ∷ xs) = float_max x xs

  abbrev points_of : Option Float → Float
  points_of none = zero
  points_of (some x) = x

  -- The filter of `_peer_reputation_score`.
  abbrev credits : String → String → UpdateDict Float → Bool
  credits role peer_id u =
      elim u.node_role [ none ↦ false | some r ↦ r == role ]
      && elim u.peer_id [ none ↦ true | some p ↦ p == peer_id ]
      && elim u.credit_eligible [ none ↦ false | some b ↦ b ]

  unfoldable pub peer_reputation_score : String → String → List (UpdateDict Float) → Float
  peer_reputation_score role peer_id updates =
      max_or_zero (map (λ u. points_of u.reputation_points) (select (credits role peer_id) updates))

  -- The comparison `a < b` of two `_candidate_rank` pairs.
  unfoldable pub rank_lt : PeerCapability Float → PeerCapability Float → Bool
  rank_lt a b =
      let ha = health_rank a.health in
      let hb = health_rank b.health in
      ltb ha hb || nat_beq ha hb && lt a.reputation_score b.reputation_score

  -- `max(candidates, key=_candidate_rank)`: the first of the highest.
  unfoldable pub first_max :
      PeerCapability Float → List (PeerCapability Float) → PeerCapability Float
  unfolding rank_lt
  first_max best [] = best
  first_max best (c ∷ cs) = first_max (if rank_lt best c then c else best) cs

  health_reason : String → String
  health_reason h =
      if h == "up"
      then "capability:topology-up"
      else if h == "configured"
      then "capability:configured"
      else if h == "down"
      then "capability:topology-missing"
      else if h == "failed"
      then "capability:previous-attempt-failed"
      else "capability:unknown"

  -- `x <= 0`
  abbrev nonpositive : Float → Bool
  nonpositive x = not (lt zero x)

  unfoldable pub selection_reason : PeerCapability Float → ℕ → String
  unfolding health_reason
  selection_reason c n =
      if c.health == "configured" && nat_beq n 1 && nonpositive c.reputation_score
      then "capability:static-role-match"
      else if nonpositive c.reputation_score
      then health_reason c.health
      else fstring (health_reason c.health ∷ ",reputation-score:" ∷ fixed2 c.reputation_score ∷ [])

  module _ (r : AxlRegistry) (role : String) (topology : Option Fields)
      (updates : List (UpdateDict Float)) (failed : List String) where
    abbrev pub capability_of : PeerService → PeerCapability Float
    capability_of s = record {
      role = role;
      peer_id = s.peer_id;
      service_name = s.service_name;
      wallet = "";
      health = candidate_health s.peer_id (topology_peer_ids topology) failed;
      reputation_score = peer_reputation_score role s.peer_id updates;
      latency_ms = none;
    }

    unfoldable pub list_candidates : Outcome RegistryError (List (PeerCapability Float))
    list_candidates = do services ← get_candidates_for_role r role; ok (map capability_of services)

    abbrev pub selection_of : PeerCapability Float → ℕ → PeerSelection Float
    selection_of c n = record {
      service = record { peer_id = c.peer_id; service_name = c.service_name };
      reason = selection_reason c n;
      capability = c;
    }

    -- `max` of no candidate raises a `ValueError`.
    abbrev choose : List (PeerCapability Float) → Outcome RegistryError (PeerSelection Float)
    choose [] = err no_candidate
    choose (c ∷ cs) = ok (selection_of (first_max c cs) (length (c ∷ cs)))

    unfoldable pub select_for_role : Outcome RegistryError (PeerSelection Float)
    unfolding list_candidates
    select_for_role = do candidates ← list_candidates; choose candidates
