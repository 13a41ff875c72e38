-- ===== src/Axl/Capability/Selection.antt =====
-- Which peer `select_for_role` of app/axl/registry.py takes.
use signal_count.Base.{
  ◌≤◌, ◌≡◌, ◌⊎◌, inl, inr, refl, sym, ap, ◌∙◌, subst, String, true, false, Option, List, [], ◌∷◌,
  map, length, is_mem, All, string_eq, arith, Bool-cases, if◌then◌else◌,
}
use signal_count.Base.Outcome.{ok}
use signal_count.Base.Floats.{Floats}
use signal_count.Base.Json.{Fields}
use signal_count.Axl.Registry.{PeerService, AxlRegistry, get_candidates_for_role}
use signal_count.Axl.Capability.{
  UpdateDict, PeerCapability, PeerSelection, topology_peer_ids, candidate_health, health_rank,
  rank_lt, first_max, selection_of, select_for_role, capability_of,
}

-- Only a failed peer has rank 0.
pub failed_rank :
    (p : String) (topology failed : List String)
    → is_mem p failed ≡ true
    → health_rank (candidate_health p topology failed) ≡ 0
unfolding candidate_health health_rank
failed_rank p [] failed h = rw h refl
failed_rank p (t ∷ ts) failed h = rw h refl

pub live_rank :
    (p : String) (topology failed : List String)
    → is_mem p failed ≡ false
    → 1 ≤ health_rank (candidate_health p topology failed)
unfolding candidate_health health_rank
live_rank p [] failed h = rw h (omega arith)
live_rank p (t ∷ ts) failed h = elim (Bool-cases (is_mem p (t ∷ ts))) [
  | inl up ↦ rw (h, up) (omega arith)
  | inr down ↦ rw (h, down) (omega arith)
]

abbrev pub IsService : PeerService → List PeerService → Type 0
IsService s [] = ⊥
IsService s (x ∷ xs) = (s ≡ x) ⊎ IsService s xs

module _ (fl : Floats) where
  open fl use {Float, lt, lt_irrefl, lt_trans, lt_compare}

  rank_lt_irrefl : (a : PeerCapability Float) → rank_lt fl a a ≡ false
  unfolding rank_lt
  rank_lt_irrefl a = ground (arith, lt_irrefl a.reputation_score)

  rank_lt_trans :
      (a b c : PeerCapability Float)
      → rank_lt fl a b ≡ true
      → rank_lt fl b c ≡ true
      → rank_lt fl a c ≡ true
  unfolding rank_lt
  rank_lt_trans a b c h k =
      ground (arith, lt_trans a.reputation_score b.reputation_score c.reputation_score)

  rank_lt_compare :
      (a b c : PeerCapability Float)
      → rank_lt fl a c ≡ true
      → (rank_lt fl a b ≡ true) ⊎ (rank_lt fl b c ≡ true)
  unfolding rank_lt
  rank_lt_compare a b c h =
      ground (arith, lt_compare a.reputation_score b.reputation_score c.reputation_score)

  -- `m` is one of the candidates, and none ranks above it.
  abbrev pub IsBest : PeerCapability Float → List (PeerCapability Float) → Type 0
  IsBest m cs = All (λ c. rank_lt fl m c ≡ false) cs

  abbrev pub IsAmong : PeerCapability Float → List (PeerCapability Float) → Type 0
  IsAmong m [] = ⊥
  IsAmong m (c ∷ cs) = (m ≡ c) ⊎ IsAmong m cs

  -- What is below neither of two is not below the one that the loop keeps.
  kept :
      (m best c : PeerCapability Float)
      → rank_lt fl m (if rank_lt fl best c then c else best) ≡ false
      → (rank_lt fl m best ≡ false) × (rank_lt fl m c ≡ false)
  kept m best c h = ground (arith, rank_lt_trans m best c, rank_lt_compare m best c)

  first_max_lem :
      (best : PeerCapability Float) (cs : List (PeerCapability Float))
      → IsAmong (first_max fl best cs) (best ∷ cs) × IsBest (first_max fl best cs) (best ∷ cs)
  unfolding first_max
  first_max_lem best [] = (inl refl, (rank_lt_irrefl best, tt))
  first_max_lem best (c ∷ cs) =
      let r = first_max_lem (if rank_lt fl best c then c else best) cs in
      let best' = if rank_lt fl best c then c else best in
      let k = kept (first_max fl best' cs) best c r.1.0 in
      (
        elim r.0 [
          | inr later ↦ inr (inr later)
          | inl here ↦ elim (Bool-cases (rank_lt fl best c)) [
            | inl above ↦ inr (inl (here ∙ ap (λ b. if b then c else best) above))
            | inr below ↦ inl (here ∙ ap (λ b. if b then c else best) below)
          ]
        ],
        (k.0, (k.1, r.1.1)),
      )

  outranks :
      (m c : PeerCapability Float)
      → rank_lt fl m c ≡ false
      → 1 ≤ health_rank c.health
      → 1 ≤ health_rank m.health
  unfolding rank_lt
  outranks m c h k = ground arith

  module _ (r : AxlRegistry) (role : String) (topology : Option Fields)
      (updates : List (UpdateDict Float)) (failed : List String) where
    abbrev capabilities : List PeerService → List (PeerCapability Float)
    capabilities services = map (capability_of fl r role topology updates failed) services

    -- A peer of the list that has not failed outranks all that have.
    live_best :
        (m : PeerCapability Float) (services : List PeerService) (live : PeerService)
        → IsBest m (capabilities services)
        → IsService live services
        → is_mem live.peer_id failed ≡ false
        → 1 ≤ health_rank m.health
    live_best m [] live best among fresh = absurd among
    live_best m (s ∷ ss) live best (inr later) fresh = live_best m ss live best.1 later fresh
    live_best m (s ∷ ss) live best (inl same) fresh =
        outranks m (capability_of fl r role topology updates failed s) best.0 (
          live_rank s.peer_id (topology_peer_ids topology) failed
            (subst (λ x. is_mem x.peer_id failed ≡ false) same fresh))

    -- A candidate that ranks above 0 is a configured peer that has not failed.
    among_service :
        (m : PeerCapability Float) (services : List PeerService)
        → IsAmong m (capabilities services)
        → 1 ≤ health_rank m.health
        → is_mem m.peer_id failed ≡ false
    among_service m [] among up = absurd among
    among_service m (s ∷ ss) (inr later) up = among_service m ss later up
    among_service m (s ∷ ss) (inl same) up = elim (Bool-cases (is_mem s.peer_id failed)) [
      | inr fresh ↦ subst (λ c. is_mem c.peer_id failed ≡ false) (sym same) fresh
      | inl gone ↦
          let zero_rank = failed_rank s.peer_id (topology_peer_ids topology) failed gone in
          let same_rank = ap (λ c. health_rank c.health) same in absurd (omega arith)
    ]

    -- The service of a candidate is one of the configured ones.
    pub among_configured :
        (m : PeerCapability Float) (services : List PeerService)
        → IsAmong m (capabilities services)
        → IsService (record { peer_id = m.peer_id; service_name = m.service_name }) services
    among_configured m [] among = among
    among_configured m (s ∷ ss) (inl same) =
        inl (ap (λ c. record { peer_id = c.peer_id; service_name = c.service_name }) same)
    among_configured m (s ∷ ss) (inr later) = inr (among_configured m ss later)

    abbrev pub IsSelected : PeerSelection Float → List PeerService → Type 0
    IsSelected sel services =
        IsAmong sel.capability (capabilities services)
        × IsBest sel.capability (capabilities services)
        × IsService sel.service services

    -- With candidates configured, the selection succeeds with a highest-ranking candidate, and it is
    -- a peer that has not failed whenever some candidate has not.
    pub select_for_role_lem :
        (s : PeerService) (ss : List PeerService)
        → get_candidates_for_role r role ≡ ok (s ∷ ss)
        → (sel : PeerSelection Float) × (select_for_role fl r role topology updates failed ≡ ok sel)
          × IsSelected sel (s ∷ ss)
          × ((live : PeerService)
              → IsService live (s ∷ ss)
              → is_mem live.peer_id failed ≡ false
              → is_mem sel.service.peer_id failed ≡ false)
    unfolding select_for_role
    select_for_role_lem s ss found =
        let c = capability_of fl r role topology updates failed s in
        let cs = capabilities ss in
        let best = first_max_lem c cs in
        let m = first_max fl c cs in
        (
          selection_of fl r role topology updates failed m (length (c ∷ cs)),
          rw found refl,
          (best.0, best.1, among_configured m (s ∷ ss) best.0),
          λ live among fresh.
              among_service m (s ∷ ss) best.0 (live_best m (s ∷ ss) live best.1 among fresh),
        )
