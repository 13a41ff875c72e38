-- ===== src/Coordinator/Dispatch/Duplicates.antt =====
-- The loop of `_dispatch_role` (app/coordinator/service.py) when a peer id stands twice among the
-- candidates.
use signal_count.Base.{
  ℕ, zero, suc, ◌≡◌, refl, inl, inr, String, true, Option, List, [], ◌∷◌, length, length-map,
  is_mem, is_mem-append, to_set, length-to_set-le, to_set-IsDistinct, is_mem-to_set, IsDistinct,
  IsDistinct-snoc, length-le_of_subset, ltb, lt→ltb, string_eq, arith, Bool-cases,
}
use signal_count.Base.Outcome.{ok, err}
use signal_count.Base.Floats.{Floats}
use signal_count.Base.Json.{Fields}
use signal_count.Axl.Registry.{PeerService, AxlRegistry, get_candidates_for_role}
use signal_count.Axl.Capability.{list_candidates, capability_of}
use signal_count.Axl.Capability.Selection.{select_for_role_lem}
use signal_count.Coordinator.Dispatch.{
  Payload, Transport, out_of_fuel, Attempts, again, after_failure, round, loop, start, set_add,
  dispatch_role,
}
use signal_count.Coordinator.Dispatch.Progress.{peer_ids, try_peer, service_mem}

set_add-IsDistinct : (x : String) (xs : List String) → IsDistinct xs → IsDistinct (set_add x xs)
set_add-IsDistinct x xs d = elim (Bool-cases (is_mem x xs)) [
  | inl old ↦ rw old d
  | inr new ↦ rw new (IsDistinct-snoc xs x d new)
]

is_mem-set_add :
    (q x : String) (xs ys : List String)
    → ((p : String) → is_mem p xs ≡ true → is_mem p ys ≡ true)
    → is_mem x ys ≡ true
    → is_mem q (set_add x xs) ≡ true
    → is_mem q ys ≡ true
is_mem-set_add q x xs ys sub h m =
    ground (arith, sub q, m, is_mem-append q xs (x ∷ []), string_eq.beq_iff x q)

module _ (fl : Floats) (r : AxlRegistry) (role job_id : String) (topology : Option Fields)
    (payload : Payload) (call : Transport (fl.Float)) (s : PeerService) (ss : List PeerService)
    (found : get_candidates_for_role r role ≡ ok (s ∷ ss))
    (twice : ¬ IsDistinct (peer_ids (s ∷ ss)))
    (refuses : (n : ℕ) (p : PeerService)
      → (status : String) × (try_peer fl r role job_id topology payload call n p
          ≡ err status)) where
  open fl use {Float}

  record Spinning (a : Attempts Float) : Type 0 where
    distinct : IsDistinct a.failed
    known : (p : String) → is_mem p a.failed ≡ true → is_mem p (peer_ids (s ∷ ss)) ≡ true

  below : (a : Attempts Float) → Spinning a → ltb (length a.failed) (length (s ∷ ss)) ≡ true
  below a sp =
      let peers = peer_ids (s ∷ ss) in
      let few =
        length-le_of_subset a.failed (to_set peers) sp.distinct
          (λ p m. rw is_mem-to_set (sp.known p m)) in
      let fewer = length-to_set-le peers in
      let count = length-map (λ (x : PeerService). x.peer_id) (s ∷ ss) in
      let unequal : ¬ (length (to_set peers) ≡ length peers) =
        λ e. twice ((to_set-IsDistinct peers).0 e) in
      lt→ltb (length a.failed) (length (s ∷ ss)) (omega arith)

  spin :
      (a : Attempts Float)
      → Spinning a
      → (a' : Attempts Float) × (round fl r role job_id topology payload call a ≡ ok (again a'))
        × Spinning a'
  unfolding round
  spin a sp =
      let (sel, chosen, is_sel, avoids) =
        select_for_role_lem fl r role topology [] a.failed s ss found in
      let (status, e) = refuses (length a.attempted) sel.service in
      let here = service_mem sel.service (s ∷ ss) is_sel.2 in
      (
        after_failure fl r role job_id topology payload call a sel status,
        rw (chosen, e) refl,
        record {
          distinct = set_add-IsDistinct sel.service.peer_id a.failed sp.distinct;
          known = λ q m.
              is_mem-set_add q sel.service.peer_id a.failed (peer_ids (s ∷ ss)) sp.known here m;
        },
      )

  loop_spins :
      (fuel : ℕ) (a : Attempts Float)
      → Spinning a
      → loop fl r role job_id topology payload call fuel (length (s ∷ ss)) a ≡ err out_of_fuel
  unfolding loop
  loop_spins zero a sp = rw (below a sp) refl
  loop_spins (suc fuel) a sp =
      let (a', e, sp') = spin a sp in rw (below a sp, e) (loop_spins fuel a' sp')

  -- When a peer id stands twice among the candidates and every call fails, no number of rounds is
  -- enough: the dispatch does not end.
  pub dispatch_role_diverges :
      (fuel : ℕ) (run_mode : String) (latency : Float)
      → dispatch_role fl r role job_id topology payload call fuel run_mode latency ≡ err out_of_fuel
  unfolding dispatch_role list_candidates
  dispatch_role_diverges fuel run_mode latency =
      let first = start fl r role job_id topology payload call in
      let count = length-map (capability_of fl r role topology [] []) (s ∷ ss) in
      let forever = loop_spins fuel first (record { distinct = tt; known = λ p m. cc }) in
      rw (found, count, forever) refl
