-- ===== src/Coordinator/Run/Judged.antt =====
-- How the split of `_verify_responses` (app/coordinator/service.py) depends on the verifier, for any
-- verifier that gives each response its own attestation.
use signal_count.Base.{
  String, ◌≡◌, refl, ◌∙◌, subst, ◌⊎◌, ◌↔◌, inl, inr, true, false, not, some, List, [], ◌∷◌, map,
  select, All, is_mem, IsDistinct, ◌==◌, string_eq, beq_refl, Bool-cases, arith,
}
use signal_count.Base.Dict.{Dict, lookup, insert, lookup-insert}
use signal_count.Schemas.{SpecialistResponse, VerificationAttestation}
use signal_count.Coordinator.Run.{by_role, accepts, split_responses}

abbrev pub response_roles : {F : Type 0} → List (SpecialistResponse F) → List String
response_roles responses = map (λ r. r.node_role) responses

-- The roles whose attestations reject.
abbrev pub rejected_by : {F : Type 0} → List (VerificationAttestation F) → List String
rejected_by attestations =
    map (λ a. a.node_role) (select (λ a. a.status == "rejected") attestations)

pub not_mem :
    (a x : String) (xs : List String)
    → is_mem a (x ∷ xs) ≡ false
    → ((x == a) ≡ false) × (is_mem a xs ≡ false)
not_mem a x xs h = ground arith

module _ {F : Type 0} (Good : SpecialistResponse F → Type 0) where
  -- What the coordinator relies on: one attestation for each response, in order, of the same role,
  -- that accepts exactly a good response and rejects any other.
  abbrev pub AreJudged : List (SpecialistResponse F) → List (VerificationAttestation F) → Type 0
  AreJudged [] [] = Unit
  AreJudged [] (a ∷ others) = ⊥
  AreJudged (r ∷ rs) [] = ⊥
  AreJudged (r ∷ rs) (a ∷ others) =
      ((a.node_role ≡ r.node_role)
        × ((a.status ≡ "accepted") ↔ Good r)
        × ((a.status ≡ "accepted") ⊎ (a.status ≡ "rejected")))
      × AreJudged rs others

  by_role-other :
      (role : String) (rs : List (SpecialistResponse F)) (others : List (VerificationAttestation F))
      (d : Dict String (VerificationAttestation F))
      → AreJudged rs others
      → is_mem role (response_roles rs) ≡ false
      → lookup role (by_role others d) ≡ lookup role d
  unfolding by_role
  by_role-other role [] [] d h m = refl
  by_role-other role [] (a ∷ others) d h m = elim h [ ]
  by_role-other role (r ∷ rs) [] d h m = elim h [ ]
  by_role-other role (r ∷ rs) (a ∷ others) d ((same, judged, either), more) m =
      let (apart, rest) = not_mem role r.node_role (response_roles rs) m in
      by_role-other role rs others (insert a.node_role a d) more rest
      ∙ lookup-insert a.node_role role a d
      ∙ rw (same, apart) refl

  -- The dict has each response's own attestation.
  abbrev Agrees :
      Dict String (VerificationAttestation F)
      → List (SpecialistResponse F)
      → List (VerificationAttestation F)
      → Type 0
  Agrees d [] others = Unit
  Agrees d (r ∷ rs) [] = ⊥
  Agrees d (r ∷ rs) (a ∷ others) = (lookup r.node_role d ≡ some a) × Agrees d rs others

  by_role-Agrees :
      (rs : List (SpecialistResponse F)) (attestations : List (VerificationAttestation F))
      (d : Dict String (VerificationAttestation F))
      → IsDistinct (response_roles rs)
      → AreJudged rs attestations
      → Agrees (by_role attestations d) rs attestations
  unfolding by_role
  by_role-Agrees [] attestations d distinct h = tt
  by_role-Agrees (r ∷ rs) [] d distinct h = h
  by_role-Agrees (r ∷ rs) (a ∷ others) d (alone, distinct) ((same, judged, either), more) = (
    by_role-other r.node_role rs others (insert a.node_role a d) more alone
        ∙ lookup-insert a.node_role r.node_role a d
        ∙ rw (same, beq_refl r.node_role) refl,
    by_role-Agrees rs others (insert a.node_role a d) distinct more,
  )

  select-Good :
      (d : Dict String (VerificationAttestation F)) (rs : List (SpecialistResponse F))
      (attestations : List (VerificationAttestation F))
      → Agrees d rs attestations
      → AreJudged rs attestations
      → All Good (select (accepts d) rs) × All (λ r. ¬ Good r) (select (λ r. not (accepts d r)) rs)
  select-Good d [] attestations agrees h = (tt, tt)
  select-Good d (r ∷ rs) [] agrees h = elim h [ ]
  select-Good d (r ∷ rs) (a ∷ others) (found, agrees) ((same, judged, either), more) =
      let (accepted, rejected) = select-Good d rs others agrees more in
      elim (Bool-cases (a.status == "accepted")) [
        | inl good ↦
            rw (found, good)
              ((judged.0 ((string_eq.beq_iff a.status "accepted").0 good), accepted), rejected)
        | inr bad ↦
            rw (found, bad)
              (
                accepted,
                (
                  λ good.
                      let back = (string_eq.beq_iff a.status "accepted").1 (judged.1 good) in cc,
                  rejected,
                ),
              )
      ]

  -- The roles that attestations reject are those of responses.
  pub rejects-absent :
      (role : String) (rs : List (SpecialistResponse F))
      (attestations : List (VerificationAttestation F))
      → AreJudged rs attestations
      → is_mem role (response_roles rs) ≡ false
      → is_mem role (rejected_by attestations) ≡ false
  rejects-absent role [] [] h m = refl
  rejects-absent role [] (a ∷ others) h m = elim h [ ]
  rejects-absent role (r ∷ rs) [] h m = elim h [ ]
  rejects-absent role (r ∷ rs) (a ∷ others) ((same, judged, either), more) m =
      let (apart, rest) = not_mem role r.node_role (response_roles rs) m in
      let ih = rejects-absent role rs others more rest in
      elim (Bool-cases (a.status == "rejected")) [
        | inl bad ↦ rw (bad, same, apart) ih
        | inr good ↦ rw good ih
      ]

  -- A response is accepted and its role is not rejected, or it is rejected and so is its role.
  abbrev pub IsSplit :
      String
      → List (SpecialistResponse F) × List (SpecialistResponse F)
      → List (VerificationAttestation F)
      → Type 0
  IsSplit role (accepted, rejected) attestations =
      ((is_mem role (response_roles accepted) ≡ true)
        × (is_mem role (rejected_by attestations) ≡ false))
      ⊎ ((is_mem role (response_roles rejected) ≡ true)
          × (is_mem role (rejected_by attestations) ≡ true))

  abbrev parts :
      Dict String (VerificationAttestation F)
      → List (SpecialistResponse F)
      → List (SpecialistResponse F) × List (SpecialistResponse F)
  parts d rs = (select (accepts d) rs, select (λ r. not (accepts d r)) rs)

  IsSplit-here :
      (d : Dict String (VerificationAttestation F)) (r : SpecialistResponse F)
      (rs : List (SpecialistResponse F)) (a : VerificationAttestation F)
      (others : List (VerificationAttestation F))
      → lookup r.node_role d ≡ some a
      → a.node_role ≡ r.node_role
      → (a.status ≡ "accepted") ⊎ (a.status ≡ "rejected")
      → is_mem r.node_role (rejected_by others) ≡ false
      → IsSplit r.node_role (parts d (r ∷ rs)) (a ∷ others)
  IsSplit-here d r rs a others found same either absent = elim either [
    | inl good ↦ inl (rw (found, good, beq_refl r.node_role) refl, rw good absent)
    | inr bad ↦
        inr (rw (found, bad, beq_refl r.node_role) refl, rw (bad, same, beq_refl r.node_role) refl)
  ]

  IsSplit-there :
      (role : String) (d : Dict String (VerificationAttestation F)) (r : SpecialistResponse F)
      (rs : List (SpecialistResponse F)) (a : VerificationAttestation F)
      (others : List (VerificationAttestation F))
      → lookup r.node_role d ≡ some a
      → a.node_role ≡ r.node_role
      → (a.status ≡ "accepted") ⊎ (a.status ≡ "rejected")
      → (r.node_role == role) ≡ false
      → IsSplit role (parts d rs) others
      → IsSplit role (parts d (r ∷ rs)) (a ∷ others)
  IsSplit-there role d r rs a others found same either apart h = elim either [
    | inl good ↦ rw (found, good, apart) h
    | inr bad ↦ rw (found, bad, same, apart) h
  ]

  select-IsSplit :
      (role : String) (d : Dict String (VerificationAttestation F))
      (rs : List (SpecialistResponse F)) (attestations : List (VerificationAttestation F))
      → Agrees d rs attestations
      → IsDistinct (response_roles rs)
      → AreJudged rs attestations
      → is_mem role (response_roles rs) ≡ true
      → IsSplit role (parts d rs) attestations
  select-IsSplit role d [] attestations agrees distinct h m = cc
  select-IsSplit role d (r ∷ rs) [] agrees distinct h m = elim h [ ]
  select-IsSplit role d (r ∷ rs) (a ∷ others) (found, agrees) (alone, distinct)
        ((same, judged, either), more) m =
      elim (Bool-cases (r.node_role == role)) [
        | inl here ↦
            subst (λ x. IsSplit x (parts d (r ∷ rs)) (a ∷ others))
              ((string_eq.beq_iff r.node_role role).0 here)
              (IsSplit-here d r rs a others found same either
                (rejects-absent r.node_role rs others more alone))
        | inr apart ↦
            IsSplit-there role d r rs a others found same either apart
              (select-IsSplit role d rs others agrees distinct more (rw apart at m))
      ]

  -- Each of the responses of distinct roles is on the side that its attestation says.
  pub split_responses-IsSplit :
      (rs : List (SpecialistResponse F)) (attestations : List (VerificationAttestation F))
      → IsDistinct (response_roles rs)
      → AreJudged rs attestations
      → (role : String) → is_mem role (response_roles rs) ≡ true
      → IsSplit role (split_responses (by_role attestations []) rs) attestations
  unfolding split_responses
  split_responses-IsSplit rs attestations distinct h role m =
      select-IsSplit role (by_role attestations []) rs attestations
        (by_role-Agrees rs attestations [] distinct h) distinct h m

  -- Of responses of distinct roles the good ones are accepted and no others.
  pub split_responses-Good :
      (rs : List (SpecialistResponse F)) (attestations : List (VerificationAttestation F))
      → IsDistinct (response_roles rs)
      → AreJudged rs attestations
      → let (accepted, rejected) = split_responses (by_role attestations []) rs in
        All Good accepted × All (λ r. ¬ Good r) rejected
  unfolding split_responses
  split_responses-Good rs attestations distinct h =
      select-Good (by_role attestations []) rs attestations
        (by_role-Agrees rs attestations [] distinct h) h
