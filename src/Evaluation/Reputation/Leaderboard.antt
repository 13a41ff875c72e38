-- ===== src/Evaluation/Reputation/Leaderboard.antt =====
-- The reading of stored updates, and the sorted leaderboard (app/evaluation/reputation.py).
use signal_count.Base.{
  String, ◌≡◌, refl, inl, inr, Bool, true, false, not, Option, none, some, List, [], ◌∷◌, map,
  nat_beq, if◌then◌else◌, Bool-cases, arith,
}
use signal_count.Base.Json.{
  Json, null, bool, nat, num, str, arr, obj, nil, item, Fields, end, field, get_field, text_or_null,
}
use signal_count.Base.Text.{is_empty, text_lt, text_lt-asym}
use signal_count.Base.Outcome.{Outcome, ok, ◌>>=◌, or_raise}
use signal_count.Base.Sorting.{Reordered, sorted, sorted-Reordered, IsSorted, sorted-IsSorted}
use signal_count.Base.Floats.{Floats}
use signal_count.Evaluation.Reputation.{ReputationUpdate, ReputationLedgerEntry, aggregate}

-- The `KeyError` and the `ValueError` or `TypeError` of `float`.
pub data UpdateError : Type 0 where
  missing_key : String → UpdateError
  no_float : UpdateError

-- Python's `str` of a value that is no text, `float` of a value, whether a number that is no natural
-- one is true, and the number that stands for a float.
pub record ValueLibrary (F : Type 0) : Type 0 where
  pub str_of_other : Json → String
  pub float_of : Json → Option F
  pub is_nonzero : String → Bool
  pub number_of : F → Json

module _ {F : Type 0} (values : ValueLibrary F) where
  open values use {str_of_other, float_of, is_nonzero, number_of}

  -- `str(value)`
  abbrev pub str_of : Json → String
  str_of (str s) = s
  str_of v = str_of_other v

  -- `bool(value)`
  abbrev pub truthy : Json → Bool
  truthy (null) = false
  truthy (bool b) = b
  truthy (nat n) = not (nat_beq n 0)
  truthy (num n) = is_nonzero n
  truthy (str s) = not (is_empty s)
  truthy (arr (nil)) = false
  truthy (arr (item v vs)) = true
  truthy (obj (end)) = false
  truthy (obj (field k v fs)) = true

  -- `str(v) if update.get(key) else None`, and `bool(update.get(key, False))`
  abbrev text_if_true : Option Json → Option String
  text_if_true none = none
  text_if_true (some v) = if truthy v then some (str_of v) else none

  abbrev truth_of : Option Json → Bool
  truth_of none = false
  truth_of (some v) = truthy v

  -- `str(update[key])` and `float(update[key])`
  abbrev pub text_at : String → Fields → Outcome UpdateError String
  text_at key update = or_raise (get_field key update) (missing_key key) >>= λ v. ok (str_of v)

  abbrev pub float_at : String → Fields → Outcome UpdateError F
  float_at key update =
      or_raise (get_field key update) (missing_key key) >>= λ v. or_raise (float_of v) no_float

  -- `_coerce_update` of a dict.
  unfoldable pub coerce_update : Fields → Outcome UpdateError (ReputationUpdate F)
  coerce_update update = do
    job_id ← text_at "job_id" update
    node_role ← text_at "node_role" update
    peer_id ← text_at "peer_id" update
    verifier_status ← text_at "verifier_status" update
    verifier_score ← float_at "verifier_score" update
    reputation_points ← float_at "reputation_points" update
    reason ← text_at "reason" update
    ok (record {
      job_id = job_id;
      node_role = node_role;
      peer_id = peer_id;
      agent_wallet = text_if_true (get_field "agent_wallet" update);
      verifier_status = verifier_status;
      verifier_score = verifier_score;
      credit_eligible = truth_of (get_field "credit_eligible" update);
      reputation_points = reputation_points;
      reason = reason;
    })

  -- `ReputationUpdate.to_dict`
  unfoldable pub update_dict : ReputationUpdate F → Fields
  update_dict u = field "job_id" (str u.job_id) (
      field "node_role" (str u.node_role) (
        field "peer_id" (str u.peer_id) (
          field "agent_wallet" (text_or_null u.agent_wallet) (
            field "verifier_status" (str u.verifier_status) (
              field "verifier_score" (number_of u.verifier_score) (
                field "credit_eligible" (bool u.credit_eligible) (
                  field "reputation_points" (number_of u.reputation_points)
                    (field "reason" (str u.reason) end))))))))

  abbrev WalletKept : Option String → Type 0
  WalletKept none = Unit
  WalletKept (some s) = is_empty s ≡ false

  text_if_true-text_or_null :
      (wallet : Option String)
      → WalletKept wallet
      → text_if_true (some (text_or_null wallet)) ≡ wallet
  text_if_true-text_or_null none kept = refl
  text_if_true-text_or_null (some s) kept = rw kept refl

  -- The numbers of an update are read back, and its wallet is not the empty text.
  abbrev pub IsStorable : ReputationUpdate F → Type 0
  IsStorable u =
      (float_of (number_of u.verifier_score) ≡ some u.verifier_score)
      × (float_of (number_of u.reputation_points) ≡ some u.reputation_points)
      × WalletKept u.agent_wallet

  pub coerce_update-update_dict :
      (u : ReputationUpdate F) → IsStorable u → coerce_update (update_dict u) ≡ ok u
  unfolding coerce_update update_dict
  coerce_update-update_dict u (score, points, kept) =
      rw (score, points, text_if_true-text_or_null u.agent_wallet kept) refl

  -- Each dict in turn; the first that cannot be read raises.
  unfoldable pub coerce_updates : List Fields → Outcome UpdateError (List (ReputationUpdate F))
  unfolding coerce_update
  coerce_updates [] = ok []
  coerce_updates (d ∷ ds) = do u ← coerce_update d; us ← coerce_updates ds; ok (u ∷ us)

module _ (fl : Floats) (round6 percent : fl.Float → fl.Float)
    (add : fl.Float → fl.Float → fl.Float) where
  open fl use {Float, lt}

  -- The key of the sort: points from above, then role and peer.
  abbrev pub ranks_before : ReputationLedgerEntry Float → ReputationLedgerEntry Float → Bool
  ranks_before a b =
      if lt b.reputation_points a.reputation_points
      then true
      else if lt a.reputation_points b.reputation_points
      then false
      else if text_lt a.node_role b.node_role
      then true
      else if text_lt b.node_role a.node_role
      then false
      else text_lt a.peer_id b.peer_id

  -- `build_reputation_leaderboard` of updates.
  unfoldable pub build_reputation_leaderboard :
      List (ReputationUpdate Float) → List (ReputationLedgerEntry Float)
  unfolding aggregate text_lt
  build_reputation_leaderboard updates =
      sorted ranks_before (map (λ row. row.1) (aggregate fl round6 percent add updates []))

  lt_asym : (x y : Float) → lt x y ≡ true → lt y x ≡ false
  lt_asym x y h = elim (Bool-cases (lt y x)) [
    | inl back ↦ let loop = fl.lt_trans x y x h back in let no = fl.lt_irrefl x in cc
    | inr apart ↦ apart
  ]

  ranks_before-asym :
      (a b : ReputationLedgerEntry Float) → ranks_before a b ≡ true → ranks_before b a ≡ false
  ranks_before-asym a b h = ground (
    arith,
    lt_asym a.reputation_points b.reputation_points,
    lt_asym b.reputation_points a.reputation_points,
    text_lt-asym a.node_role b.node_role,
    text_lt-asym b.node_role a.node_role,
    text_lt-asym a.peer_id b.peer_id,
  )

  pub build_reputation_leaderboard-IsSorted :
      (updates : List (ReputationUpdate Float))
      → IsSorted ranks_before (build_reputation_leaderboard updates)
        × Reordered
            (map (λ row. row.1) (aggregate fl round6 percent add updates []))
            (build_reputation_leaderboard updates)
  unfolding build_reputation_leaderboard
  build_reputation_leaderboard-IsSorted updates =
      let entries = map (λ row. row.1) (aggregate fl round6 percent add updates []) in
      (
        sorted-IsSorted ranks_before ranks_before-asym entries,
        sorted-Reordered ranks_before entries,
      )
