-- ===== src/Indexer/Decoding/Ordered.antt =====
-- What app/indexer/chain_events.py decodes.
use signal_count.Base.{
  suc, String, ◌≡◌, refl, sym, ap, ◌∙◌, subst, inl, inr, Bool, true, false, not, Option, none, some,
  List, [], ◌∷◌, length, select, is_mem, beq_refl, ◌==◌, string_eq, Bool-cases, Option-cases, arith,
}
use signal_count.Base.Json.{Fields, get_field, str}
use signal_count.Base.Text.{remove_prefix}
use signal_count.Base.Hex.{from_hex}
use signal_count.Base.Sorting.{
  sorted-Reordered, IsSorted, sorted-IsSorted, length-Reordered, any, any-Reordered,
}
use signal_count.Base.Outcome.{ok, >>=-ok, ok_inj, or_raise, Ensures, ok-Ensures, >>=-Ensures}
use signal_count.Indexer.Events.{IndexedChainEvent}
use signal_count.Indexer.Projections.{comes_before}
use signal_count.Indexer.Projections.Order.{comes_before-asym}
use signal_count.Indexer.Decoding.{
  ChainLibrary, EventDefinition, event_definitions, topic, by_topic, topic_of, definition_of,
  decode_known, decode_by, decode_log, cons_event, decode_each, decode_logs, zip_args, required,
  hex_to_int, value_or, undecodable, invalid_address,
}

abbrev pub names : List EventDefinition → List String
names [] = []
names (d ∷ ds) = d.name ∷ names ds

is_mem-later : (a x : String) (xs : List String) → is_mem a xs ≡ true → is_mem a (x ∷ xs) ≡ true
is_mem-later a x xs h = ground arith

some_inj : {A : Type 0} {a b : A} → ◌≡◌ {A = Option A} (some a) (some b) → a ≡ b
some_inj h = cc

module _ (lib : ChainLibrary) where
  -- The log's first topic is that of a known event.
  abbrev pub is_some : Option EventDefinition → Bool
  is_some none = false
  is_some (some d) = true

  abbrev pub is_known : Fields → Bool
  is_known log = is_some (definition_of lib (topic_of lib (get_field "topics" log)))

  abbrev pub has_other_name : IndexedChainEvent → Bool
  has_other_name e = not (is_mem e.event_name (names event_definitions))

  by_topic-name :
      (t : String) (ds : List EventDefinition) (d : EventDefinition)
      → by_topic lib t ds ≡ some d
      → is_mem d.name (names ds) ≡ true
  unfolding by_topic
  by_topic-name t [] d h = cc
  by_topic-name t (d' ∷ ds) d h = elim (Option-cases (by_topic lib t ds)) [
    | inr (later, found) ↦ is_mem-later d.name d'.name (names ds) (
        subst (λ (x : EventDefinition). is_mem x.name (names ds) ≡ true) (some_inj (rw found at h))
          (by_topic-name t ds later found))
    | inl absent ↦ elim (Bool-cases (topic lib d' == t)) [
      | inl same ↦
          subst (λ (x : EventDefinition). is_mem x.name (names (d' ∷ ds)) ≡ true)
            (some_inj (rw (absent, same) at h)) (rw (beq_refl d'.name) refl)
      | inr other ↦ let bad = rw (absent, other) at h in cc
    ]
  ]

  decode_known-name :
      (d : EventDefinition) (log : Fields)
      → Ensures (λ (e : IndexedChainEvent). e.event_name ≡ d.name) (decode_known lib d log)
  unfolding decode_known
  decode_known-name d log =
      let Q : IndexedChainEvent → Type 0 = λ e. e.event_name ≡ d.name in
      let raw = remove_prefix "0x" (lib.show (value_or (str "0x") (get_field "data" log))) in
      >>=-Ensures Q (or_raise (from_hex raw) undecodable) _ λ bytes _.
        >>=-Ensures Q (or_raise (lib.decode d.arg_types bytes) undecodable) _ λ values _.
          >>=-Ensures Q (zip_args lib d.arg_names values) _ λ args _.
            >>=-Ensures Q (required lib "address" log) _ λ address _.
              >>=-Ensures Q (or_raise (lib.checksum (lib.show address)) invalid_address) _
                λ contract _. >>=-Ensures Q (required lib "blockNumber" log) _ λ block _.
                  >>=-Ensures Q (hex_to_int block) _ λ block_number _.
                    >>=-Ensures Q (required lib "transactionHash" log) _ λ transaction _.
                      >>=-Ensures Q (required lib "logIndex" log) _ λ index _.
                        >>=-Ensures Q (hex_to_int index) _ λ log_index _. ok-Ensures Q _ refl

  -- The events of a list of logs: as many as there are known logs, each with a known name.
  abbrev Decoded : List Fields → List IndexedChainEvent → Type 0
  Decoded logs es = (length es ≡ length (select is_known logs)) × (any has_other_name es ≡ false)

  definition_of-name :
      (t : Option String) (d : EventDefinition)
      → definition_of lib t ≡ some d
      → is_mem d.name (names event_definitions) ≡ true
  definition_of-name none d h = cc
  definition_of-name (some t) d h = by_topic-name t event_definitions d h

  decode_by-Decoded :
      (def : Option EventDefinition) (log : Fields) (logs : List Fields)
      (o : Option IndexedChainEvent) (es : List IndexedChainEvent)
      → definition_of lib (topic_of lib (get_field "topics" log)) ≡ def
      → decode_by lib def log ≡ ok o
      → Decoded logs es
      → Decoded (log ∷ logs) (cons_event lib o es)
  decode_by-Decoded none log logs o es unknown h d =
      let no : is_known log ≡ false = ap is_some unknown in
      subst (λ o'. Decoded (log ∷ logs) (cons_event lib o' es)) (ok_inj h) (rw no d.0, d.1)
  decode_by-Decoded (some def) log logs o es found h d =
      let (e, decoded, same) = >>=-ok (decode_known lib def log) _ h in
      let yes_known : is_known log ≡ true = ap is_some found in
      let named : has_other_name e ≡ false =
        ap (λ n. not (is_mem n (names event_definitions))) (decode_known-name def log e decoded)
        ∙ ap not (definition_of-name (topic_of lib (get_field "topics" log)) def found) in
      subst (λ o'. Decoded (log ∷ logs) (cons_event lib o' es)) (ok_inj same)
        (rw yes_known (ap suc d.0), rw named d.1)

  decode_each-Decoded : (logs : List Fields) → Ensures (Decoded logs) (decode_each lib logs)
  unfolding decode_each decode_log
  decode_each-Decoded [] = ok-Ensures (Decoded []) [] (refl, refl)
  decode_each-Decoded (log ∷ logs) =
      >>=-Ensures (Decoded (log ∷ logs)) (decode_log lib log) _ λ o decoded.
        >>=-Ensures (Decoded (log ∷ logs)) (decode_each lib logs) _ λ es rest.
          ok-Ensures (Decoded (log ∷ logs)) (cons_event lib o es) (
            decode_by-Decoded (definition_of lib (topic_of lib (get_field "topics" log))) log logs o
              es refl decoded (decode_each-Decoded logs es rest))

  -- When logs are decoded, the events are in order of block and then log, there are as many as logs
  -- whose first topic is that of a known event, and each has the name of a known event.
  pub decode_logs-IsSorted :
      (logs : List Fields) (events : List IndexedChainEvent)
      → decode_logs lib logs ≡ ok events
      → IsSorted comes_before events
        × (length events ≡ length (select is_known logs))
        × (any has_other_name events ≡ false)
  unfolding decode_logs
  decode_logs-IsSorted logs events h =
      let (es, decoded, same) = >>=-ok (decode_each lib logs) _ h in
      let (count, named) = decode_each-Decoded logs es decoded in
      let moved = sorted-Reordered comes_before es in
      subst
        (λ es'.
          IsSorted comes_before es'
          × (length es' ≡ length (select is_known logs))
          × (any has_other_name es' ≡ false))
        (ok_inj same)
        (
          sorted-IsSorted comes_before comes_before-asym es,
          sym (length-Reordered moved) ∙ count,
          sym (any-Reordered has_other_name moved) ∙ named,
        )
