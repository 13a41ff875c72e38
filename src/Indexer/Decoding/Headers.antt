-- ===== src/Indexer/Decoding/Headers.antt =====
-- The block headers that app/indexer/chain_events.py reads.
use signal_count.Base.{
  ℕ, zero, suc, ◌+◌, ◌-◌, String, ◌≡◌, refl, sym, ap, ◌∙◌, subst, inl, inr, true, false, Option,
  none, some, List, [], ◌∷◌, map, All, Bool-cases,
}
use signal_count.Base.Json.{Json, null, bool, nat, num, str, arr, obj, Fields, get_field}
use signal_count.Base.Text.{starts_with}
use signal_count.Base.Hex.{to_hex}
use signal_count.Base.Outcome.{ok, >>=-ok, ok_inj, or_raise-ok}
use signal_count.Indexer.Events.{IndexedChainBlock}
use signal_count.Indexer.Decoding.{
  ChainLibrary, poll_error, hash_of, header_of, headers_from, block_headers,
}

-- `range(from, from + count)`
abbrev pub numbers_from : ℕ → ℕ → List ℕ
numbers_from zero from = []
numbers_from (suc count) from = from ∷ numbers_from count (from + 1)

module _ (lib : ChainLibrary) where
  -- A header is of the node's reply for its block's number: it has the hash of that reply, which starts
  -- with `0x`.
  abbrev pub IsReplied : IndexedChainBlock → Type 0
  IsReplied b =
      (header : Fields) × (lib.call "eth_getBlockByNumber"
          (str (to_hex b.block_number) ∷ bool false ∷ [])
        ≡ some (obj header))
      × (get_field "hash" header ≡ some (str b.block_hash))
      × (starts_with "0x" b.block_hash ≡ true)

  hash_of_found :
      (o : Option Json) (h : String)
      → hash_of lib o ≡ ok h
      → (o ≡ some (str h)) × (starts_with "0x" h ≡ true)
  hash_of_found none h e = cc
  hash_of_found (some (str s)) h e = elim (Bool-cases (starts_with "0x" s)) [
    | inl good ↦
        let same = ok_inj (rw good at e) in
        (ap (λ x. some (str x)) same, subst (λ x. starts_with "0x" x ≡ true) same good)
    | inr bad ↦ let wrong = rw bad at e in cc
  ]
  hash_of_found (some (null)) h e = cc
  hash_of_found (some (bool b)) h e = cc
  hash_of_found (some (nat n)) h e = cc
  hash_of_found (some (num t)) h e = cc
  hash_of_found (some (arr js)) h e = cc
  hash_of_found (some (obj fs)) h e = cc

  -- A header that is read of a reply has the number that was asked for and the reply's hash.
  header_of-lem :
      (n : ℕ) (j : Json) (b : IndexedChainBlock)
      → lib.call "eth_getBlockByNumber" (str (to_hex n) ∷ bool false ∷ []) ≡ some j
      → header_of lib n j ≡ ok b
      → (b.block_number ≡ n) × IsReplied b
  header_of-lem n (obj fs) b replied e =
      let (h, found, same) = >>=-ok (hash_of lib (get_field "hash" fs)) _ e in
      let (hash, prefix) = hash_of_found (get_field "hash" fs) h found in
      (
        ap (λ (x : IndexedChainBlock). x.block_number) (sym (ok_inj same)),
        subst IsReplied (ok_inj same) (fs, replied, hash, prefix),
      )
  header_of-lem n (null) b replied e = cc
  header_of-lem n (bool x) b replied e = cc
  header_of-lem n (nat m) b replied e = cc
  header_of-lem n (num t) b replied e = cc
  header_of-lem n (str s) b replied e = cc
  header_of-lem n (arr js) b replied e = cc

  abbrev Named : ℕ → ℕ → List IndexedChainBlock → Type 0
  Named count from bs =
      (map (λ (b : IndexedChainBlock). b.block_number) bs ≡ numbers_from count from)
      × All IsReplied bs

  headers_from-lem :
      (count from : ℕ) (bs : List IndexedChainBlock)
      → headers_from lib count from ≡ ok bs
      → Named count from bs
  unfolding headers_from
  headers_from-lem zero from bs e = subst (Named 0 from) (ok_inj e) (refl, tt)
  headers_from-lem (suc count) from bs e =
      let asked = lib.call "eth_getBlockByNumber" (str (to_hex from) ∷ bool false ∷ []) in
      let (reply, given, e1) = >>=-ok (poll_error lib asked) _ e in
      let (b, found, e2) = >>=-ok (header_of lib from reply) _ e1 in
      let (rest, more, e3) = >>=-ok (headers_from lib count (from + 1)) _ e2 in
      let (number, replied) = header_of-lem from reply b (or_raise-ok asked _ given) found in
      let (numbers, others) = headers_from-lem count (from + 1) rest more in
      subst (Named (suc count) from) (ok_inj e3) (
        ap (λ n. n ∷ map (λ (b' : IndexedChainBlock). b'.block_number) rest) number
            ∙ ap (◌∷◌ from) numbers,
        (replied, others),
      )

  -- The headers that a poll returns are those of every block from the first to the last, each once
  -- and in order. Each has the hash of the node's reply for its block's number, which starts with `0x`.
  pub block_headers-numbers :
      (from_block to_block : ℕ) (headers : List IndexedChainBlock)
      → block_headers lib from_block to_block ≡ ok headers
      → (map (λ (b : IndexedChainBlock). b.block_number) headers
          ≡ numbers_from (to_block + 1 - from_block) from_block)
        × All IsReplied headers
  unfolding block_headers
  block_headers-numbers from_block to_block headers e =
      headers_from-lem (to_block + 1 - from_block) from_block headers e
