-- ===== src/Indexer/Events.antt =====
-- Decoded chain events and block headers (the records of app/indexer/chain_events.py).
use signal_count.Base.{ℕ, String}
use signal_count.Base.Json.{Fields}
use signal_count.Base.Text.{lower}

pub record IndexedChainEvent : Type 0 where
  pub event_name : String
  pub contract_address : String
  pub block_number : ℕ
  pub block_hash : String
  pub transaction_hash : String
  pub log_index : ℕ
  pub args : Fields

-- `event_id` is the text of these two parts with a colon between; the last colon tells them apart.
abbrev pub EventId : Type 0
EventId = String × ℕ

pub event_id : IndexedChainEvent → EventId
event_id e = (lower e.transaction_hash, e.log_index)

pub record IndexedChainBlock : Type 0 where
  pub block_number : ℕ
  pub block_hash : String
