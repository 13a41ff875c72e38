-- ===== src/Schemas.antt =====
-- Request and response contracts (app/schemas/contracts.py). The field constraints that pydantic
-- checks on construction are not part of the records. `F` is the type of floats.
use signal_count.Base.{ℕ, String, Option, List}
use signal_count.Base.Json.{Fields}

pub record ThesisRequest : Type 0 where
  pub thesis : String
  pub asset : String
  pub horizon_days : ℕ

pub record ScenarioView (F : Type 0) : Type 0 where
  pub bull : F
  pub base : F
  pub bear : F

pub record SpecialistResponse (F : Type 0) : Type 0 where
  pub job_id : String
  pub node_role : String
  pub peer_id : String
  pub summary : String
  pub scenario_view : ScenarioView F
  pub signals : List String
  pub risks : List String
  pub confidence : F
  pub citations : List String
  pub timestamp : String
  pub agent_wallet : Option String
  pub ree_receipt_hash : Option String
  pub receipt_status : Option String
  pub ree_prompt_hash : Option String
  pub ree_tokens_hash : Option String
  pub ree_model_name : Option String
  pub ree_receipt_body : Option Fields
  pub ree_receipt_path : Option String

pub record TaskSpec : Type 0 where
  pub job_id : String
  pub thesis : String
  pub asset : String
  pub horizon_days : ℕ

pub record AgentIdentity : Type 0 where
  pub role : String
  pub peer_id : String
  pub wallet : String

pub record SignatureEnvelope : Type 0 where
  pub signer : String
  pub task_hash : String
  pub output_hash : String
  pub signature : String
  pub algorithm : String

pub record SignedAgentExecution (F : Type 0) : Type 0 where
  pub task : TaskSpec
  pub identity : AgentIdentity
  pub response : SpecialistResponse F
  pub signature : SignatureEnvelope

pub record VerificationAttestation (F : Type 0) : Type 0 where
  pub job_id : String
  pub node_role : String
  pub peer_id : String
  pub status : String
  pub score : F
  pub reasons : List String
  pub signer : Option String
  pub agent_wallet : Option String
  pub output_hash : Option String
  pub ree_receipt_hash : Option String
  pub receipt_status : Option String
  pub ree_prompt_hash : Option String
  pub ree_tokens_hash : Option String
  pub ree_model_name : Option String
  pub ree_receipt_body : Option Fields
  pub ree_receipt_path : Option String
  pub verifier : Option String
  pub attestation_hash : Option String
  pub verifier_signature : Option String
  pub signature_algorithm : Option String
