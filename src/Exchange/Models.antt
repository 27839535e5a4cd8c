-- ===== src/Exchange/Models.antt =====
-- The tables of exchange/models.py, with the columns that the modelled code reads or writes. Ids
-- are UUID texts that the code only compares, so they are numbers here. Instants are numbers of
-- microseconds. `R` is the type of Python's floats. A JSON column is the text that it is stored as.
use a2a_settlement.Base.{ℕ, Bool, Option, List}
use a2a_settlement.Int.{ℤ}
use a2a_settlement.Table.{Table}
use Prim.Native.String.{String}

pub data AccountStatus : Type 0 where
  active suspended operator : AccountStatus

pub data AccountType : Type 0 where
  agent gateway : AccountType

pub record Account (R : Type 0) : Type 0 where
  pub bot_name : String
  pub developer_id : String
  pub developer_name : String
  pub contact_email : String
  pub api_key_hash : String
  pub previous_api_key_hash : Option String
  pub key_rotated_at : Option ℕ
  pub description : Option String
  pub skills : List String
  pub status : AccountStatus
  pub reputation : R
  pub daily_spend_limit : Option ℕ
  pub frozen_until : Option ℕ
  pub created_at : ℕ
  pub unique_counterparties_90d : ℕ
  pub counterparty_hhi : Option R
  pub diversity_score : Option R
  pub is_oracle : Bool
  pub kya_level_verified : ℕ
  pub did : Option String
  pub did_key : Option String
  pub agent_card_json : Option String
  pub card_verified_at : Option ℕ
  pub attestation_expires_at : Option ℕ
  pub account_type : AccountType

pub record Balance : Type 0 where
  pub available : ℤ
  pub held_in_escrow : ℤ
  pub total_earned : ℕ
  pub total_spent : ℕ

pub data EscrowStatus : Type 0 where
  held partially_released released refunded evidence_pending disputed expired : EscrowStatus

pub data SelfDealingClass : Type 0 where
  arms_length suspected_self_dealing self_dealing : SelfDealingClass

pub data StakeStatus : Type 0 where
  stake_held stake_returned stake_forfeited : StakeStatus

pub data AttestationLevel : Type 0 where
  self_declared signed verifiable : AttestationLevel

pub data Recommendation : Type 0 where
  approve review reject : Recommendation

-- The keys of a provenance result that the code reads back; each may be missing.
pub record ProvenanceResult : Type 0 where
  pub verified : Option Bool
  pub tier : Option AttestationLevel
  pub recommendation : Option Recommendation

pub record Escrow : Type 0 where
  pub requester_id : ℕ
  pub provider_id : ℕ
  pub amount : ℕ
  pub fee_amount : ℕ
  pub task_id : Option String
  pub depends_on : Option (List ℕ)
  pub status : EscrowStatus
  pub dispute_reason : Option String
  pub resolution_strategy : Option String
  pub expires_at : ℕ
  pub dispute_expires_at : Option ℕ
  pub warning_sent_at : Option ℕ
  pub resolved_at : Option ℕ
  pub self_dealing_class : Option SelfDealingClass
  pub required_attestation_level : Option AttestationLevel
  pub delivered_content : Option String
  pub provenance_result : Option ProvenanceResult
  pub delivered_at : Option ℕ
  pub released_amount : Option ℕ
  pub released_fee : Option ℕ
  pub holdback_amount : Option ℕ
  pub holdback_fee : Option ℕ
  pub score : Option ℕ
  pub efficacy_check_at : Option ℕ
  pub efficacy_criteria : Option String
  pub dispute_filed_by : Option ℕ
  pub dispute_stake_amount : Option ℕ
  pub dispute_stake_status : Option StakeStatus
  pub evidence_window_closes_at : Option ℕ
  pub mediator_context : Option String
  pub kya_level_at_creation : Option ℕ
  pub hitl_required : Bool
  pub created_at : ℕ

pub data TxType : Type 0 where
  mint deposit_tx instant_settlement fee escrow_hold escrow_release escrow_refund : TxType
  escrow_partial_release escrow_holdback_release escrow_holdback_refund : TxType
  dispute_stake_hold dispute_stake_return dispute_stake_forfeit : TxType
  attestation_renewal_fee : TxType

pub record Transaction : Type 0 where
  pub escrow_id : Option ℕ
  pub from_account : Option ℕ
  pub to_account : Option ℕ
  pub amount : ℕ
  pub tx_type : TxType
  pub self_dealing_class : Option SelfDealingClass
  pub fee_class : Option SelfDealingClass
  pub created_at : ℕ

pub data ClaimStatus : Type 0 where
  claim_active claim_released : ClaimStatus

pub record GatewayClaim : Type 0 where
  pub gateway_id : ℕ
  pub account_id : ℕ
  pub verified : Bool
  pub status : ClaimStatus
  pub claimed_at : ℕ

pub record EvidenceSubmission : Type 0 where
  pub escrow_id : ℕ
  pub submitter_id : ℕ
  pub oracle_id : Option ℕ
  pub submitted_at : ℕ

-- The database as a session sees it; the newest transaction and submission come first.
pub record Db (R : Type 0) : Type 0 where
  pub accounts : Table (Account R)
  pub balances : Table Balance
  pub escrows : Table Escrow
  pub transactions : List Transaction
  pub evidence : List EvidenceSubmission
