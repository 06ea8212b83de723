-- ===== src/Types/Messages.antt =====
-- The requests to and responses from the instruction and data memories (include/boom_types.hpp).
-- The field `data` is spelled `data_`, since `data` is a word of the language.
use boom.Base.{ℕ, Bool, false}
use boom.Types.Codes.{dmem_load}

pub record ImemRequest : Type 0 where
  pub address : ℕ
  pub fetch_id : ℕ
  pub kill : Bool

abbrev pub imem_request_init : ImemRequest
imem_request_init = record { address = 0; fetch_id = 0; kill = false }

pub record ImemResponse : Type 0 where
  pub address : ℕ
  pub fetch_id : ℕ
  pub instruction : ℕ
  pub exception : Bool
  pub exc_cause : ℕ

pub record DmemRequest : Type 0 where
  pub transaction_id : ℕ
  pub rob_idx : ℕ
  pub command : ℕ
  pub size : ℕ
  pub mask : ℕ
  pub write_mask : ℕ
  pub branch_mask : ℕ
  pub epoch : ℕ
  pub is_store : Bool
  pub signed_load : Bool
  pub committed : Bool
  pub address : ℕ
  pub data_ : ℕ
  pub write_data : ℕ

abbrev pub dmem_request_init : DmemRequest
dmem_request_init = record {
  transaction_id = 0;
  rob_idx = 0;
  command = dmem_load;
  size = 3;
  mask = 0;
  write_mask = 0;
  branch_mask = 0;
  epoch = 0;
  is_store = false;
  signed_load = false;
  committed = false;
  address = 0;
  data_ = 0;
  write_data = 0;
}

pub record DmemResponse : Type 0 where
  pub transaction_id : ℕ
  pub data_ : ℕ
  pub read_data : ℕ
  pub exception : Bool
  pub exc_cause : ℕ
  pub exception_cause : ℕ
