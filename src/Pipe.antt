-- ===== src/Pipe.antt =====
-- include/boom_interfaces.hpp: the streams between the core and its surroundings. A stream is the list
-- of what it holds, oldest first. `read` is called on a stream that is not empty only, so the readers
-- match on the list.
use boom.Base.{ℕ, Bool, List, ◌∷◌, [], ◌++◌, leb, length, true, false}
use boom.Types.Messages.{ImemRequest, ImemResponse, DmemRequest, DmemResponse}
use boom.Types.Entries.{CommitEntry}

abbrev pub max_size : ℕ
max_size = 1024

module _ {ℓ} {A : Type ℓ} where
  abbrev pub write : List A → A → List A
  write q v = q ++ v ∷ []

  abbrev pub empty : List A → Bool
  empty [] = true
  empty (x ∷ xs) = false

  abbrev pub full : List A → Bool
  full q = leb max_size (length q)

pub record PipeSignals : Type 0 where
  pub imem_req : List ImemRequest
  pub imem_resp : List ImemResponse
  pub dmem_req : List DmemRequest
  pub dmem_resp : List DmemResponse
  pub commit_trace : List CommitEntry

abbrev pub pipe_signals_init : PipeSignals
pipe_signals_init = record {
  imem_req = [];
  imem_resp = [];
  dmem_req = [];
  dmem_resp = [];
  commit_trace = [];
}
