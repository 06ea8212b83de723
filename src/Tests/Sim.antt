-- ===== src/Tests/Sim.antt =====
-- The driver of the simulation at concrete inputs.
use boom.Base.{
  ℕ, ◌+◌, ◌^◌, ◌≡◌, refl, arith, min, u64, true, false, ◌&&◌, ◌==◌, ◌!=◌, ltb, if◌then◌else◌, List,
  [], ◌∷◌, ◌++◌, replicate, none,
}
use boom.Decode.Fields.{extract_imm_s}
use boom.Sim.Memory.{SimpleMemory}
use boom.Base.Text.{codes}
use boom.Sim.Load.{load_hex}
use boom.Sim.Load.Digits.{is_some, load_hex-accepts}
use boom.Sim.Load.Lines.{are_lines}
use boom.Sim.Axi.{Tick}
use boom.Sim.Axi.Order.{
  after, reads_in, reads_out, writes_in, writes_out, in_flight, responses_in_order,
}
use boom.Sim.Axi.Burst.{stored, store_burst}
use boom.Sim.Trace.{Signals, is_sd, sd_address, sd_value, detect_tohost_store}
use boom.Sim.Trace.Numbering.{IsTraced}
use boom.Sim.Trace.Address.{store_address, detect_tohost_store-sees}
use boom.Sim.Driver.{Harness, Options, observed_tohost, observed_tohost_value, goes_on, main}
use boom.Sim.Driver.Ending.{end_top, end_globals, main_ends}

abbrev idle_memory : SimpleMemory
idle_memory = record {
  size = 4096;
  word_size = 8;
  line_size = 64;
  store_inflight = false;
  store_addr = 0;
  store_id = 0;
  store_size = 0;
  store_count = 0;
  rresp = [];
  bresp = [];
  bytes = λ a. none;
  tohost_enabled = true;
  tohost_seen = false;
  tohost_addr = 0x80;
  tohost_value = 0;
}

abbrev quiet : Tick
quiet = record {
  reset = false;
  ar_valid = false;
  ar_addr = 0;
  ar_id = 0;
  ar_size = 0;
  ar_len = 0;
  aw_valid = false;
  aw_addr = 0;
  aw_id = 0;
  aw_size = 0;
  aw_len = 0;
  w_valid = false;
  w_strb = 0;
  w_data = 0;
  w_last = false;
  r_ready = false;
  b_ready = false;
}

-- The bound of 256 MB and an address behind it, as the core uses them.
abbrev wrapping_memory : SimpleMemory
wrapping_memory = record idle_memory { size = 0x10000000 }

-- A store of two beats at 16 beside a read of three, and the other side that takes all responses.
abbrev address : Tick
address = record quiet {
  aw_valid = true;
  aw_addr = 16;
  aw_id = 5;
  aw_size = 3;
  aw_len = 1;
  ar_valid = true;
  ar_addr = 16;
  ar_id = 2;
  ar_len = 2;
}

abbrev beat : ℕ → Tick
beat v = record quiet { w_valid = true; w_strb = 0xFF; w_data = v; r_ready = true; b_ready = true }

abbrev calls : List Tick
calls = address ∷ beat 7 ∷ beat 8 ∷ beat 0 ∷ []

responses_in_order_example :
    (reads_out calls idle_memory ++ (after calls idle_memory).rresp ≡ reads_in calls idle_memory)
    × (writes_out calls idle_memory
          ++ (after calls idle_memory).bresp
          ++ in_flight (after calls idle_memory)
        ≡ writes_in calls idle_memory)
responses_in_order_example = responses_in_order calls idle_memory refl

store_burst_example :
    ((after (address ∷ beat 7 ∷ beat 8 ∷ []) idle_memory).bytes
      ≡ stored 4096 8 (2 ^ min 3 3) (beat 7 ∷ beat 8 ∷ []) 16 (λ a. none))
    × ((after (address ∷ beat 7 ∷ beat 8 ∷ []) idle_memory).store_inflight ≡ ltb 2 (1 + 1))
store_burst_example =
    store_burst address (beat 7 ∷ beat 8 ∷ []) idle_memory refl refl (omega arith) refl refl
      (omega arith)

-- `sd x2, -8(x1)`
detect_tohost_store-sees_example :
    (sd_address (0 ∷ 0x80000088 ∷ 1 ∷ []) 0xFE20BC23
      ≡ u64 (
          store_address (0 ∷ 0x80000088 ∷ 1 ∷ []) 0xFE20BC23
          + (if ltb (extract_imm_s 0xFE20BC23) (2 ^ 31) then 0 else 2 ^ 32)))
    × (detect_tohost_store
          (store_address (0 ∷ 0x80000088 ∷ 1 ∷ []) 0xFE20BC23)
          (0 ∷ 0x80000088 ∷ 1 ∷ [])
          0xFE20BC23
        ≡ (is_sd 0xFE20BC23
            && (ltb (extract_imm_s 0xFE20BC23) (2 ^ 31)
                && sd_value (0 ∷ 0x80000088 ∷ 1 ∷ []) 0xFE20BC23 != 0)))
detect_tohost_store-sees_example =
    detect_tohost_store-sees (0 ∷ 0x80000088 ∷ 1 ∷ []) 0xFE20BC23 (omega arith)

abbrev no_signals : Signals
no_signals = record {
  rob_io_enq_valids_0 = false;
  rob_io_enq_uops_0_rob_idx = 0;
  rob_io_enq_uops_0_pdst = 0;
  rob_io_enq_uops_0_stale_pdst = 0;
  ll_wbarb_io_out_valid = false;
  ll_wbarb_io_out_bits_uop_rob_idx = 0;
  ll_wbarb_io_out_bits_uop_pdst = 0;
  ll_wbarb_io_out_bits_data = 0;
  brinfos_0_valid = false;
  brinfos_0_uop_ftq_idx = 0;
  brinfos_0_uop_pc_lob = 0;
  brinfos_0_uop_rob_idx = 0;
  brinfos_0_taken = false;
  brinfos_0_mispredict = false;
  brinfos_0_uop_br_tag = 0;
  brinfos_0_uop_br_mask = 0;
  brinfos_0_cfi_type = 0;
  rob_io_flush_valid = false;
  io_ifu_redirect_pc_reg = 0;
  rob_io_commit_valids_0 = true;
  rob_io_commit_uops_0_ftq_idx = 0;
  rob_io_commit_uops_0_pc_lob = 0;
  rob_io_commit_uops_0_pdst = 3;
  rob_io_commit_uops_0_stale_pdst = 0;
  rob_io_commit_uops_0_ldst_val = true;
  rob_io_commit_uops_0_ldst = 1;
  rob_io_commit_arch_valids_0 = true;
  rob_io_com_xcpt_valid = false;
  regfile = replicate 52 9;
  pcs = replicate 16 0x80000000;
}

-- A model that counts its evaluations, commits in every cycle and finishes after 240 of them.
abbrev counting : Harness ℕ
counting = record {
  eval = λ i n m. (n + 1, m);
  set_ipi_0 = λ n. n;
  signals = λ n. no_signals;
  got_finish = λ n. ltb 240 n;
}

abbrev options : Options
options = record {
  tohost_addr = 0x80000080;
  max_cycles = 300;
  wake_hart0 = false;
  disable_assert_stops = false;
}

main_ends_example :
    (goes_on counting options (end_top counting options 0) (end_globals counting options 0) ≡ false)
    × (((main counting options 0).0 == 0) ≡ (
        if observed_tohost (end_globals counting options 0)
        then observed_tohost_value (end_globals counting options 0) == 1
        else counting.got_finish (end_top counting options 0)))
    × ((k : ℕ) × IsTraced k (main counting options 0).1)
main_ends_example = main_ends counting options 0 (omega arith)

-- A line with a comment, an empty one and one with an odd number of digits.
abbrev image : List (List ℕ)
image = codes "  0050AF93 # li" ∷ codes "" ∷ codes "123" ∷ []

load_hex-accepts_example : is_some (load_hex idle_memory 0x80000000 image) ≡ are_lines image
load_hex-accepts_example = load_hex-accepts idle_memory 0x80000000 image
