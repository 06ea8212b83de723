-- ===== src/Tests/Bench.antt =====
-- The testbenches at concrete inputs.
use boom.Base.{
  ℕ, ◌+◌, ◌-◌, ◌*◌, ◌/◌, ◌%◌, ◌^◌, ◌≡◌, ◌↔◌, refl, arith, true, false, not, ◌&&◌, ◌||◌, ◌==◌, ltb,
  leb, if◌then◌else◌, List, [], ◌∷◌, ◌++◌, get_or, get_or-replicate, replicate,
}
use boom.Base.Text.{codes, same_text, after_first}
use boom.Config.{reset_vector}
use boom.Decode.Fields.{opcode, rd, extract_imm_i, extract_imm_s, extract_imm_b, extract_imm_j}
use boom.Decode.Immediates.{signed_pattern}
use boom.Execute.{mask_for_size}
use boom.Lsu.Value.{load_value}
use boom.Tb.Encode.{make_itype, make_rtype, make_jtype, make_stype, make_btype, make_ecall}
use boom.Tb.Encode.RoundTrip.{Fields, encoders_lem}
use boom.Tb.Memory.{IMem, clear_imem, add, clear_dmem, write_bytes, read64}
use boom.Tb.Memory.Bytes.{AreBytes}
use boom.Tb.Memory.RoundTrip.{byte_of, read64-write_bytes}
use boom.Tb.Json.{compare_files, load_events, parse_event, value, value_behind, signature}
use boom.Tb.Json.Agreement.{signatures, compare_files-accepts}
use boom.Tb.Bench.{run}
use boom.Tb.Prefix.{ProgramSpec, IdealMem, append_word}
use boom.Tb.Prefix.Program.{target_commits, run_program}
use boom.Tb.Prefix.Numbering.{IsLog, commit_rows, run_program-IsLog}
use boom.Tb.Bench.Counting.{IsCollected, run-IsCollected}

abbrev zeros : List ℕ
zeros = replicate 256 0

zeros-AreBytes : AreBytes zeros
unfolding AreBytes
zeros-AreBytes j = omega (arith, get_or-replicate {A = ℕ} 256 j 0)

-- `sh` of 0xFFFE at 254, the last two bytes of the memory, read back by `lh`.
read64-write_bytes_example :
    (load_value (read64 (write_bytes zeros 254 0xFFFE (mask_for_size 1)) 254) 254 1 true
      ≡ load_value 0xFFFE 0 1 true)
    × (get_or (write_bytes zeros 254 0xFFFE (mask_for_size 1)) 255 0 ≡ (
        if leb 254 255 && ltb 255 (254 + 2 ^ 1)
        then byte_of 0xFFFE (255 - 254)
        else get_or zeros 255 0))
read64-write_bytes_example =
    read64-write_bytes zeros 254 0xFFFE 1 zeros-AreBytes refl (omega arith) (omega arith) true 255
      (omega arith)

-- The immediate -8, with registers 3, 2 and 1.
encoders_lem_example :
    Fields (make_rtype 0x20 3 2 5 1 0x33) 0x20 3 2 5 1 0x33
    × (Fields
          (make_itype 0xFFFFFFF8 2 5 1 0x33)
          (0xFFFFFFF8 / 2 ^ 5 % 2 ^ 7)
          (0xFFFFFFF8 % 2 ^ 5)
          2
          5
          1
          0x33
        × (extract_imm_i (make_itype 0xFFFFFFF8 2 5 1 0x33)
            ≡ signed_pattern 12 (0xFFFFFFF8 % 2 ^ 12)))
    × (Fields
          (make_stype 0xFFFFFFF8 3 2 5)
          (0xFFFFFFF8 / 2 ^ 5 % 2 ^ 7)
          3
          2
          5
          (0xFFFFFFF8 % 2 ^ 5)
          0x23
        × (extract_imm_s (make_stype 0xFFFFFFF8 3 2 5) ≡ signed_pattern 12 (0xFFFFFFF8 % 2 ^ 12)))
    × (Fields
          (make_btype 0xFFFFFFF8 3 2 5)
          (0xFFFFFFF8 / 2 ^ 12 % 2 * 2 ^ 6 + 0xFFFFFFF8 / 2 ^ 5 % 2 ^ 6)
          3
          2
          5
          (0xFFFFFFF8 / 2 % 2 ^ 4 * 2 + 0xFFFFFFF8 / 2 ^ 11 % 2)
          0x63
        × (extract_imm_b (make_btype 0xFFFFFFF8 3 2 5)
            ≡ signed_pattern 13 (0xFFFFFFF8 / 2 % 2 ^ 12 * 2)))
    × ((opcode (make_jtype 0xFFFFFFF8 1 0x33) ≡ 0x33)
        × (rd (make_jtype 0xFFFFFFF8 1 0x33) ≡ 1)
        × (extract_imm_j (make_jtype 0xFFFFFFF8 1 0x33)
            ≡ signed_pattern 21 (0xFFFFFFF8 / 2 % 2 ^ 20 * 2)))
encoders_lem_example =
    encoders_lem 0xFFFFFFF8 0x20 3 2 5 1 0x33 (omega arith) (omega arith) (omega arith)
      (omega arith) (omega arith) (omega arith)

-- `"key":"v"`, with what stands behind it.
abbrev field : List ℕ → List ℕ → List ℕ → List ℕ
field key v rest = b'"' ∷ key ++ b'"' ∷ b':' ∷ b'"' ∷ v ++ b'"' ∷ rest

-- The record of a commit that wrote a value.
abbrev commit_line : List ℕ → List ℕ
commit_line v =
    b'{'
    ∷ field (codes "event") (codes "commit") (
        b','
        ∷ field (codes "rd_valid") (codes "true") (b',' ∷ field (codes "rd_value") v (codes "}")))

abbrev reference : List (List ℕ)
reference = commit_line (codes "0x5") ∷ []

abbrev other_value : List (List ℕ)
other_value = commit_line (codes "0x6") ∷ []

compare_files-accepts_example : (compare_files reference other_value true false ≡ 0) ↔ (
    signatures false (load_events reference true) ≡ signatures false (load_events other_value true))
compare_files-accepts_example = compare_files-accepts reference other_value true false

-- Another value of the register is a difference.
values_differ : compare_files reference other_value true false ≡ 1
unfolding compare_files load_events same_text parse_event value value_behind after_first signature
values_differ = refl

-- `addi x1, x0, 5` and `ecall`.
abbrev program : IMem
program = add (add (clear_imem reset_vector) (make_itype 5 0 0 1 0x13)) make_ecall

run-IsCollected_example : IsCollected 50 (run program (clear_dmem 64) 50 false)
run-IsCollected_example = run-IsCollected program (clear_dmem 64) 50 false (omega arith)

-- `addi x1, x0, 5`, with one commit record asked for.
abbrev one_commit : ProgramSpec
one_commit = record { prefix_commits = 1; unsupported_pc = 0x80000004; unsupported_inst = 0 }

abbrev one_word : IdealMem
one_word = append_word (record { words = []; bytes = [] }) 0x00500093

run_program-IsLog_example :
    IsLog 1 (run_program false one_commit one_word).1
    × ((run_program false one_commit one_word).0 ≡ (
        commit_rows (run_program false one_commit one_word).1.rows
          == target_commits false one_commit
        && (not false || (run_program false one_commit one_word).1.saw_tohost)))
run_program-IsLog_example = run_program-IsLog false one_commit one_word
