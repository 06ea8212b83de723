-- ===== src/Tests/Decode.antt =====
-- The immediates of one instruction word.
use boom.Base.{◌*◌, ◌/◌, ◌^◌, ◌≡◌, arith}
use boom.Decode.Fields.{extract_imm_i, extract_imm_s, extract_imm_b, extract_imm_u, extract_imm_j}
use boom.Decode.Immediates.{signed_pattern, format_i, format_s, format_b, format_j, immediates_lem}

-- `sd x2, -8(x1)`
immediates_lem_example :
    (extract_imm_i 0xFE20BC23 ≡ signed_pattern 12 (format_i 0xFE20BC23))
    × (extract_imm_s 0xFE20BC23 ≡ signed_pattern 12 (format_s 0xFE20BC23))
    × (extract_imm_b 0xFE20BC23 ≡ signed_pattern 13 (format_b 0xFE20BC23))
    × (extract_imm_u 0xFE20BC23 ≡ 0xFE20BC23 / 2 ^ 12 * 2 ^ 12)
    × (extract_imm_j 0xFE20BC23 ≡ signed_pattern 21 (format_j 0xFE20BC23))
immediates_lem_example = immediates_lem 0xFE20BC23 (omega arith)
