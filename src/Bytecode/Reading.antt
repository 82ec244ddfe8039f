-- ===== src/Bytecode/Reading.antt =====
-- The alignment of switch operands in src/scan.rs.
use inspequte.Base.{ℕ, ◌+◌, ◌%◌, ◌<◌, ◌≡◌, arith}
use inspequte.Bytecode.{padding}

-- The first padded byte of a switch is at a multiple of 4, and there are at most 3 padding bytes.
pub padding_lem : (offset : ℕ) → ((offset + 1 + padding offset) % 4 ≡ 0) × (padding offset < 4)
unfolding padding
padding_lem offset = omega arith
