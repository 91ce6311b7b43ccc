-- ===== src/Oracle.antt =====
-- oracle/oracle.go: timestamps, the milliseconds of a physical clock above 18 bits of a counter. An
-- `int64` is its two's-complement bit pattern.
use client_go.Base.{ℕ, ◌+◌, ◌*◌, ◌/◌, ◌%◌, ◌<◌, ◌≡◌, IsU64, arith}

abbrev pub physical_shift_bits : ℕ
physical_shift_bits = 18

-- `1 << physicalShiftBits`; `logicalBits` is one less.
abbrev shift_factor : ℕ
shift_factor = 0x4_0000

abbrev two_64 : ℕ
two_64 = 0x1_0000_0000_0000_0000

unfoldable pub compose_ts : ℕ → ℕ → ℕ
compose_ts physical logical = (physical * shift_factor % two_64 + logical) % two_64

unfoldable pub extract_physical : ℕ → ℕ
extract_physical ts = ts / shift_factor

-- `ts & logicalBits`.
unfoldable pub extract_logical : ℕ → ℕ
extract_logical ts = ts % shift_factor

-- A physical part below 2 ^ 46 and a logical part below 2 ^ 18 are read back from the timestamp
-- that they make up, and every 64-bit timestamp is made up of its two parts.
compose_ts_parts :
    (physical logical ts : ℕ)
    → physical < 0x4000_0000_0000
    → logical < 0x4_0000
    → IsU64 ts
    → (extract_physical (compose_ts physical logical) ≡ physical)
      × (extract_logical (compose_ts physical logical) ≡ logical)
      × (compose_ts (extract_physical ts) (extract_logical ts) ≡ ts)
unfolding compose_ts extract_physical extract_logical
compose_ts_parts physical logical ts hp hl ht = (omega arith, omega arith, omega arith)
