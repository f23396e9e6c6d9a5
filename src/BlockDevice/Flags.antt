-- ===== src/BlockDevice/Flags.antt =====
-- BLOCK_DEVICE_FLAG_READ_ONLY of drivers/storage/block_device.h, the lowest bit of the flags.
use armonios.Prelude.{ℕ, ◌%◌, Bool, ◌||◌, ◌==◌, ltb, if◌then◌else◌}

abbrev pub flag_read_only : ℕ
flag_read_only = 1

-- (flags & BLOCK_DEVICE_FLAG_READ_ONLY) != 0
abbrev pub is_read_only : ℕ → Bool
is_read_only flags = flags % 2 == 1

-- (flags & ~BLOCK_DEVICE_FLAG_READ_ONLY) != 0
abbrev pub has_other_flags : ℕ → Bool
has_other_flags flags = ltb flag_read_only flags

-- a | b, of flags that have no other bit
abbrev pub join_flags : ℕ → ℕ → ℕ
join_flags a b = if is_read_only a || is_read_only b then flag_read_only else 0
