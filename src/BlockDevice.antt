-- ===== src/BlockDevice.antt =====
-- drivers/storage/block_device.c: checked access to a block device, and views of a part of one.
-- `W` is the state of the media. A driver's functions, with their contexts, are parameters in the
-- fields of `Device`: a read gives its status, the bytes it puts into the buffer, and the media. An
-- `int` status is its 32-bit pattern. A null pointer is `none`, or false for a buffer.
pub mod View
mod Tests
use armonios.Prelude.{
  ℕ, ◌+◌, ◌-◌, Bool, true, false, not, ◌&&◌, ◌||◌, List, [], Option, none, some, if◌then◌else◌, ltb,
  leb, ◌==◌, u64_max, u32_max,
}
use armonios.BlockDevice.Flags.{flag_read_only, is_read_only, has_other_flags, join_flags}
pub mod Flags

-- -1
abbrev pub failed : ℕ
failed = u32_max

-- `block_device_t`
pub record Device (W : Type 0) : Type 0 where
  pub read : Option (W → ℕ → ℕ → ℕ × List ℕ × W)
  pub write : Option (W → ℕ → ℕ → List ℕ → ℕ × W)
  pub flush : Option (W → ℕ × W)
  pub block_count : ℕ
  pub block_size : ℕ
  pub flags : ℕ

abbrev pub is_null {ℓ} : {A : Type ℓ} → Option A → Bool
is_null none = true
is_null (some a) = false

module _ {W : Type 0} where
  unfoldable pub block_device_range_valid : Option (Device W) → ℕ → ℕ → Bool
  block_device_range_valid none first count = false
  block_device_range_valid (some d) first count =
      if is_null d.read || (d.block_count == 0 || d.block_size == 0)
      then false
      else if count == 0
      then leb first d.block_count
      else ltb first d.block_count && leb count (d.block_count - first)

  -- The device after a successful call.
  unfoldable pub block_device_init : Device W → Option (Device W)
  block_device_init d =
      if is_null d.read
        || (d.block_count == 0
            || (d.block_size == 0
                || (has_other_flags d.flags || (not (is_read_only d.flags) && is_null d.write))))
      then none
      else some d

  abbrev pub call_read : Option (W → ℕ → ℕ → ℕ × List ℕ × W) → W → ℕ → ℕ → ℕ × List ℕ × W
  call_read none w first count = (failed, [], w)
  call_read (some f) w first count = f w first count

  abbrev pub call_write : Option (W → ℕ → ℕ → List ℕ → ℕ × W) → W → ℕ → ℕ → List ℕ → ℕ × W
  call_write none w first count bytes = (failed, w)
  call_write (some f) w first count bytes = f w first count bytes

  abbrev pub read_of : Option (Device W) → Option (W → ℕ → ℕ → ℕ × List ℕ × W)
  read_of none = none
  read_of (some d) = d.read

  unfoldable pub block_device_read : Option (Device W) → ℕ → ℕ → Bool → W → ℕ × List ℕ × W
  block_device_read d first count has_buffer w =
      if not (block_device_range_valid d first count) || (not (count == 0) && not has_buffer)
      then (failed, [], w)
      else if count == 0
      then (0, [], w)
      else call_read (read_of d) w first count

  unfoldable pub block_device_write : Option (Device W) → ℕ → ℕ → Option (List ℕ) → W → ℕ × W
  block_device_write none first count buffer w = (failed, w)
  block_device_write (some d) first count buffer w =
      if not (block_device_range_valid (some d) first count)
        || ((not (count == 0) && is_null buffer) || (is_read_only d.flags || is_null d.write))
      then (failed, w)
      else if count == 0
      then (0, w)
      else elim buffer [ none ↦ (failed, w) | some bytes ↦ call_write d.write w first count bytes ]

  unfoldable pub block_device_flush : Option (Device W) → W → ℕ × W
  block_device_flush none w = (failed, w)
  block_device_flush (some d) w =
      if is_null d.read || (d.block_count == 0 || d.block_size == 0)
      then (failed, w)
      else elim d.flush [ none ↦ (0, w) | some f ↦ f w ]

  unfoldable pub block_device_is_read_only : Option (Device W) → Bool
  block_device_is_read_only none = true
  block_device_is_read_only (some d) = is_read_only d.flags

  unfoldable pub block_device_view_read : Device W → ℕ → W → ℕ → ℕ → ℕ × List ℕ × W
  block_device_view_read parent base w first count =
      if ltb (u64_max - base) first
      then (failed, [], w)
      else block_device_read (some parent) (base + first) count true w

  unfoldable pub block_device_view_write : Device W → ℕ → W → ℕ → ℕ → List ℕ → ℕ × W
  block_device_view_write parent base w first count bytes =
      if ltb (u64_max - base) first
      then (failed, w)
      else block_device_write (some parent) (base + first) count (some bytes) w

  unfoldable pub block_device_view_flush : Device W → W → ℕ × W
  block_device_view_flush parent w = block_device_flush (some parent) w

  -- the guard of block_device_view_init behind its null tests
  abbrev pub view_refused : Device W → ℕ → ℕ → ℕ → Bool
  view_refused parent base count flags =
      is_null parent.read
      || (parent.block_count == 0
          || (parent.block_size == 0
              || (has_other_flags parent.flags
                  || ((not (is_read_only parent.flags) && is_null parent.write)
                      || (has_other_flags flags
                          || (count == 0
                              || (leb parent.block_count base
                                  || ltb (parent.block_count - base) count)))))))

  abbrev pub view_device : Device W → ℕ → ℕ → ℕ → Device W
  view_device parent base count flags =
      let child_flags = join_flags parent.flags flags in
      record {
        read = some (block_device_view_read parent base);
        write =
            if is_read_only child_flags then none else some (block_device_view_write parent base);
        flush = if is_null parent.flush then none else some (block_device_view_flush parent);
        block_count = count;
        block_size = parent.block_size;
        flags = child_flags;
      }

  -- The device of the view after a successful call. The view stays at its address, so the functions
  -- that take it as their context keep finding this parent and this base, and neither is null.
  unfoldable pub block_device_view_init : Option (Device W) → ℕ → ℕ → ℕ → Option (Device W)
  block_device_view_init none base count flags = none
  block_device_view_init (some parent) base count flags =
      if view_refused parent base count flags
      then none
      else block_device_init (view_device parent base count flags)
