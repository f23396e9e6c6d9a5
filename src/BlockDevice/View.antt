-- ===== src/BlockDevice/View.antt =====
-- Views of drivers/storage/block_device.c: which blocks of the parent device they reach.
use armonios.Prelude.{
  ℕ, ◌+◌, ◌-◌, ◌≤◌, ◌<◌, ◌≡◌, refl, ap, ◌∙◌, true, false, not, ◌&&◌, ◌||◌, List, [], some, arith,
  if◌then◌else◌, ltb, leb, ◌==◌, u64_max, Bool-cases, inl, inr,
}
use armonios.BlockDevice.Flags.{is_read_only}
use armonios.BlockDevice.{
  Device, failed, is_null, block_device_range_valid, block_device_init, block_device_read,
  block_device_write, block_device_view_read, block_device_view_write, block_device_view_init,
  view_refused, view_device, call_read, call_write,
}

module _ {W : Type 0} where
  -- A device that block_device_init accepts.
  pub record IsDevice (d : Device W) : Type 0 where
    pub reads : is_null d.read ≡ false
    pub blocks : (d.block_count == 0) ≡ false
    pub sized : (d.block_size == 0) ≡ false

  range_valid_lem :
      (d : Device W) (first n : ℕ)
      → IsDevice d
      → 0 < n
      → block_device_range_valid (some d) first n ≡ leb (first + n) d.block_count
  unfolding block_device_range_valid
  range_valid_lem d first n v some_blocks = rw (v.reads, v.blocks, v.sized) (ground arith)

  -- A read of at least one block into a buffer is passed to the driver if all its blocks are on the
  -- device, and otherwise fails with no effect.
  pub block_device_read_lem :
      (d : Device W) (first n : ℕ) (w : W)
      → IsDevice d
      → 0 < n
      → block_device_read (some d) first n true w
        ≡ (if leb (first + n) d.block_count then call_read d.read w first n else (failed, [], w))
  unfolding block_device_read
  block_device_read_lem d first n w v some_blocks =
      let nonzero : (n == 0) ≡ false = ground arith in
      let valid = range_valid_lem d first n v some_blocks in
      elim (Bool-cases (leb (first + n) d.block_count)) [
        | inl inside ↦ rw (valid, nonzero, inside) refl
        | inr outside ↦ rw (valid, nonzero, outside) refl
      ]

  -- A write of at least one block is passed to the driver if all its blocks are on the device, which
  -- may be written, and otherwise fails with no effect.
  pub block_device_write_lem :
      (d : Device W) (first n : ℕ) (bytes : List ℕ) (w : W)
      → IsDevice d
      → 0 < n
      → block_device_write (some d) first n (some bytes) w ≡ (
          if leb (first + n) d.block_count && not (is_read_only d.flags || is_null d.write)
          then call_write d.write w first n bytes
          else (failed, w))
  unfolding block_device_write
  block_device_write_lem d first n bytes w v some_blocks =
      let nonzero : (n == 0) ≡ false = ground arith in
      let valid = range_valid_lem d first n v some_blocks in
      elim (Bool-cases (leb (first + n) d.block_count)) [
        | inl inside ↦ elim (Bool-cases (is_read_only d.flags || is_null d.write)) [
          | inl refused ↦ rw (valid, nonzero, inside, refused) refl
          | inr writable ↦ rw (valid, nonzero, inside, writable) refl
        ]
        | inr outside ↦ rw (valid, nonzero, outside) refl
      ]

  init_some : (d v : Device W) → block_device_init d ≡ some v → v ≡ d
  unfolding block_device_init
  init_some d v h = ground arith

  pub view_some :
      (parent v : Device W) (base count flags : ℕ)
      → block_device_view_init (some parent) base count flags ≡ some v
      → (view_refused parent base count flags ≡ false) × (v ≡ view_device parent base count flags)
  unfolding block_device_view_init
  view_some parent v base count flags h = elim (Bool-cases (view_refused parent base count flags)) [
    | inl bad ↦ absurd (ground arith)
    | inr good ↦ (good, init_some (view_device parent base count flags) v (ground arith))
  ]

  -- what the guard of block_device_view_init leaves
  view_accepted :
      (parent : Device W) (base count flags : ℕ)
      → view_refused parent base count flags ≡ false
      → IsDevice parent
        × IsDevice (view_device parent base count flags)
        × (base + count ≤ parent.block_count)
        × (is_read_only parent.flags ≡ false → is_null parent.write ≡ false)
  view_accepted parent base count flags good =
      let reads : is_null parent.read ≡ false = ground arith in
      let blocks : (parent.block_count == 0) ≡ false = ground arith in
      let sized : (parent.block_size == 0) ≡ false = ground arith in
      (
        record { reads = reads; blocks = blocks; sized = sized },
        record { reads = refl; blocks = ground arith; sized = sized },
        ground arith,
        λ writable. ground arith,
      )

  view_read_lem :
      (parent : Device W) (base count flags first n : ℕ) (w : W)
      → view_refused parent base count flags ≡ false
      → parent.block_count ≤ u64_max
      → 0 < n
      → block_device_read (some (view_device parent base count flags)) first n true w ≡ (
          if leb (first + n) count
          then call_read parent.read w (base + first) n
          else (failed, [], w))
  unfolding block_device_view_read
  view_read_lem parent base count flags first n w good big some_blocks =
      let a = view_accepted parent base count flags good in
      let here =
        block_device_read_lem (view_device parent base count flags) first n w a.1 some_blocks in
      let there = block_device_read_lem parent (base + first) n w a.0 some_blocks in
      here ∙ elim (Bool-cases (leb (first + n) count)) [
        | inl inside ↦
            let no_wrap : ltb (u64_max - base) first ≡ false = ground arith in
            let on_parent : leb (base + first + n) parent.block_count ≡ true = ground arith in
            rw (inside, no_wrap) (there ∙ rw on_parent refl)
        | inr outside ↦ rw outside refl
      ]

  view_write_lem :
      (parent : Device W) (base count flags first n : ℕ) (bytes : List ℕ) (w : W)
      → view_refused parent base count flags ≡ false
      → parent.block_count ≤ u64_max
      → 0 < n
      → block_device_write (some (view_device parent base count flags)) first n (some bytes) w ≡ (
          if leb (first + n) count && not (is_read_only parent.flags || is_read_only flags)
          then call_write parent.write w (base + first) n bytes
          else (failed, w))
  unfolding block_device_view_write
  view_write_lem parent base count flags first n bytes w good big some_blocks =
      let a = view_accepted parent base count flags good in
      let here =
        block_device_write_lem (view_device parent base count flags) first n bytes w a.1
          some_blocks in
      let there = block_device_write_lem parent (base + first) n bytes w a.0 some_blocks in
      here ∙ elim (Bool-cases (is_read_only parent.flags || is_read_only flags)) [
        | inl protected ↦ rw protected (ground arith)
        | inr writable ↦ elim (Bool-cases (leb (first + n) count)) [
          | inl inside ↦
              let no_wrap : ltb (u64_max - base) first ≡ false = ground arith in
              let on_parent : leb (base + first + n) parent.block_count ≡ true = ground arith in
              let own : is_read_only parent.flags ≡ false = ground arith in
              let can : is_null parent.write ≡ false = a.3 own in
              rw (writable, inside, no_wrap) (there ∙ rw (on_parent, own, can) refl)
          | inr outside ↦ rw (writable, outside) refl
        ]
      ]

  -- A view that block_device_view_init accepts lies in its parent. A read of at least one of its
  -- blocks reads the parent's blocks shifted by the base if all of them are in the view, and
  -- otherwise fails with no effect.
  pub block_device_view_init_read :
      (parent v : Device W) (base count flags first n : ℕ) (w : W)
      → parent.block_count ≤ u64_max
      → block_device_view_init (some parent) base count flags ≡ some v
      → 0 < n
      → (base + count ≤ parent.block_count)
        × (block_device_read (some v) first n true w ≡ (
            if leb (first + n) count
            then call_read parent.read w (base + first) n
            else (failed, [], w)))
  block_device_view_init_read parent v base count flags first n w big h some_blocks =
      let o = view_some parent v base count flags h in
      (
        (view_accepted parent base count flags o.0).2,
        ap (λ d. block_device_read (some d) first n true w) o.1
            ∙ view_read_lem parent base count flags first n w o.0 big some_blocks,
      )

  -- A write of at least one block through a view that block_device_view_init accepts writes the
  -- parent's blocks shifted by the base, if all of them are in the view and neither the parent nor
  -- the view is read-only. Otherwise it fails with no effect.
  pub block_device_view_init_write :
      (parent v : Device W) (base count flags first n : ℕ) (bytes : List ℕ) (w : W)
      → parent.block_count ≤ u64_max
      → block_device_view_init (some parent) base count flags ≡ some v
      → 0 < n
      → block_device_write (some v) first n (some bytes) w ≡ (
          if leb (first + n) count && not (is_read_only parent.flags || is_read_only flags)
          then call_write parent.write w (base + first) n bytes
          else (failed, w))
  block_device_view_init_write parent v base count flags first n bytes w big h some_blocks =
      let o = view_some parent v base count flags h in
      ap (λ d. block_device_write (some d) first n (some bytes) w) o.1
      ∙ view_write_lem parent base count flags first n bytes w o.0 big some_blocks
