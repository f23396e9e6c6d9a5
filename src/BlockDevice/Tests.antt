-- ===== src/BlockDevice/Tests.antt =====
-- A view of the blocks 10 to 29 of a device of 100 blocks.
use armonios.Prelude.{ℕ, ◌≡◌, refl, List, [], some, if◌then◌else◌, ◌==◌}
use armonios.BlockDevice.{Device, block_device_init, block_device_view_init, view_device}

-- the bytes of each block
abbrev Media : Type 0
Media = ℕ → List ℕ

-- a device that moves one block at a time
abbrev disk : Device Media
disk = record {
  read = some (λ w first n. (0, w first, w));
  write = some (λ w first n bytes. (0, λ b. if b == first then bytes else w b));
  flush = some (λ w. (0, w));
  block_count = 100;
  block_size = 512;
  flags = 0;
}

abbrev view : Device Media
view = view_device disk 10 20 0

abbrev blank : Media
blank b = []

view_opens : block_device_view_init (some disk) 10 20 0 ≡ some view
unfolding block_device_view_init block_device_init
view_opens = refl
