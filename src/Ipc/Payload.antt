-- ===== src/Ipc/Payload.antt =====
-- The payload copies of kernel/ipc.c.
use armonios.Prelude.{
  get_or-set, ℕ, zero, suc, ◌+◌, ◌-◌, ◌≤◌, ◌<◌, ◌≡◌, refl, ◌∙◌, List, [], arith, if◌then◌else◌, ltb,
  leb, ◌&&◌, length, get_or, set, length-set,
}
use armonios.Ipc.{copy_bytes, zero_bytes, ipc_copy_payload, ipc_zero_payload, max_message_size}

length-copy_bytes : (n at : ℕ) (dest src : List ℕ) → length (copy_bytes n at dest src) ≡ length dest
unfolding copy_bytes
length-copy_bytes zero at dest src = refl
length-copy_bytes (suc n) at dest src =
    length-copy_bytes n (at + 1) (set dest at (get_or src at 0)) src
    ∙ length-set dest at (get_or src at 0)

length-zero_bytes : (n at : ℕ) (dest : List ℕ) → length (zero_bytes n at dest) ≡ length dest
unfolding zero_bytes
length-zero_bytes zero at dest = refl
length-zero_bytes (suc n) at dest =
    length-zero_bytes n (at + 1) (set dest at 0) ∙ length-set dest at 0

get_or-copy_bytes :
    (n at k : ℕ) (dest src : List ℕ)
    → at + n ≤ length dest
    → get_or (copy_bytes n at dest src) k 0
      ≡ (if leb at k && ltb k (at + n) then get_or src k 0 else get_or dest k 0)
unfolding copy_bytes
get_or-copy_bytes zero at k dest src h = ground arith
get_or-copy_bytes (suc n) at k dest src h =
    let l = length-set dest at (get_or src at 0) in
    let r = get_or-copy_bytes n (at + 1) k (set dest at (get_or src at 0)) src (omega arith) in
    let g = get_or-set dest at k (get_or src at 0) 0 (omega arith) in r ∙ ground arith

get_or-zero_bytes :
    (n at k : ℕ) (dest : List ℕ)
    → at + n ≤ length dest
    → get_or (zero_bytes n at dest) k 0
      ≡ (if leb at k && ltb k (at + n) then 0 else get_or dest k 0)
unfolding zero_bytes
get_or-zero_bytes zero at k dest h = ground arith
get_or-zero_bytes (suc n) at k dest h =
    let l = length-set dest at 0 in
    let r = get_or-zero_bytes n (at + 1) k (set dest at 0) (omega arith) in
    let g = get_or-set dest at k 0 0 (omega arith) in r ∙ ground arith

-- A payload of 16 bytes, the first `size` of them those of `src` and the others zero.
pub record Holds (payload src : List ℕ) (size : ℕ) : Type 0 where
  pub bytes : length payload ≡ max_message_size
  pub each :
      (k : ℕ)
      → k < max_message_size
      → get_or payload k 0 ≡ (if ltb k size then get_or src k 0 else 0)

-- Clearing a payload of 16 bytes makes each byte zero.
pub ipc_zero_payload-Holds :
    (dest : List ℕ) → length dest ≡ max_message_size → Holds (ipc_zero_payload dest) [] 0
unfolding ipc_zero_payload
ipc_zero_payload-Holds dest len = record {
  bytes = length-zero_bytes max_message_size 0 dest ∙ len;
  each = λ k h. get_or-zero_bytes max_message_size 0 k dest (omega arith) ∙ ground arith;
}

-- Copying at most 16 bytes into a payload keeps its length of 16; its first bytes are those copied,
-- and the others are zero, whatever the payload held.
pub ipc_copy_payload_lem :
    (dest src : List ℕ) (size k : ℕ)
    → length dest ≡ max_message_size
    → size ≤ max_message_size
    → k < max_message_size
    → (length (ipc_copy_payload dest src size) ≡ max_message_size)
      × (get_or (ipc_copy_payload dest src size) k 0 ≡ (if ltb k size then get_or src k 0 else 0))
unfolding ipc_copy_payload
ipc_copy_payload_lem dest src size k len h inside =
    let l = length-copy_bytes size 0 dest src in
    let z =
      get_or-zero_bytes (max_message_size - size) size k (copy_bytes size 0 dest src)
        (omega arith) in
    let c = get_or-copy_bytes size 0 k dest src (omega arith) in
    (
      length-zero_bytes (max_message_size - size) size (copy_bytes size 0 dest src) ∙ l ∙ len,
      ground arith,
    )

pub ipc_copy_payload-Holds :
    (dest src : List ℕ) (size : ℕ)
    → length dest ≡ max_message_size
    → size ≤ max_message_size
    → Holds (ipc_copy_payload dest src size) src size
ipc_copy_payload-Holds dest src size len h = record {
  bytes = (ipc_copy_payload_lem dest src size 0 len h (omega arith)).0;
  each = λ k inside. (ipc_copy_payload_lem dest src size k len h inside).1;
}
