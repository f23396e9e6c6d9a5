-- ===== src/Ipc.antt =====
-- kernel/ipc.c: the message queue between processes.
-- `Ipc` holds the static variables. A pointer to a slot is its index.
pub mod Payload
pub mod Oldest
pub mod Send
pub mod Receive
mod Tests
use armonios.Prelude.{
  ℕ, zero, suc, ◌+◌, ◌-◌, Bool, true, false, not, ◌&&◌, ◌||◌, List, [], ◌∷◌, Option, none, some,
  if◌then◌else◌, ltb, ◌==◌, get_or, set, replicate, add64,
}

abbrev pub max_messages : ℕ
max_messages = 8

abbrev pub max_message_size : ℕ
max_message_size = 16

-- `ipc_message_t`
pub record Message : Type 0 where
  pub sender_pid : ℕ
  pub target_pid : ℕ
  pub size : ℕ
  pub payload : List ℕ

-- `ipc_slot_t`
pub record Slot : Type 0 where
  pub message : Message
  pub sequence : ℕ
  pub used : Bool

pub record Ipc : Type 0 where
  pub slots : List Slot
  pub next_sequence : ℕ

-- for (i = at; …; i++) dest[i] = src[i], with `n` rounds left
unfoldable pub copy_bytes : ℕ → ℕ → List ℕ → List ℕ → List ℕ
copy_bytes zero at dest src = dest
copy_bytes (suc n) at dest src = copy_bytes n (at + 1) (set dest at (get_or src at 0)) src

-- for (i = at; …; i++) dest[i] = 0, with `n` rounds left
unfoldable pub zero_bytes : ℕ → ℕ → List ℕ → List ℕ
zero_bytes zero at dest = dest
zero_bytes (suc n) at dest = zero_bytes n (at + 1) (set dest at 0)

unfoldable pub ipc_copy_payload : List ℕ → List ℕ → ℕ → List ℕ
ipc_copy_payload dest src size =
    zero_bytes (max_message_size - size) size (copy_bytes size 0 dest src)

unfoldable pub ipc_zero_payload : List ℕ → List ℕ
ipc_zero_payload dest = zero_bytes max_message_size 0 dest

unfoldable pub ipc_clear_slot : Slot → Slot
ipc_clear_slot s = record {
  message = record {
    sender_pid = 0;
    target_pid = 0;
    size = 0;
    payload = ipc_zero_payload s.message.payload;
  };
  sequence = 0;
  used = false;
}

abbrev pub no_message : Message
no_message = record { sender_pid = 0; target_pid = 0; size = 0; payload = [] }

abbrev pub no_slot : Slot
no_slot = record { message = no_message; sequence = 0; used = false }

-- The search for a free slot from index `i` on.
unfoldable pub find_free : List Slot → ℕ → Option ℕ
find_free [] i = none
find_free (s ∷ ss) i = let rest = find_free ss (i + 1) in if s.used then rest else some i

unfoldable pub ipc_find_free_slot : List Slot → Option ℕ
ipc_find_free_slot ss = find_free ss 0

-- a used slot that holds a message for `target`
abbrev pub is_for : ℕ → Slot → Bool
is_for target s = s.used && s.message.target_pid == target

-- The oldest of what was found before and one more slot that is for the target.
abbrev pub older : Option (ℕ × Slot) → ℕ → Slot → Option (ℕ × Slot)
older none i s = some (i, s)
older (some b) i s = if ltb s.sequence b.1.sequence then some (i, s) else some b

-- The loop of ipc_find_oldest_target_slot from index `i` on; a pointer is the index and what is there.
unfoldable pub find_oldest : List Slot → ℕ → ℕ → Option (ℕ × Slot) → Option (ℕ × Slot)
find_oldest [] target i oldest = oldest
find_oldest (s ∷ ss) target i oldest =
    find_oldest ss target (i + 1) (if is_for target s then older oldest i s else oldest)

unfoldable pub ipc_find_oldest_target_slot : List Slot → ℕ → Option (ℕ × Slot)
ipc_find_oldest_target_slot ss target = find_oldest ss target 0 none

-- what ipc_init does to each slot
abbrev pub clear_all : List Slot → List Slot
clear_all [] = []
clear_all (s ∷ ss) = ipc_clear_slot s ∷ clear_all ss

unfoldable pub ipc_init : Ipc → Ipc
ipc_init st = record { slots = clear_all st.slots; next_sequence = 1 }

-- the slot that ipc_send fills
unfoldable pub fill : Slot → ℕ → ℕ → List ℕ → ℕ → ℕ → Slot
fill s sender target bytes size sequence = record {
  message = record {
    sender_pid = sender;
    target_pid = target;
    size = size;
    payload = ipc_copy_payload s.message.payload bytes size;
  };
  sequence = sequence;
  used = true;
}

abbrev pub send_in : Ipc → Option ℕ → ℕ → ℕ → List ℕ → ℕ → Bool × Ipc
send_in st none sender target bytes size = (false, st)
send_in st (some i) sender target bytes size = (
  true,
  record {
    slots =
        set st.slots i (fill (get_or st.slots i no_slot) sender target bytes size st.next_sequence);
    next_sequence = add64 st.next_sequence 1;
  },
)

unfoldable pub ipc_send : Ipc → ℕ → ℕ → Option (List ℕ) → ℕ → Bool × Ipc
ipc_send st sender target none size = (false, st)
ipc_send st sender target (some bytes) size =
    if sender == 0 || (target == 0 || (size == 0 || ltb max_message_size size))
    then (false, st)
    else send_in st (ipc_find_free_slot st.slots) sender target bytes size

-- The message put into `*message`, whose payload was `dest`.
abbrev pub recv_in : Ipc → Option (ℕ × Slot) → List ℕ → Option Message × Ipc
recv_in st none dest = (none, st)
recv_in st (some p) dest = (
  some (record (p.1.message) {
    payload = ipc_copy_payload dest p.1.message.payload p.1.message.size;
  }),
  record st { slots = set st.slots p.0 (ipc_clear_slot p.1) },
)

-- Receives into a pointer that is not null.
unfoldable pub ipc_recv : Ipc → ℕ → List ℕ → Option Message × Ipc
ipc_recv st target dest =
    if target == 0
    then (none, st)
    else recv_in st (ipc_find_oldest_target_slot st.slots target) dest
