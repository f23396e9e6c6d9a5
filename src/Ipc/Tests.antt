-- ===== src/Ipc/Tests.antt =====
-- kernel/ipc.c with one message for process 2 and one free slot.
use armonios.Prelude.{
  ℕ, zero, suc, ◌≡◌, ◌⊎◌, refl, arith, true, false, List, [], ◌∷◌, none, some, length, replicate,
}
use armonios.Ipc.{Ipc, Slot, Message, ipc_recv, ipc_send, max_message_size}
use armonios.Ipc.Oldest.{NoneFor}
use armonios.Ipc.Send.{is_refused, AllUsed, Sent, ipc_send_lem}
use armonios.Ipc.Receive.{IsShaped, Taken, ipc_recv_lem}

abbrev zeros : List ℕ
zeros = replicate max_message_size 0

abbrev waiting : Slot
waiting = record {
  message = record { sender_pid = 1; target_pid = 2; size = 1; payload = 7 ∷ replicate 15 0 };
  sequence = 5;
  used = true;
}

abbrev free : Slot
free = record {
  message = record { sender_pid = 0; target_pid = 0; size = 0; payload = zeros };
  sequence = 0;
  used = false;
}

abbrev queue : Ipc
queue = record { slots = waiting ∷ free ∷ []; next_sequence = 6 }

queue-IsShaped : IsShaped queue.slots
queue-IsShaped zero h = (refl, omega arith)
queue-IsShaped (suc zero) h = (refl, omega arith)
queue-IsShaped (suc (suc k)) h = absurd (omega arith)

ipc_send_lem_example :
    (((is_refused 3 2 2 ≡ true) ⊎ AllUsed queue.slots (length queue.slots))
      × (ipc_send queue 3 2 (some (7 ∷ 8 ∷ [])) 2 ≡ (false, queue)))
    ⊎ ((j : ℕ) × (st' : Ipc) × (ipc_send queue 3 2 (some (7 ∷ 8 ∷ [])) 2 ≡ (true, st'))
        × Sent queue 3 2 (7 ∷ 8 ∷ []) 2 j st')
ipc_send_lem_example = ipc_send_lem queue 3 2 (7 ∷ 8 ∷ []) 2 queue-IsShaped

ipc_recv_lem_example :
    (NoneFor 2 queue.slots × (ipc_recv queue 2 zeros ≡ (none, queue)))
    ⊎ ((j : ℕ) × (m : Message) × (st' : Ipc) × (ipc_recv queue 2 zeros ≡ (some m, st'))
        × Taken queue 2 j m st')
ipc_recv_lem_example = ipc_recv_lem queue 2 zeros (omega arith) queue-IsShaped refl
