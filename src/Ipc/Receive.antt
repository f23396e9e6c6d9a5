-- ===== src/Ipc/Receive.antt =====
-- ipc_recv of kernel/ipc.c takes the oldest message for its target.
use mathlib.Core.Path.{subst}
use armonios.Prelude.{
  ◌≢◌, ℕ, ◌-◌, ◌≤◌, ◌<◌, ◌≡◌, ◌⊎◌, refl, sym, ap, ◌∙◌, inl, inr, true, false, List, [], none, some,
  arith, ◌==◌, length, set, Bool-cases, length-set, get_or-set,
}
use armonios.Ipc.{
  Ipc, Slot, Message, max_message_size, no_slot, is_for, find_oldest, ipc_find_oldest_target_slot,
  ipc_recv, ipc_clear_slot, ipc_copy_payload,
}
use armonios.Ipc.Payload.{Holds, ipc_zero_payload-Holds, ipc_copy_payload-Holds}
use armonios.Ipc.Oldest.{slot, NoneFor, Oldest, Found, find_oldest_lem}

abbrev TakenFrom : Ipc → ℕ → List ℕ → ℕ → Slot → Type 0
TakenFrom st target dest j s =
    (j < length st.slots)
    × (is_for target s ≡ true)
    × Oldest target st.slots s
    × (ipc_recv st target dest ≡ (
      some
          (record (s.message) { payload = ipc_copy_payload dest s.message.payload s.message.size }),
      record st { slots = set st.slots j (ipc_clear_slot s) },
    ))

received :
    (st : Ipc) (target : ℕ) (dest : List ℕ) (p : ℕ × Slot)
    → (target == 0) ≡ false
    → find_oldest st.slots target 0 none ≡ some p
    → Found target st.slots 0 none p
    → (j : ℕ) × TakenFrom st target dest j (slot st.slots j)
unfolding ipc_recv ipc_find_oldest_target_slot
received st target dest p nonzero e f = elim f.0 [
  | inl n ↦ absurd (ground arith)
  | inr o ↦
      let at : p.0 ≡ p.0 - 0 = omega arith in
      let same : p.1 ≡ slot st.slots p.0 = sym (ap (slot st.slots) at ∙ o.2) in
      (
        p.0,
        subst (TakenFrom st target dest p.0) same
            (omega (arith, o.1), o.3, f.1, rw (nonzero, e) refl),
      )
]

-- Every slot has an array of 16 bytes and a size of at most 16.
abbrev pub IsShaped : List Slot → Type 0
IsShaped ss =
    (k : ℕ)
    → k < length ss
    → (length (slot ss k).message.payload ≡ max_message_size)
      × ((slot ss k).message.size ≤ max_message_size)

-- A slot in which nothing is set.
pub record Cleared (s : Slot) : Type 0 where
  pub unused : s.used ≡ false
  pub sequence : s.sequence ≡ 0
  pub sender : s.message.sender_pid ≡ 0
  pub target : s.message.target_pid ≡ 0
  pub size : s.message.size ≡ 0
  pub payload : Holds s.message.payload [] 0

-- `m` is the message of slot `j`, the oldest for the target, and that slot alone was cleared.
pub record Taken (st : Ipc) (target j : ℕ) (m : Message) (st' : Ipc) : Type 0 where
  pub index : j < length st.slots
  pub mine : is_for target (slot st.slots j) ≡ true
  pub oldest : Oldest target st.slots (slot st.slots j)
  pub sender : m.sender_pid ≡ (slot st.slots j).message.sender_pid
  pub target_pid : m.target_pid ≡ target
  pub size : m.size ≡ (slot st.slots j).message.size
  pub payload : Holds m.payload (slot st.slots j).message.payload (slot st.slots j).message.size
  pub cleared : Cleared (slot st'.slots j)
  pub others : (k : ℕ) → k ≢ j → slot st'.slots k ≡ slot st.slots k
  pub sequence : st'.next_sequence ≡ st.next_sequence
  pub shaped : IsShaped st'.slots

ipc_clear_slot-Cleared :
    (s : Slot) → length s.message.payload ≡ max_message_size → Cleared (ipc_clear_slot s)
unfolding ipc_clear_slot
ipc_clear_slot-Cleared s len = record {
  unused = refl;
  sequence = refl;
  sender = refl;
  target = refl;
  size = refl;
  payload = ipc_zero_payload-Holds s.message.payload len;
}

-- Slots of the right shape stay so when one is replaced by another of that shape.
pub IsShaped-set :
    (ss : List Slot) (j : ℕ) (s : Slot)
    → j < length ss
    → IsShaped ss
    → length s.message.payload ≡ max_message_size
    → s.message.size ≤ max_message_size
    → IsShaped (set ss j s)
IsShaped-set ss j s h v len small k hk =
    let l = length-set ss j s in
    let g = get_or-set ss j k s no_slot h in
    elim (Bool-cases (k == j)) [
      | inl e ↦
          let at : slot (set ss j s) k ≡ s = g ∙ rw e refl in
          (
            ap (λ (t : Slot). length t.message.payload) at ∙ len,
            omega (arith, ap (λ (t : Slot). t.message.size) at, small),
          )
      | inr e ↦
          let at : slot (set ss j s) k ≡ slot ss k = g ∙ rw e refl in
          let r = v k (omega arith) in
          (
            ap (λ (t : Slot). length t.message.payload) at ∙ r.0,
            omega (arith, ap (λ (t : Slot). t.message.size) at, r.1),
          )
    ]

TakenFrom-Taken :
    (st : Ipc) (target : ℕ) (dest : List ℕ) (j : ℕ)
    → IsShaped st.slots
    → length dest ≡ max_message_size
    → TakenFrom st target dest j (slot st.slots j)
    → (m : Message) × (st' : Ipc) × (ipc_recv st target dest ≡ (some m, st'))
      × Taken st target j m st'
TakenFrom-Taken st target dest j v len (h, mine, oldest, e) =
    let s = slot st.slots j in
    let shape = v j h in
    let c = ipc_clear_slot-Cleared s shape.0 in
    let self : (j == j) ≡ true = ground arith in
    let at : slot (set st.slots j (ipc_clear_slot s)) j ≡ ipc_clear_slot s =
      get_or-set st.slots j j (ipc_clear_slot s) no_slot h ∙ rw self refl in
    (
      record (s.message) { payload = ipc_copy_payload dest s.message.payload s.message.size },
      record st { slots = set st.slots j (ipc_clear_slot s) },
      e,
      record {
        index = h;
        mine = mine;
        oldest = oldest;
        sender = refl;
        target_pid = ground arith;
        size = refl;
        payload = ipc_copy_payload-Holds dest s.message.payload s.message.size len shape.1;
        cleared = subst Cleared (sym at) c;
        others = λ k ne.
            let far : (k == j) ≡ false = ground arith in
            get_or-set st.slots j k (ipc_clear_slot s) no_slot h ∙ rw far refl;
        sequence = refl;
        shaped =
            IsShaped-set st.slots j (ipc_clear_slot s) h v c.payload.bytes
              (let z = c.size in omega arith);
      },
    )

-- Where the slots and the array given have 16 bytes and sizes are at most 16: on no message for the
-- target, which is not 0, ipc_recv fails and changes nothing. Otherwise it gives the message of a
-- slot for the target of which none is older, its bytes up to its size and zeros behind them. That
-- slot then is unused with all else in it zero; no other slot and not the next sequence number
-- changes.
pub ipc_recv_lem :
    (st : Ipc) (target : ℕ) (dest : List ℕ)
    → 0 < target
    → IsShaped st.slots
    → length dest ≡ max_message_size
    → (NoneFor target st.slots × (ipc_recv st target dest ≡ (none, st)))
      ⊎ ((j : ℕ) × (m : Message) × (st' : Ipc) × (ipc_recv st target dest ≡ (some m, st'))
          × Taken st target j m st')
unfolding ipc_recv ipc_find_oldest_target_slot
ipc_recv_lem st target dest some_target v len =
    let nonzero : (target == 0) ≡ false = ground arith in
    elim (find_oldest_lem st.slots target 0 none) [
      | inl r ↦ inl (r.2, rw (nonzero, r.0) refl)
      | inr r ↦
          let t = received st target dest r.0 nonzero r.1.0 r.1.1 in
          let u = TakenFrom-Taken st target dest t.0 v len t.1 in inr (t.0, u.0, u.1, u.2, u.3)
    ]
