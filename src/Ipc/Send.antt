-- ===== src/Ipc/Send.antt =====
-- ipc_send of kernel/ipc.c puts a message into the first free slot.
use mathlib.Core.Path.{subst}
use armonios.Prelude.{
  ◌≢◌, ℕ, zero, suc, ◌+◌, ◌<◌, ◌≡◌, ◌⊎◌, ◌%◌, refl, sym, ap, ◌∙◌, inl, inr, Bool, true, false, ◌||◌,
  List, [], ◌∷◌, none, some, arith, if◌then◌else◌, ltb, ◌==◌, length, set, Bool-cases, add64,
  u64_mod, get_or-set,
}
use armonios.Ipc.{
  Ipc, Slot, no_slot, find_free, ipc_find_free_slot, fill, ipc_send, max_message_size,
}
use armonios.Ipc.Payload.{Holds, ipc_copy_payload-Holds}
use armonios.Ipc.Oldest.{slot}
use armonios.Ipc.Receive.{IsShaped, IsShaped-set}

-- The slots before index `to` are used.
abbrev pub AllUsed : List Slot → ℕ → Type 0
AllUsed ss to = (k : ℕ) → k < to → (slot ss k).used ≡ true

AllUsed-front :
    (s : Slot) (ss : List Slot) (to : ℕ) → s.used ≡ true → AllUsed ss to → AllUsed (s ∷ ss) (suc to)
AllUsed-front s ss to first rest zero h = first
AllUsed-front s ss to first rest (suc k) h = rest k (omega arith)

find_free_lem :
    (ss : List Slot) (i : ℕ)
    → ((find_free ss i ≡ none) × AllUsed ss (length ss))
      ⊎ ((j : ℕ) × ((find_free ss i ≡ some (i + j))
            × (j < length ss)
            × ((slot ss j).used ≡ false)
            × AllUsed ss j))
unfolding find_free
find_free_lem [] i = inl (refl, λ k h. absurd (omega arith))
find_free_lem (s ∷ ss) i = elim (Bool-cases s.used) [
  | inl taken ↦ elim (find_free_lem ss (i + 1)) [
    | inl r ↦ inl (
      ap (λ b. if b then find_free ss (i + 1) else some i) taken ∙ r.0,
      AllUsed-front s ss (length ss) taken r.1,
    )
    | inr r ↦ inr (
      suc r.0,
      (
        ap (λ b. if b then find_free ss (i + 1) else some i) taken
            ∙ r.1.0
            ∙ ap (λ (k : ℕ). some k) (omega arith),
        omega (arith, r.1.1),
        r.1.2,
        AllUsed-front s ss r.0 taken r.1.3,
      ),
    )
  ]
  | inr free ↦ inr (
    0,
    (
      ap (λ b. if b then find_free ss (i + 1) else some i) free
          ∙ ap (λ (k : ℕ). some k) (omega arith),
      omega arith,
      free,
      λ k h. absurd (omega arith),
    ),
  )
]

-- Process 0, an empty message and one of more than 16 bytes are refused.
abbrev pub is_refused : ℕ → ℕ → ℕ → Bool
is_refused sender target size =
    sender == 0 || (target == 0 || (size == 0 || ltb max_message_size size))

-- The slot `s` holds this message under this sequence number.
pub record Sending (s : Slot) (from to : ℕ) (bytes : List ℕ) (n number : ℕ) : Type 0 where
  pub used : s.used ≡ true
  pub sequence : s.sequence ≡ number
  pub sender : s.message.sender_pid ≡ from
  pub target : s.message.target_pid ≡ to
  pub size : s.message.size ≡ n
  pub payload : Holds s.message.payload bytes n

-- The message went into slot `j`, the first free one, and no other slot changed.
pub record Sent (st : Ipc) (sender target : ℕ) (bytes : List ℕ) (size j : ℕ) (st' : Ipc)
    : Type 0 where
  pub accepted : is_refused sender target size ≡ false
  pub index : j < length st.slots
  pub free : (slot st.slots j).used ≡ false
  pub first : AllUsed st.slots j
  pub filled : Sending (slot st'.slots j) sender target bytes size st.next_sequence
  pub others : (k : ℕ) → k ≢ j → slot st'.slots k ≡ slot st.slots k
  pub sequence : st'.next_sequence ≡ (st.next_sequence + 1) % u64_mod
  pub shaped : IsShaped st'.slots

fill-Sending :
    (s : Slot) (sender target : ℕ) (bytes : List ℕ) (size sequence : ℕ)
    → length s.message.payload ≡ max_message_size
    → is_refused sender target size ≡ false
    → Sending (fill s sender target bytes size sequence) sender target bytes size sequence
unfolding fill
fill-Sending s sender target bytes size sequence len good = record {
  used = refl;
  sequence = refl;
  sender = refl;
  target = refl;
  size = refl;
  payload = ipc_copy_payload-Holds s.message.payload bytes size len (ground arith);
}

sent :
    (st : Ipc) (sender target : ℕ) (bytes : List ℕ) (size j : ℕ)
    → IsShaped st.slots
    → is_refused sender target size ≡ false
    → j < length st.slots
    → (slot st.slots j).used ≡ false
    → AllUsed st.slots j
    → Sent st sender target bytes size j (record {
      slots = set st.slots j (fill (slot st.slots j) sender target bytes size st.next_sequence);
      next_sequence = add64 st.next_sequence 1;
    })
sent st sender target bytes size j v good h free first =
    let s = fill (slot st.slots j) sender target bytes size st.next_sequence in
    let f =
      fill-Sending (slot st.slots j) sender target bytes size st.next_sequence (v j h).0 good in
    let self : (j == j) ≡ true = ground arith in
    let at : slot (set st.slots j s) j ≡ s = get_or-set st.slots j j s no_slot h ∙ rw self refl in
    record {
      accepted = good;
      index = h;
      free = free;
      first = first;
      filled = subst (λ (t : Slot). Sending t sender target bytes size st.next_sequence) (sym at) f;
      others = λ k ne.
          let far : (k == j) ≡ false = ground arith in
          get_or-set st.slots j k s no_slot h ∙ rw far refl;
      sequence = refl;
      shaped = IsShaped-set st.slots j s h v f.payload.bytes (let z = f.size in ground arith);
    }

-- Where every slot has 16 bytes and a size of at most 16: ipc_send fails with no change exactly when
-- sender, target or size is 0, the size is over 16, or every slot is used. Otherwise the first free
-- slot is used with the sender, the target, the size, the bytes up to the size and zeros behind them,
-- under the next sequence number, which goes up by 1 in 64 bits; no other slot changes.
pub ipc_send_lem :
    (st : Ipc) (sender target : ℕ) (bytes : List ℕ) (size : ℕ)
    → IsShaped st.slots
    → (((is_refused sender target size ≡ true) ⊎ AllUsed st.slots (length st.slots))
        × (ipc_send st sender target (some bytes) size ≡ (false, st)))
      ⊎ ((j : ℕ) × (st' : Ipc) × (ipc_send st sender target (some bytes) size ≡ (true, st'))
          × Sent st sender target bytes size j st')
unfolding ipc_send ipc_find_free_slot
ipc_send_lem st sender target bytes size v = elim (Bool-cases (is_refused sender target size)) [
  | inl bad ↦ inl (inl bad, rw bad refl)
  | inr good ↦ elim (find_free_lem st.slots 0) [
    | inl r ↦ inl (inr r.1, rw (good, r.0) refl)
    | inr r ↦
        let at : 0 + r.0 ≡ r.0 = omega arith in
        let found : find_free st.slots 0 ≡ some r.0 = r.1.0 ∙ ap (λ (k : ℕ). some k) at in
        inr (
          r.0,
          record {
            slots =
                set st.slots r.0
                  (fill (slot st.slots r.0) sender target bytes size st.next_sequence);
            next_sequence = add64 st.next_sequence 1;
          },
          rw (good, found) refl,
          sent st sender target bytes size r.0 v good r.1.1 r.1.2 r.1.3,
        )
  ]
]
