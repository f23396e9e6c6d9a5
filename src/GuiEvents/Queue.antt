-- ===== src/GuiEvents/Queue.antt =====
-- The queue of kernel/gui_events.c as a list of at most 32 events, oldest first.
use mathlib.Core.Path.{ap₂}
use armonios.Prelude.{
  ℕ, suc, ◌+◌, ◌-◌, ◌%◌, ◌≤◌, ◌<◌, ◌≡◌, refl, sym, ap, ◌∙◌, Bool, true, false, ◌&&◌, List, [], ◌∷◌,
  ◌++◌, none, some, arith, if◌then◌else◌, ltb, leb, ◌==◌, length, get_or, set, drop, length-set,
  Bool-cases, ==→eq, inl, inr, add32, sub32, not, ◌⊎◌,
}
use armonios.Ring.{window, length-window, window-push, window-suc}
use armonios.GuiEvents.{
  Window, GuiEvent, no_event, event_queue_size, is_move, prev_of, merge, drop_oldest, append_event,
  push_in, gui_window_pop_event, gui_window_push_event,
}

-- The queued events, oldest first.
abbrev pub contents : Window → List GuiEvent
contents w = window event_queue_size w.events no_event w.head w.count

pub record IsWindow (w : Window) : Type 0 where
  pub array : length w.events ≡ event_queue_size
  pub head : w.head < event_queue_size
  pub count : w.count ≤ event_queue_size
  pub tail : w.tail ≡ (w.head + w.count) % event_queue_size

abbrev pub ends_in_move : List GuiEvent → Bool
ends_in_move [] = false
ends_in_move (x ∷ []) = is_move x
ends_in_move (x ∷ y ∷ q) = ends_in_move (y ∷ q)

abbrev pub but_last : List GuiEvent → List GuiEvent
but_last [] = []
but_last (x ∷ []) = []
but_last (x ∷ y ∷ q) = x ∷ but_last (y ∷ q)

-- What a push does to the list of queued events: a move replaces a move that is the newest event;
-- in a full queue any other move is dropped, and another event displaces the oldest.
abbrev pub pushed : GuiEvent → List GuiEvent → List GuiEvent
pushed e q =
    if is_move e && ends_in_move q
    then but_last q ++ (e ∷ [])
    else if leb event_queue_size (length q)
    then if is_move e then q else drop 1 q ++ (e ∷ [])
    else q ++ (e ∷ [])

ends_in_move-snoc : (q : List GuiEvent) (e : GuiEvent) → ends_in_move (q ++ (e ∷ [])) ≡ is_move e
ends_in_move-snoc [] e = refl
ends_in_move-snoc (x ∷ []) e = refl
ends_in_move-snoc (x ∷ y ∷ q) e = ends_in_move-snoc (y ∷ q) e

but_last-snoc : (q : List GuiEvent) (e : GuiEvent) → but_last (q ++ (e ∷ [])) ≡ q
but_last-snoc [] e = refl
but_last-snoc (x ∷ []) e = refl
but_last-snoc (x ∷ y ∷ q) e = ap (λ r. x ∷ r) (but_last-snoc (y ∷ q) e)

drop_oldest_lem :
    (w : Window)
    → IsWindow w
    → (w.count == 0) ≡ false
    → IsWindow (drop_oldest w)
      × (contents (drop_oldest w) ≡ drop 1 (contents w))
      × (contents w ≡ get_or w.events w.head no_event ∷ contents (drop_oldest w))
      × (suc (drop_oldest w).count ≡ w.count)
unfolding drop_oldest window
drop_oldest_lem w v some_queued =
    let m = w.count - 1 in
    let at = (w.head + 1) % event_queue_size in
    let count : w.count ≡ suc m = ground arith in
    let c : contents w
        ≡ get_or w.events w.head no_event ∷ window event_queue_size w.events no_event at m =
      ap (λ c. window event_queue_size w.events no_event w.head c) count in
    let next : add32 w.head 1 % event_queue_size ≡ at = omega arith in
    let less : sub32 w.count 1 ≡ m = omega arith in
    let rest = ap₂ (λ h c. window event_queue_size w.events no_event h c) next less in
    (
      record {
        array = v.array;
        head = omega arith;
        count = omega arith;
        tail = omega (arith, v.tail);
      },
      rest ∙ ap (drop 1) (sym c),
      c ∙ ap (λ r. get_or w.events w.head no_event ∷ r) (sym rest),
      omega arith,
    )

append_event_lem :
    (e : GuiEvent) (w : Window)
    → IsWindow w
    → w.count < event_queue_size
    → IsWindow (append_event e w) × (contents (append_event e w) ≡ contents w ++ (e ∷ []))
unfolding append_event
append_event_lem e w v room =
    let more : add32 w.count 1 ≡ suc w.count = omega arith in
    rw more (
      record {
        array = length-set w.events w.tail e ∙ v.array;
        head = v.head;
        count = omega arith;
        tail = omega (arith, v.tail);
      },
      ap (λ (t : ℕ). window event_queue_size (set w.events t e) no_event w.head (suc w.count))
            v.tail
          ∙ window-push event_queue_size w.events no_event w.head w.count e v.array v.head room,
    )

-- The newest event of a queue that is not empty.
newest_lem :
    (w : Window)
    → IsWindow w
    → (w.count == 0) ≡ false
    → contents w
      ≡ window event_queue_size w.events no_event w.head (w.count - 1)
        ++ (get_or w.events (prev_of w) no_event ∷ [])
newest_lem w v some_queued =
    let n = w.count - 1 in
    let count : w.count ≡ suc n = ground arith in
    let at : (w.head + n) % event_queue_size ≡ prev_of w = ground (arith, v.tail) in
    ap (λ c. window event_queue_size w.events no_event w.head c) count
    ∙ window-suc event_queue_size w.events no_event w.head n v.head
    ∙ ap
        (λ (p : ℕ).
          window event_queue_size w.events no_event w.head n ++ (get_or w.events p no_event ∷ []))
        at

merge_lem :
    (e : GuiEvent) (w : Window)
    → IsWindow w
    → (w.count == 0) ≡ false
    → is_move e ≡ true
    → is_move (get_or w.events (prev_of w) no_event) ≡ true
    → IsWindow (merge e w) × (contents (merge e w) ≡ but_last (contents w) ++ (e ∷ []))
unfolding merge
merge_lem e w v some_queued new old =
    let n = w.count - 1 in
    let prev = get_or w.events (prev_of w) no_event in
    let merged : GuiEvent = record prev { data1 = e.data1; data2 = e.data2 } in
    let is_e : merged ≡ e =
      ap (λ t. record e { type_of = t }) (==→eq prev.type_of 4 old ∙ sym (==→eq e.type_of 4 new)) in
    let count : w.count ≡ suc n = ground arith in
    let at : prev_of w ≡ (w.head + n) % event_queue_size = ground (arith, v.tail) in
    let es' = set w.events (prev_of w) merged in
    let before = window event_queue_size w.events no_event w.head n in
    (
      record {
        array = length-set w.events (prev_of w) merged ∙ v.array;
        head = v.head;
        count = v.count;
        tail = v.tail;
      },
      ap (λ c. window event_queue_size es' no_event w.head c) count
          ∙ ap (λ (p : ℕ). window event_queue_size (set w.events p merged) no_event w.head (suc n))
              at
          ∙ window-push event_queue_size w.events no_event w.head n merged v.array v.head
              (omega arith)
          ∙ ap (λ x. before ++ (x ∷ [])) is_e
          ∙ ap (λ q. q ++ (e ∷ []))
              (sym (ap but_last (newest_lem w v some_queued) ∙ but_last-snoc before prev)),
    )

ends_in_move-contents :
    (w : Window)
    → IsWindow w
    → ends_in_move (contents w) ≡ ltb 0 w.count && is_move (get_or w.events (prev_of w) no_event)
unfolding window
ends_in_move-contents w v = elim (Bool-cases (w.count == 0)) [
  | inl empty ↦
      let none_queued : ltb 0 w.count ≡ false = ground arith in
      ap (λ c. ends_in_move (window event_queue_size w.events no_event w.head c))
        (==→eq w.count 0 empty)
      ∙ rw none_queued
  | inr some_queued ↦
      let queued : ltb 0 w.count ≡ true = ground arith in
      ap ends_in_move (newest_lem w v some_queued)
      ∙ ends_in_move-snoc (window event_queue_size w.events no_event w.head (w.count - 1)) _
      ∙ rw queued
]

push_in_lem :
    (e : GuiEvent) (w : Window)
    → IsWindow w
    → IsWindow (push_in e w) × (contents (push_in e w) ≡ pushed e (contents w))
unfolding push_in
push_in_lem e w v =
    let n : length (contents w) ≡ w.count =
      length-window event_queue_size w.events no_event w.head w.count in
    let full : leb event_queue_size (length (contents w)) ≡ leb event_queue_size w.count =
      ap (leb event_queue_size) n in
    let ends = ends_in_move-contents w v in
    elim (Bool-cases
      (is_move e && (ltb 0 w.count && is_move (get_or w.events (prev_of w) no_event)))) [
        | inl merges ↦
            rw (ends, merges) (merge_lem e w v (ground arith) (ground arith) (ground arith))
        | inr apart ↦ elim (Bool-cases (leb event_queue_size w.count)) [
          | inl no_room ↦ elim (Bool-cases (is_move e)) [
            | inl move ↦ rw (ends, apart, full, no_room, move) (v, refl)
            | inr other ↦
                let d = drop_oldest_lem w v (ground arith) in
                let a = append_event_lem e (drop_oldest w) d.0 (omega (arith, d.3, v.count)) in
                rw (ends, apart, full, no_room, other) (a.0, a.1 ∙ ap (λ q. q ++ (e ∷ [])) d.1)
          ]
          | inr room ↦ rw (ends, apart, full, room) (append_event_lem e w v (ground arith))
        ]
      ]

-- A push on a used window does to the list of queued events what `pushed` says: a move replaces a
-- move that is the newest event; in a full queue any other move is dropped, and another event
-- displaces the oldest. The invariant is kept, so never more than 32 events are queued.
pub gui_window_push_event_lem :
    (e : GuiEvent) (w : Window)
    → IsWindow w
    → w.used ≡ true
    → (w' : Window) × (gui_window_push_event (some w) e ≡ (true, some w'))
      × IsWindow w'
      × (contents w' ≡ pushed e (contents w))
unfolding gui_window_push_event
gui_window_push_event_lem e w v u =
    let p = push_in_lem e w v in
    (push_in e w, ap (λ b. if b then (true, some (push_in e w)) else (false, some w)) u, p.0, p.1)

-- A pop from a used window takes the oldest event, or fails on an empty queue and changes nothing.
pub gui_window_pop_event_lem :
    (w : Window)
    → IsWindow w
    → w.used ≡ true
    → ((contents w ≡ []) × (gui_window_pop_event (some w) true ≡ (none, some w)))
      ⊎ ((e : GuiEvent) × (w' : Window) × (gui_window_pop_event (some w) true ≡ (some e, some w'))
          × IsWindow w'
          × (contents w ≡ e ∷ contents w'))
unfolding gui_window_pop_event window
gui_window_pop_event_lem w v u = elim (Bool-cases (w.count == 0)) [
  | inl empty ↦ inl (
    ap (λ c. window event_queue_size w.events no_event w.head c) (==→eq w.count 0 empty),
    ap
          (λ b.
            if not (b && true)
            then (none, some w)
            else if w.count == 0
            then (none, some w)
            else (some (get_or w.events w.head no_event), some (drop_oldest w)))
          u
        ∙ rw empty,
  )
  | inr some_queued ↦
      let d = drop_oldest_lem w v some_queued in
      inr (
        get_or w.events w.head no_event,
        drop_oldest w,
        ap
              (λ b.
                if not (b && true)
                then (none, some w)
                else if w.count == 0
                then (none, some w)
                else (some (get_or w.events w.head no_event), some (drop_oldest w)))
              u
            ∙ rw some_queued,
        d.0,
        d.2,
      )
]
