-- ===== src/GuiEvents.antt =====
-- kernel/gui_events.c: the queue of events of a window.
-- `Window` has the fields of `gui_window_t` that this file uses; a null window is `none`. The code
-- masks interrupts around each access, so each function is one step.
pub mod Queue
mod Tests
use armonios.Prelude.{
  ℕ, ◌-◌, ◌%◌, Bool, true, false, not, ◌&&◌, List, [], ◌∷◌, Option, none, some, if◌then◌else◌, ltb,
  leb, ◌==◌, get_or, set, add32, sub32,
}

-- `gui_event_t`
pub record GuiEvent : Type 0 where
  pub type_of : ℕ
  pub data1 : ℕ
  pub data2 : ℕ

pub record Window : Type 0 where
  pub used : Bool
  pub events : List GuiEvent
  pub head : ℕ
  pub tail : ℕ
  pub count : ℕ

-- GUI_EVENT_QUEUE_SIZE
abbrev pub event_queue_size : ℕ
event_queue_size = 32

abbrev pub gui_mouse_move : ℕ
gui_mouse_move = 4

abbrev pub no_event : GuiEvent
no_event = record { type_of = 0; data1 = 0; data2 = 0 }

-- the position before the tail
abbrev pub prev_of : Window → ℕ
prev_of w = if w.tail == 0 then event_queue_size - 1 else w.tail - 1

abbrev pub is_move : GuiEvent → Bool
is_move e = e.type_of == gui_mouse_move

-- A move after a queued move: the newest event gets its data.
unfoldable pub merge : GuiEvent → Window → Window
merge e w =
    let prev = get_or w.events (prev_of w) no_event in
    record w {
      events = set w.events (prev_of w) (record prev { data1 = e.data1; data2 = e.data2 });
    }

unfoldable pub drop_oldest : Window → Window
drop_oldest w = record w { head = add32 w.head 1 % event_queue_size; count = sub32 w.count 1 }

unfoldable pub append_event : GuiEvent → Window → Window
append_event e w = record w {
  events = set w.events w.tail e;
  tail = add32 w.tail 1 % event_queue_size;
  count = add32 w.count 1;
}

-- gui_window_push_event on a used window
unfoldable pub push_in : GuiEvent → Window → Window
push_in e w =
    if is_move e && (ltb 0 w.count && is_move (get_or w.events (prev_of w) no_event))
    then merge e w
    else if leb event_queue_size w.count
    then if is_move e then w else append_event e (drop_oldest w)
    else append_event e w

unfoldable pub gui_window_push_event : Option Window → GuiEvent → Bool × Option Window
gui_window_push_event none e = (false, none)
gui_window_push_event (some w) e = if w.used then (true, some (push_in e w)) else (false, some w)

-- The result is the event put into `*out`, or none for failure; `has_out` tells that `out` is not
-- null.
unfoldable pub gui_window_pop_event : Option Window → Bool → Option GuiEvent × Option Window
gui_window_pop_event none has_out = (none, none)
gui_window_pop_event (some w) has_out =
    if not (w.used && has_out)
    then (none, some w)
    else if w.count == 0
    then (none, some w)
    else (some (get_or w.events w.head no_event), some (drop_oldest w))
