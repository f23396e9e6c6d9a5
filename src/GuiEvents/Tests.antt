-- ===== src/GuiEvents/Tests.antt =====
-- kernel/gui_events.c on a window whose queue is empty and on one that is full.
use armonios.Prelude.{◌≡◌, refl, true, arith, replicate, length-replicate, some}
use armonios.GuiEvents.{Window, GuiEvent, no_event, event_queue_size, gui_window_push_event}
use armonios.GuiEvents.Queue.{IsWindow, contents, pushed, gui_window_push_event_lem}

unfoldable full : Window
full = record {
  used = true;
  events = replicate event_queue_size no_event;
  head = 7;
  tail = 7;
  count = 32;
}

full-IsWindow : IsWindow full
unfolding full
full-IsWindow = record {
  array = length-replicate {A = GuiEvent} event_queue_size no_event;
  head = omega arith;
  count = omega arith;
  tail = refl;
}

full_used : full.used ≡ true
unfolding full
full_used = refl

abbrev click : GuiEvent
click = record { type_of = 3; data1 = 10; data2 = 20 }

gui_window_push_event_lem_example :
    (w' : Window) × (gui_window_push_event (some full) click ≡ (true, some w'))
    × IsWindow w'
    × (contents w' ≡ pushed click (contents full))
gui_window_push_event_lem_example = gui_window_push_event_lem click full full-IsWindow full_used
