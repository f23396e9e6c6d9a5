-- ===== src/Input/Tests.antt =====
-- drivers/input/input.c on an empty queue.
use armonios.Prelude.{
  ◌+◌, ◌≤◌, ◌≡◌, refl, List, [], ◌∷◌, ◌++◌, map, arith, replicate, length-replicate,
}
use armonios.Input.{Input, InputEvent, idle, key_event, queue_size, pgdn}
use armonios.Input.Queue.{IsInput, contents}
use armonios.Input.Decoder.{
  Keystroke, plain, escaped, nav, inject_all, encode_all, keys_of_all, inject_all_lem,
}

unfoldable fresh : Input
fresh = record {
  events = replicate queue_size (key_event 0);
  head = 60;
  tail = 60;
  count = 0;
  high_water = 3;
  overflow = 0;
  esc_state = idle;
  esc_digit = 0;
}

fresh-IsInput : IsInput fresh
unfolding fresh
fresh-IsInput = record {
  array = length-replicate {A = InputEvent} queue_size (key_event 0);
  head = omega arith;
  count = omega arith;
  tail = refl;
  high_water = omega arith;
}

fresh_idle : fresh.esc_state ≡ idle
unfolding fresh
fresh_idle = refl

fresh_room : fresh.count + 4 ≤ queue_size
unfolding fresh
fresh_room = omega arith

abbrev typed : List Keystroke
typed = plain b'x' ∷ nav pgdn ∷ escaped b'q' ∷ []

inject_all_lem_example :
    let s' = inject_all (encode_all typed) fresh in
    IsInput s'
    × (s'.esc_state ≡ idle)
    × (contents s' ≡ contents fresh ++ map key_event (keys_of_all typed))
inject_all_lem_example = inject_all_lem typed fresh fresh-IsInput fresh_idle refl fresh_room
