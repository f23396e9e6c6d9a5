-- ===== src/Input.antt =====
-- drivers/input/input.c and the navigation keys of drivers/input/keymap.c: the queue of input events
-- and the decoder of escape sequences.
-- `Input` holds the static variables. The code masks interrupts around each access, so each function
-- is one step. An `int` byte is its 32-bit pattern. The report that a poll makes to the runtime
-- service is part of its result.
pub mod Queue
pub mod Decoder
mod Tests
use armonios.Prelude.{
  ℕ, ◌+◌, ◌-◌, ◌%◌, Bool, true, false, ◌&&◌, ◌||◌, List, [], ◌∷◌, Option, none, some, if◌then◌else◌,
  ltb, leb, ◌==◌, get_or, set, add32, sub32, add64,
}

abbrev pub queue_size : ℕ
queue_size = 64

-- `input_event_type_t`
pub data EventType : Type 0 where
  key_press key_release mouse_move mouse_button : EventType

-- `input_event_t`; the union is its two 32-bit words, and `key` is the first.
pub record InputEvent : Type 0 where
  pub type_of : EventType
  pub timestamp : ℕ
  pub key : ℕ
  pub second : ℕ

pub data EscState : Type 0 where
  idle got_esc got_bracket got_bracket_digit : EscState

pub record Input : Type 0 where
  pub events : List InputEvent
  pub head : ℕ
  pub tail : ℕ
  pub count : ℕ
  pub high_water : ℕ
  pub overflow : ℕ
  pub esc_state : EscState
  pub esc_digit : ℕ

-- The event that push_key_event builds.
abbrev pub key_event : ℕ → InputEvent
key_event k = record { type_of = key_press; timestamp = 0; key = k; second = 0 }

-- `input_queue_init` leaves the array.
unfoldable pub input_queue_init : Input → Input
input_queue_init s = record s {
  head = 0;
  tail = 0;
  count = 0;
  high_water = 0;
  overflow = 0;
  esc_state = idle;
  esc_digit = 0;
}

-- input_queue_push behind its null test
unfoldable pub push_event : InputEvent → Input → Bool × Input
push_event e s =
    if leb queue_size s.count then (false, record s { overflow = add64 s.overflow 1 }) else (
      true,
      record s {
        events = set s.events s.tail e;
        tail = add32 s.tail 1 % queue_size;
        count = add32 s.count 1;
        high_water = if ltb s.high_water (add32 s.count 1) then add32 s.count 1 else s.high_water;
      },
    )

unfoldable pub input_queue_push : Option InputEvent → Input → Bool × Input
unfolding push_event
input_queue_push none s = (false, s)
input_queue_push (some e) s = push_event e s

-- `input_queue_stats_t`; a poll reports the same three numbers.
pub record Stats : Type 0 where
  pub overflow_count : ℕ
  pub current_depth : ℕ
  pub high_water : ℕ

abbrev pub stats_of : Input → Stats
stats_of s = record {
  overflow_count = s.overflow;
  current_depth = s.count;
  high_water = s.high_water;
}

-- Polls with a pointer that is not null. The result is the event, with what is reported.
unfoldable pub input_queue_poll : Input → Option (InputEvent × Stats) × Input
input_queue_poll s = if s.count == 0 then (none, s) else (
  some (get_or s.events s.head (key_event 0), stats_of s),
  record s { head = add32 s.head 1 % queue_size; count = sub32 s.count 1 },
)

unfoldable pub input_queue_peek : Input → Option InputEvent
input_queue_peek s = if s.count == 0 then none else some (get_or s.events s.head (key_event 0))

-- The character of a polled event, or none for no event and for one that is no key press.
abbrev pub char_of : Option (InputEvent × Stats) → Option ℕ
char_of none = none
char_of (some r) = elim r.0.type_of [
  | key_press ↦ some (r.0.key % 256)
  | key_release ↦ none
  | mouse_move ↦ none
  | mouse_button ↦ none
]

unfoldable pub input_queue_poll_char : Input → Option ℕ × Input
input_queue_poll_char s = let r = input_queue_poll s in (char_of r.0, r.1)

unfoldable pub input_queue_available : Input → ℕ
input_queue_available s = s.count

unfoldable pub input_queue_get_stats : Input → Stats
input_queue_get_stats s = stats_of s

-- `input_nav_key_t`
pub data NavKey : Type 0 where
  up down left right pgup pgdn home end_key insert delete : NavKey

unfoldable pub input_key_from_nav : NavKey → ℕ
input_key_from_nav up = 0x101
input_key_from_nav down = 0x102
input_key_from_nav left = 0x103
input_key_from_nav right = 0x104
input_key_from_nav pgup = 0x105
input_key_from_nav pgdn = 0x106
input_key_from_nav home = 0x107
input_key_from_nav end_key = 0x108
input_key_from_nav insert = 0x109
input_key_from_nav delete = 0x10a

unfoldable pub push_key_event : ℕ → Input → Input
push_key_event k s = (input_queue_push (some (key_event k)) s).1

-- the switches of push_escape_key and push_escape_tilde
unfoldable pub escape_nav : ℕ → Option NavKey
escape_nav code =
    if code == b'A'
    then some up
    else if code == b'B'
    then some down
    else if code == b'C'
    then some right
    else if code == b'D'
    then some left
    else if code == b'F'
    then some end_key
    else if code == b'H'
    then some home
    else none

unfoldable pub tilde_nav : ℕ → Option NavKey
tilde_nav digit =
    if digit == b'1' || digit == b'7'
    then some home
    else if digit == b'2'
    then some insert
    else if digit == b'3'
    then some delete
    else if digit == b'4' || digit == b'8'
    then some end_key
    else if digit == b'5'
    then some pgup
    else if digit == b'6'
    then some pgdn
    else none

abbrev pub push_nav : Option NavKey → Input → Input
push_nav none s = s
push_nav (some nav) s = push_key_event (input_key_from_nav nav) s

unfoldable pub push_escape_key : ℕ → Input → Input
push_escape_key code s = push_nav (escape_nav code) s

unfoldable pub push_escape_tilde : ℕ → Input → Input
push_escape_tilde digit s = push_nav (tilde_nav digit) s

abbrev pub set_state : EscState → Input → Input
set_state e s = record s { esc_state = e }

-- A byte outside a sequence: the escape byte begins one, another is a key.
abbrev pub begin_or_push : ℕ → Input → Input
begin_or_push c s = if c == 0x1b then set_state got_esc s else push_key_event c s

unfoldable pub input_inject_byte : ℕ → Input → Input
input_inject_byte c s = elim s.esc_state [
  | idle ↦ begin_or_push c s
  | got_esc ↦
      if c == b'['
      then set_state got_bracket s
      else begin_or_push c (push_key_event 0x1b (set_state idle s))
  | got_bracket ↦
      if leb b'0' c && leb c b'9'
      then record s { esc_state = got_bracket_digit; esc_digit = c % 256 }
      else push_escape_key (c % 256) (set_state idle s)
  | got_bracket_digit ↦
      if c == b'~' then push_escape_tilde s.esc_digit (set_state idle s) else set_state idle s
]
