-- ===== src/Input/Decoder.antt =====
-- The decoder of drivers/input/input.c on the byte sequences that a terminal sends for keys.
use mathlib.Core.Path.{subst}
use mathlib.Core.List.{append-nil, append_assoc}
use armonios.Prelude.{
  suc, ℕ, ◌+◌, ◌≤◌, ◌<◌, ◌≡◌, refl, sym, ap, ◌∙◌, Bool, true, false, List, [], ◌∷◌, ◌++◌, map,
  arith, ◌==◌, length, length-append, ◌&&◌, not,
}
use armonios.Ring.{length-window}
use armonios.Input.{
  Input, InputEvent, idle, key_event, queue_size, NavKey, up, down, left, right, pgup, pgdn, home,
  end_key, insert, delete, input_key_from_nav, push_key_event, input_queue_push, input_inject_byte,
  set_state, push_escape_key, push_escape_tilde, escape_nav, tilde_nav,
}
use armonios.Input.Queue.{IsInput, contents, push_event-room}

-- What is typed: a character, the escape key and then a character, or a navigation key.
pub data Keystroke : Type 0 where
  plain : ℕ → Keystroke
  escaped : ℕ → Keystroke
  nav : NavKey → Keystroke

-- The bytes after ESC [ by which a terminal names a navigation key.
abbrev pub nav_code : NavKey → List ℕ
nav_code up = b'A' ∷ []
nav_code down = b'B' ∷ []
nav_code right = b'C' ∷ []
nav_code left = b'D' ∷ []
nav_code end_key = b'F' ∷ []
nav_code home = b'H' ∷ []
nav_code insert = b'2' ∷ b'~' ∷ []
nav_code delete = b'3' ∷ b'~' ∷ []
nav_code pgup = b'5' ∷ b'~' ∷ []
nav_code pgdn = b'6' ∷ b'~' ∷ []

abbrev pub encode : Keystroke → List ℕ
encode (plain c) = c ∷ []
encode (escaped c) = 0x1b ∷ c ∷ []
encode (nav k) = 0x1b ∷ b'[' ∷ nav_code k

abbrev pub keys_of : Keystroke → List ℕ
keys_of (plain c) = c ∷ []
keys_of (escaped c) = 0x1b ∷ c ∷ []
keys_of (nav k) = input_key_from_nav k ∷ []

-- whether the bytes of a keystroke are no beginning of another one
abbrev pub is_clear : Keystroke → Bool
is_clear (plain c) = not (c == 0x1b)
is_clear (escaped c) = not (c == 0x1b) && not (c == b'[')
is_clear (nav k) = true

abbrev pub all_clear : List Keystroke → Bool
all_clear [] = true
all_clear (k ∷ ks) = is_clear k && all_clear ks

abbrev pub encode_all : List Keystroke → List ℕ
encode_all [] = []
encode_all (k ∷ ks) = encode k ++ encode_all ks

abbrev pub keys_of_all : List Keystroke → List ℕ
keys_of_all [] = []
keys_of_all (k ∷ ks) = keys_of k ++ keys_of_all ks

-- Injects bytes one after the other.
unfoldable pub inject_all : List ℕ → Input → Input
inject_all [] s = s
inject_all (c ∷ cs) s = inject_all cs (input_inject_byte c s)

-- The keys have been queued behind what `s` held, and no sequence is open.
abbrev pub Typed : Input → Input → List ℕ → Type 0
Typed s s' keys =
    IsInput s' × (s'.esc_state ≡ idle) × (contents s' ≡ contents s ++ map key_event keys)

press :
    (k : ℕ) (s : Input)
    → IsInput s
    → s.esc_state ≡ idle
    → s.count < queue_size
    → Typed s (push_key_event k s) (k ∷ [])
unfolding push_key_event input_queue_push
press k s v i room = let p = push_event-room (key_event k) s v room in (p.1, p.4 ∙ i, p.2)

press_tilde :
    (k d : ℕ) (s : Input)
    → IsInput s
    → s.count < queue_size
    → Typed s (push_key_event k (record s { esc_state = idle; esc_digit = d })) (k ∷ [])
press_tilde k d s v room =
    press k (record s { esc_state = idle; esc_digit = d })
      (record {
        array = v.array;
        head = v.head;
        count = v.count;
        tail = v.tail;
        high_water = v.high_water;
      })
      refl room

nav_lem :
    (k : NavKey) (s : Input)
    → IsInput s
    → s.count < queue_size
    → Typed s (inject_all (encode (nav k)) (set_state idle s)) (keys_of (nav k))
unfolding inject_all input_inject_byte push_escape_key push_escape_tilde escape_nav tilde_nav
    input_key_from_nav
nav_lem up s v room = press_tilde 0x101 s.esc_digit s v room
nav_lem down s v room = press_tilde 0x102 s.esc_digit s v room
nav_lem left s v room = press_tilde 0x103 s.esc_digit s v room
nav_lem right s v room = press_tilde 0x104 s.esc_digit s v room
nav_lem pgup s v room = press_tilde 0x105 b'5' s v room
nav_lem pgdn s v room = press_tilde 0x106 b'6' s v room
nav_lem home s v room = press_tilde 0x107 s.esc_digit s v room
nav_lem end_key s v room = press_tilde 0x108 s.esc_digit s v room
nav_lem insert s v room = press_tilde 0x109 b'2' s v room
nav_lem delete s v room = press_tilde 0x10a b'3' s v room

idle-IsInput : (s : Input) → IsInput s → IsInput (set_state idle s)
idle-IsInput s v = record {
  array = v.array;
  head = v.head;
  count = v.count;
  tail = v.tail;
  high_water = v.high_water;
}

length-contents : (s : Input) → length (contents s) ≡ s.count
length-contents s = length-window queue_size s.events (key_event 0) s.head s.count

length-map_key : (ks : List ℕ) → length (map key_event ks) ≡ length ks
length-map_key [] = refl
length-map_key (k ∷ ks) = ap suc (length-map_key ks)

map-append_key : (a b : List ℕ) → map key_event (a ++ b) ≡ map key_event a ++ map key_event b
map-append_key [] b = refl
map-append_key (k ∷ a) b = ap (λ l. key_event k ∷ l) (map-append_key a b)

-- Keys typed after keys.
Typed-trans : (s t u : Input) (a b : List ℕ) → Typed s t a → Typed t u b → Typed s u (a ++ b)
Typed-trans s t u a b h k = (
  k.0,
  k.1,
  k.2
      ∙ ap (λ (l : List InputEvent). l ++ map key_event b) h.2
      ∙ append_assoc (contents s) (map key_event a) (map key_event b)
      ∙ ap (λ (l : List InputEvent). contents s ++ l) (sym (map-append_key a b)),
)

Typed-count : (s t : Input) (a : List ℕ) → Typed s t a → t.count ≡ s.count + length a
Typed-count s t a h = omega (
  arith,
  length-contents s,
  length-contents t,
  ap length h.2,
  length-append (contents s) (map key_event a),
  length-map_key a,
)

stroke_lem :
    (k : Keystroke) (s : Input)
    → IsInput s
    → is_clear k ≡ true
    → s.count + length (keys_of k) ≤ queue_size
    → Typed s (inject_all (encode k) (set_state idle s)) (keys_of k)
unfolding inject_all input_inject_byte
stroke_lem (plain c) s v clear room =
    let other : (c == 0x1b) ≡ false = ground arith in
    rw other (press c (set_state idle s) (idle-IsInput s v) refl (omega arith))
stroke_lem (escaped c) s v clear room =
    let other : (c == 0x1b) ≡ false = ground arith in
    let no_bracket : (c == b'[') ≡ false = ground arith in
    let t = push_key_event 0x1b (set_state idle s) in
    let first = press 0x1b (set_state idle s) (idle-IsInput s v) refl (omega arith) in
    let n = Typed-count (set_state idle s) t (0x1b ∷ []) first in
    rw (no_bracket, other)
      (Typed-trans s t (push_key_event c t) (0x1b ∷ []) (c ∷ []) first
        (press c t first.0 first.1 (omega arith)))
stroke_lem (nav k) s v clear room = nav_lem k s v (omega arith)

inject_all-append :
    (a b : List ℕ) (s : Input) → inject_all (a ++ b) s ≡ inject_all b (inject_all a s)
unfolding inject_all
inject_all-append [] b s = refl
inject_all-append (c ∷ a) b s = inject_all-append a b (input_inject_byte c s)

-- Injecting the bytes that a terminal sends for a series of keystrokes, in a state with no open
-- sequence and with room for their keys, queues exactly their keys in order, and leaves no sequence
-- open. An escape key must not be followed by `[` or another escape.
pub inject_all_lem :
    (ks : List Keystroke) (s : Input)
    → IsInput s
    → s.esc_state ≡ idle
    → all_clear ks ≡ true
    → s.count + length (keys_of_all ks) ≤ queue_size
    → let s' = inject_all (encode_all ks) s in
      IsInput s'
      × (s'.esc_state ≡ idle)
      × (contents s' ≡ contents s ++ map key_event (keys_of_all ks))
unfolding inject_all
inject_all_lem [] s v i clear room = (v, i, sym (append-nil (contents s)))
inject_all_lem (k ∷ ks) s v i clear room =
    let n = length-append (keys_of k) (keys_of_all ks) in
    let settled : s ≡ set_state idle s = ap (λ e. set_state e s) i in
    let t = inject_all (encode k) s in
    let here : Typed s t (keys_of k) =
      subst (λ u. Typed s (inject_all (encode k) u) (keys_of k)) (sym settled)
        (stroke_lem k s v (ground arith) (omega arith)) in
    let c = Typed-count s t (keys_of k) here in
    let rest = inject_all_lem ks t here.0 here.1 (ground arith) (omega arith) in
    subst (λ u. Typed s u (keys_of k ++ keys_of_all ks))
      (sym (inject_all-append (encode k) (encode_all ks) s))
      (Typed-trans s t (inject_all (encode_all ks) t) (keys_of k) (keys_of_all ks) here rest)
