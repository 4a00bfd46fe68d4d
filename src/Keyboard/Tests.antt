-- ===== src/Keyboard/Tests.antt =====
-- The theorems on typing, on a machine that only ever has the scancode of `h`.
use if2230_2023_hexos.Prelude.{ℕ, ◌<◌, ◌≡◌, refl, List, [], ◌∷◌, bytes_of, arith}
use if2230_2023_hexos.Ports.{Bus}
use if2230_2023_hexos.Keyboard.Map.{keyboard_scancode_1_to_ascii_map, length}
use if2230_2023_hexos.Framebuffer.Cursor.{position}
use if2230_2023_hexos.Tests.{Vga, vga_bus, vga_card, powered_on}
use if2230_2023_hexos.Keyboard.Erase.{backspace-character}
use if2230_2023_hexos.Keyboard.Echo.{with_char, with_text, type_keys-Echoed}
use if2230_2023_hexos.Keyboard.Arrows.{move_cursor-Moved}
use if2230_2023_hexos.Keyboard.{move_cursor, Machine, get_keyboard_buffer}
use if2230_2023_hexos.Keyboard.Keystroke.{IsCharacter, keystroke}
use if2230_2023_hexos.Keyboard.Typing.{AreCharacters, characters, type_keys}
use if2230_2023_hexos.Keyboard.Enter.{enter, get_keyboard_buffer-enter}

abbrev silent_bus : Bus
silent_bus = record {
  Devices = ℕ;
  out = λ port v d. d;
  in_byte = λ port d. (0x23, d);
  in16 = λ port d. (0, d);
  out16 = λ port v d. d;
}

abbrev pub waiting : Machine ℕ
waiting = record {
  keyboard = record {
    read_extended_mode = 0;
    keyboard_input_on = 1;
    buffer_index = 0;
    keyboard_buffer = λ a. 7;
    last_key_pressed = 0;
    make_code = 0;
  };
  screen = λ a. 0;
  devices = 0;
}

-- The keys h, e and x.
abbrev pub hex_keys : List ℕ
hex_keys = 0x23 ∷ 0x12 ∷ 0x2D ∷ []

key_h-IsCharacter : IsCharacter 0x23
unfolding keyboard_scancode_1_to_ascii_map bytes_of
key_h-IsCharacter = record {
  some_character = omega arith;
  not_line_feed = omega arith;
  not_backspace = omega arith;
}

key_e-IsCharacter : IsCharacter 0x12
unfolding keyboard_scancode_1_to_ascii_map bytes_of
key_e-IsCharacter = record {
  some_character = omega arith;
  not_line_feed = omega arith;
  not_backspace = omega arith;
}

key_x-IsCharacter : IsCharacter 0x2D
unfolding keyboard_scancode_1_to_ascii_map bytes_of
key_x-IsCharacter = record {
  some_character = omega arith;
  not_line_feed = omega arith;
  not_backspace = omega arith;
}

pub hex_keys-AreCharacters : AreCharacters hex_keys
hex_keys-AreCharacters = (key_h-IsCharacter, (key_e-IsCharacter, (key_x-IsCharacter, tt)))

get_keyboard_buffer-enter_example :
    let k = (keystroke silent_bus enter (type_keys silent_bus hex_keys waiting)).keyboard in
    (k.keyboard_input_on ≡ 0)
    × (k.buffer_index ≡ 0)
    × ((a : ℕ)
        → a < length (characters hex_keys)
        → get_keyboard_buffer (λ i. 0) k a ≡ bytes_of (characters hex_keys) a)
    × (get_keyboard_buffer (λ i. 0) k (length (characters hex_keys)) ≡ 0)
get_keyboard_buffer-enter_example =
    get_keyboard_buffer-enter silent_bus hex_keys waiting (λ i. 0) (omega arith) refl
      hex_keys-AreCharacters (omega arith)

-- With the card, and the cursor in the corner.
abbrev at_corner : Machine Vga
at_corner = record { keyboard = waiting.keyboard; screen = waiting.screen; devices = powered_on }

type_keys-Echoed_example :
    let m' = type_keys vga_bus hex_keys at_corner in
    ((x : ℕ) → m'.screen x ≡ with_text (characters hex_keys) 0 at_corner.screen x)
    × (position vga_bus vga_card m'.devices ≡ 3)
unfolding vga_card
type_keys-Echoed_example =
    type_keys-Echoed vga_bus vga_card hex_keys at_corner (omega arith) hex_keys-AreCharacters
      (omega arith)

move_cursor-Moved_example :
    let m' = move_cursor vga_bus 0x4D at_corner in
    (position vga_bus vga_card m'.devices ≡ 0)
    × (position vga_bus vga_card m'.devices < 2000)
    × (m'.screen ≡ at_corner.screen)
    × (m'.keyboard ≡ at_corner.keyboard)
unfolding vga_card
move_cursor-Moved_example =
    move_cursor-Moved vga_bus vga_card 0x4D at_corner (omega arith) (omega arith)

backspace-character_example :
    let m' = keystroke vga_bus 0x0E (keystroke vga_bus 0x23 at_corner) in
    ((x : ℕ) → m'.screen x ≡ with_char b' ' 0 at_corner.screen x)
    × (position vga_bus vga_card m'.devices ≡ 0)
    × (m'.keyboard.buffer_index ≡ 0)
    × ((a : ℕ) → a < 0 → m'.keyboard.keyboard_buffer a ≡ at_corner.keyboard.keyboard_buffer a)
unfolding vga_card
backspace-character_example =
    backspace-character vga_bus vga_card 0x23 at_corner (omega arith) key_h-IsCharacter
      (omega arith) (omega arith)
