-- ===== src/Keyboard/Keystroke.antt =====
-- keyboard.c: a key that is pressed and released, for the driver's state.
use if2230_2023_hexos.Prelude.{
  ℕ, ◌+◌, ◌%◌, ◌<◌, ◌≡◌, ◌≢◌, refl, ap, ◌∙◌, inl, inr, false, Bool-cases, ◌==◌, store_lem, arith,
}
use if2230_2023_hexos.Ports.{Bus}
use if2230_2023_hexos.Keyboard.Map.{keyboard_scancode_1_to_ascii_map, map-beyond}
use if2230_2023_hexos.Keyboard.{KeyboardDriverState, Machine, put_char, handle_scancode}
use if2230_2023_hexos.Keyboard.Line.{start_effect, scancode_effect, keyboard-handle_scancode}

-- The break code that the keyboard sends when the key of a make code is released.
abbrev pub released : ℕ → ℕ
released scancode = scancode + 128

pub map-released : (scancode : ℕ) → keyboard_scancode_1_to_ascii_map (released scancode) ≡ 0
map-released scancode = map-beyond (scancode + 128) (omega arith)

-- A key that stands for a character and is neither a line feed nor a backspace.
pub record IsCharacter (scancode : ℕ) : Type 0 where
  pub some_character : keyboard_scancode_1_to_ascii_map scancode ≢ 0
  pub not_line_feed : keyboard_scancode_1_to_ascii_map scancode ≢ 10
  pub not_backspace : keyboard_scancode_1_to_ascii_map scancode ≢ 8

-- One key, pressed and released.
abbrev pub keystroke : (bus : Bus) → ℕ → Machine bus.Devices → Machine bus.Devices
keystroke bus scancode m = handle_scancode bus (released scancode) (handle_scancode bus scancode m)

-- `c` is appended to the line; nothing in front of it has changed.
pub record Appended (c : ℕ) (k k' : KeyboardDriverState) : Type 0 where
  pub on : k'.keyboard_input_on ≡ k.keyboard_input_on
  pub index : k'.buffer_index ≡ (k.buffer_index + 1) % 256
  pub here : k'.keyboard_buffer k.buffer_index ≡ c
  pub before : (a : ℕ) → a < k.buffer_index → k'.keyboard_buffer a ≡ k.keyboard_buffer a

pub scancode_effect-press :
    (scancode : ℕ) (k : KeyboardDriverState)
    → k.keyboard_input_on ≢ 0
    → keyboard_scancode_1_to_ascii_map scancode ≢ 0
    → scancode_effect scancode k ≡ record (start_effect k) {
      last_key_pressed = keyboard_scancode_1_to_ascii_map scancode;
      make_code = 1;
    }
scancode_effect-press scancode k on some =
    let accepts : (k.keyboard_input_on == 0) ≡ false = ground arith in
    let key : (keyboard_scancode_1_to_ascii_map scancode == 0) ≡ false = ground arith in
    rw (accepts, key) refl

scancode_effect-release :
    (scancode : ℕ) (k : KeyboardDriverState)
    → k.keyboard_input_on ≢ 0
    → k.make_code ≢ 0
    → k.last_key_pressed ≢ 10
    → k.last_key_pressed ≢ 8
    → scancode_effect (released scancode) k ≡ record (put_char (start_effect k)) { make_code = 0 }
scancode_effect-release scancode k on made no_feed no_back =
    let accepts : (k.keyboard_input_on == 0) ≡ false = ground arith in
    let down : (k.make_code == 0) ≡ false = ground arith in
    let not_feed : (k.last_key_pressed == 10) ≡ false = ground arith in
    let not_back : (k.last_key_pressed == 8) ≡ false = ground arith in
    elim (Bool-cases (k.buffer_index == 0)) [
      | inl e ↦ rw (accepts, map-released scancode, e, down, not_feed, not_back) refl
      | inr e ↦ rw (accepts, map-released scancode, e, down, not_feed, not_back) refl
    ]

pub start_effect-on :
    (k : KeyboardDriverState) → (start_effect k).keyboard_input_on ≡ k.keyboard_input_on
start_effect-on k = ground arith

start_effect-last :
    (k : KeyboardDriverState) → (start_effect k).last_key_pressed ≡ k.last_key_pressed
start_effect-last k = ground arith

pub start_effect-index : (k : KeyboardDriverState) → (start_effect k).buffer_index ≡ k.buffer_index
start_effect-index k = ground arith

pub start_effect-before :
    (k : KeyboardDriverState) (a : ℕ)
    → a < k.buffer_index
    → (start_effect k).keyboard_buffer a ≡ k.keyboard_buffer a
start_effect-before k a l = let some : (k.buffer_index == 0) ≡ false = ground arith in rw some refl

put_char-Appended :
    (c : ℕ) (k : KeyboardDriverState)
    → Appended c k
        (record (put_char
          (start_effect (record (start_effect k) { last_key_pressed = c; make_code = 1 }))) {
            make_code = 0;
          })
unfolding put_char
put_char-Appended c k =
    let t : KeyboardDriverState = record (start_effect k) { last_key_pressed = c; make_code = 1 } in
    let index_t : t.buffer_index ≡ k.buffer_index = start_effect-index k in
    let index_u : (start_effect t).buffer_index ≡ k.buffer_index = start_effect-index t ∙ index_t in
    let last_u : (start_effect t).last_key_pressed ≡ c = start_effect-last t in
    record {
      on = start_effect-on t ∙ start_effect-on k;
      index = rw index_u refl;
      here = ground (
        arith,
        store_lem (start_effect t).keyboard_buffer (start_effect t).buffer_index
            (start_effect t).last_key_pressed k.buffer_index,
      );
      before = λ a l. ground (
        arith,
        store_lem (start_effect t).keyboard_buffer (start_effect t).buffer_index
            (start_effect t).last_key_pressed a,
        start_effect-before t a (ground arith),
        start_effect-before k a l,
      );
    }

pub scancode_effect-Appended :
    (scancode : ℕ) (k : KeyboardDriverState)
    → k.keyboard_input_on ≢ 0
    → IsCharacter scancode
    → Appended
        (keyboard_scancode_1_to_ascii_map scancode)
        k
        (scancode_effect (released scancode) (scancode_effect scancode k))
scancode_effect-Appended scancode k on key =
    let c = keyboard_scancode_1_to_ascii_map scancode in
    let pressed = record (start_effect k) { last_key_pressed = c; make_code = 1 } in
    let still_on : pressed.keyboard_input_on ≢ 0 = ground (arith, start_effect-on k) in
    rw
      (
        scancode_effect-press scancode k on key.some_character,
        scancode_effect-release scancode pressed still_on (omega arith) key.not_line_feed
            key.not_backspace,
      )
      (put_char-Appended c k)

pub scancode_effect-on :
    (scancode : ℕ) (k : KeyboardDriverState)
    → k.keyboard_input_on ≢ 0
    → keyboard_scancode_1_to_ascii_map scancode ≢ 0
    → (scancode_effect scancode k).keyboard_input_on ≡ k.keyboard_input_on
scancode_effect-on scancode k on some =
    rw (scancode_effect-press scancode k on some) (start_effect-on k)

-- The driver's state sees a keystroke as its two scancodes.
pub keyboard-keystroke :
    (bus : Bus) (scancode : ℕ) (m : Machine bus.Devices)
    → (keystroke bus scancode m).keyboard
      ≡ scancode_effect (released scancode) (scancode_effect scancode m.keyboard)
keyboard-keystroke bus scancode m =
    keyboard-handle_scancode bus (released scancode) (handle_scancode bus scancode m)
    ∙ ap (scancode_effect (released scancode)) {x = (handle_scancode bus scancode m).keyboard}
        {y = scancode_effect scancode m.keyboard} (keyboard-handle_scancode bus scancode m)

pub keystroke-on :
    (bus : Bus) (scancode : ℕ) (m : Machine bus.Devices)
    → m.keyboard.keyboard_input_on ≢ 0
    → IsCharacter scancode
    → (keystroke bus scancode m).keyboard.keyboard_input_on ≡ m.keyboard.keyboard_input_on
keystroke-on bus scancode m on key =
    rw (keyboard-keystroke bus scancode m) (scancode_effect-Appended scancode m.keyboard on key).on
