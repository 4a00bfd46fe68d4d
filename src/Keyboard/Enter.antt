-- ===== src/Keyboard/Enter.antt =====
-- keyboard.c: a line that is typed and ended, as `get_keyboard_buffer` delivers it.
use if2230_2023_hexos.Prelude.{
  ℕ, ◌<◌, ◌≡◌, ◌≢◌, refl, ◌∙◌, inl, inr, false, true, ◌==◌, Bool-cases, List, Buf, bytes_of,
  store_lem, arith,
}
use if2230_2023_hexos.Stdmem.Copy.{memcpy_lem}
use if2230_2023_hexos.Ports.{Bus}
use if2230_2023_hexos.Keyboard.Map.{keyboard_scancode_1_to_ascii_map, length}
use if2230_2023_hexos.Keyboard.{
  KeyboardDriverState, Machine, end_line, keyboard_state_deactivate, get_keyboard_buffer,
}
use if2230_2023_hexos.Keyboard.Line.{start_effect, scancode_effect}
use if2230_2023_hexos.Keyboard.Keystroke.{
  released, keystroke, scancode_effect-press, keyboard-keystroke, map-released, start_effect-on,
  start_effect-index, start_effect-before,
}
use if2230_2023_hexos.Keyboard.Typing.{type_keys, AreCharacters, characters, Typed, type_keys-Typed}

abbrev pub enter : ℕ
enter = 0x1C

pub map-enter : keyboard_scancode_1_to_ascii_map enter ≡ 10
unfolding keyboard_scancode_1_to_ascii_map bytes_of
map-enter = refl

-- The line is ended behind its `k.buffer_index` characters.
record Ended (k k' : KeyboardDriverState) : Type 0 where
  off : k'.keyboard_input_on ≡ 0
  index : k'.buffer_index ≡ 0
  here : k'.keyboard_buffer k.buffer_index ≡ 0
  before : (a : ℕ) → a < k.buffer_index → k'.keyboard_buffer a ≡ k.keyboard_buffer a

scancode_effect-feed :
    (k : KeyboardDriverState)
    → k.keyboard_input_on ≢ 0
    → k.make_code ≢ 0
    → k.last_key_pressed ≡ 10
    → scancode_effect (released enter) k ≡ record (end_line (start_effect k)) { make_code = 0 }
scancode_effect-feed k on made feed =
    let accepts : (k.keyboard_input_on == 0) ≡ false = ground arith in
    let down : (k.make_code == 0) ≡ false = ground arith in
    let is_feed : (k.last_key_pressed == 10) ≡ true = ground arith in
    elim (Bool-cases (k.buffer_index == 0)) [
      | inl e ↦ rw (accepts, map-released enter, e, down, is_feed) refl
      | inr e ↦ rw (accepts, map-released enter, e, down, is_feed) refl
    ]

end_line-Ended :
    (k : KeyboardDriverState)
    → Ended k
        (record (end_line
          (start_effect (record (start_effect k) { last_key_pressed = 10; make_code = 1 }))) {
            make_code = 0;
          })
unfolding end_line keyboard_state_deactivate
end_line-Ended k =
    let t : KeyboardDriverState = record (start_effect k) {
      last_key_pressed = 10;
      make_code = 1;
    } in
    let index_t : t.buffer_index ≡ k.buffer_index = start_effect-index k in
    let index_u : (start_effect t).buffer_index ≡ k.buffer_index = start_effect-index t ∙ index_t in
    record {
      off = refl;
      index = refl;
      here = ground (
        arith,
        store_lem (start_effect t).keyboard_buffer (start_effect t).buffer_index 0 k.buffer_index,
      );
      before = λ a l. ground (
        arith,
        store_lem (start_effect t).keyboard_buffer (start_effect t).buffer_index 0 a,
        start_effect-before t a (ground arith),
        start_effect-before k a l,
      );
    }

keystroke-Ended :
    (bus : Bus) (m : Machine bus.Devices)
    → m.keyboard.keyboard_input_on ≢ 0
    → Ended m.keyboard (keystroke bus enter m).keyboard
keystroke-Ended bus m on =
    let k = m.keyboard in
    let pressed = record (start_effect k) { last_key_pressed = 10; make_code = 1 } in
    let still_on : pressed.keyboard_input_on ≢ 0 = ground (arith, start_effect-on k) in
    let press : scancode_effect enter k ≡ pressed =
      rw (scancode_effect-press enter k on (ground (arith, map-enter)), map-enter) refl in
    rw
      (
        keyboard-keystroke bus enter m,
        press,
        scancode_effect-feed pressed still_on (omega arith) refl,
      )
      (end_line-Ended k)

pub keystroke-off :
    (bus : Bus) (m : Machine bus.Devices)
    → m.keyboard.keyboard_input_on ≢ 0
    → (keystroke bus enter m).keyboard.keyboard_input_on ≡ 0
keystroke-off bus m on = (keystroke-Ended bus m on).off

-- If the driver accepts input and its line is empty, then after fewer than 256 characters and the
-- enter key it accepts no more, its line is empty again, and `get_keyboard_buffer` delivers exactly
-- the characters typed, in order, with a zero behind them.
pub get_keyboard_buffer-enter :
    (bus : Bus) (scancodes : List ℕ) (m : Machine bus.Devices) (buf : Buf)
    → m.keyboard.keyboard_input_on ≢ 0
    → m.keyboard.buffer_index ≡ 0
    → AreCharacters scancodes
    → length (characters scancodes) < 256
    → let k = (keystroke bus enter (type_keys bus scancodes m)).keyboard in
      (k.keyboard_input_on ≡ 0)
      × (k.buffer_index ≡ 0)
      × ((a : ℕ)
          → a < length (characters scancodes)
          → get_keyboard_buffer buf k a ≡ bytes_of (characters scancodes) a)
      × (get_keyboard_buffer buf k (length (characters scancodes)) ≡ 0)
unfolding get_keyboard_buffer
get_keyboard_buffer-enter bus scancodes m buf on empty keys small =
    let line : Typed (characters scancodes) m.keyboard (type_keys bus scancodes m).keyboard =
      type_keys-Typed bus scancodes m on keys (ground arith) in
    let k = (keystroke bus enter (type_keys bus scancodes m)).keyboard in
    let end : Ended (type_keys bus scancodes m).keyboard k =
      keystroke-Ended bus (type_keys bus scancodes m) (ground (arith, line.on)) in
    let index : (type_keys bus scancodes m).keyboard.buffer_index ≡ length (characters scancodes) =
      ground (arith, line.index) in
    (
      end.off,
      end.index,
      λ a l. ground (
        arith,
        memcpy_lem buf 0 k.keyboard_buffer 0 256 a,
        end.before a (ground arith),
        line.typed a l,
      ),
      ground (
        arith,
        memcpy_lem buf 0 k.keyboard_buffer 0 256 (length (characters scancodes)),
        end.here,
      ),
    )
