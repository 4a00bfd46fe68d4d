-- ===== src/Keyboard/Erase.antt =====
-- keyboard.c: the backspace key takes back a character.
use if2230_2023_hexos.Prelude.{
  ℕ, ◌+◌, ◌-◌, ◌*◌, ◌<◌, ◌≤◌, ◌≡◌, ◌≢◌, refl, sym, ◌∙◌, true, false, ◌==◌, bytes_of, arith,
}
use if2230_2023_hexos.Ports.{Bus}
use if2230_2023_hexos.Ports.Crtc.{Crtc}
use if2230_2023_hexos.Framebuffer.{framebuffer_get_cursor}
use if2230_2023_hexos.Framebuffer.Cells.{framebuffer_write_lem}
use if2230_2023_hexos.Framebuffer.Cursor.{position, position-set_cursor, get_cursor-position}
use if2230_2023_hexos.Keyboard.Map.{keyboard_scancode_1_to_ascii_map}
use if2230_2023_hexos.Keyboard.{
  KeyboardDriverState, Machine, erase_cell, backspace_key, handle_key, move_cursor, latch_key,
  handle_scancode, is_keyboard_blocking,
}
use if2230_2023_hexos.Keyboard.Line.{keyboard-handle_scancode}
use if2230_2023_hexos.Keyboard.Keystroke.{
  scancode_effect-press, released, map-released, IsCharacter, keystroke, Appended,
  scancode_effect-Appended, keyboard-keystroke, keystroke-on,
}
use if2230_2023_hexos.Keyboard.Echo.{with_char, press-still, keystroke-echo}

-- The last character of the line is taken back.
pub record Shortened (k k' : KeyboardDriverState) : Type 0 where
  pub index : k'.buffer_index ≡ k.buffer_index - 1
  pub line : (a : ℕ) → k'.keyboard_buffer a ≡ k.keyboard_buffer a

map-backspace : keyboard_scancode_1_to_ascii_map 0x0E ≡ 8
unfolding keyboard_scancode_1_to_ascii_map bytes_of
map-backspace = refl

module _ (bus : Bus) (card : Crtc bus) where
  abbrev at : Machine bus.Devices → ℕ
  at m = position bus card m.devices

  backspace_key-at :
      (m : Machine bus.Devices)
      → 0 < m.keyboard.buffer_index
      → 0 < at m
      → at m ≤ 80 * 255
      → at (backspace_key bus m) + 1 ≡ at m
  unfolding backspace_key erase_cell
  backspace_key-at m some place high =
      let (x, y, d) = framebuffer_get_cursor bus m.devices in
      ground (
        arith,
        get_cursor-position bus card m.devices,
        position-set_cursor bus card (x - 1) 79 d,
        position-set_cursor bus card x (y - 1) d,
      )

  backspace_key-screen :
      (m : Machine bus.Devices)
      → 0 < m.keyboard.buffer_index
      → 0 < at m
      → at m ≤ 80 * 255
      → (x : ℕ) → (backspace_key bus m).screen x ≡ with_char b' ' (at m - 1) m.screen x
  unfolding backspace_key erase_cell
  backspace_key-screen m some place high a =
      let (x, y, d) = framebuffer_get_cursor bus m.devices in
      let (row, col, _) = get_cursor-position bus card m.devices in
      ground (
        arith,
        row,
        col,
        framebuffer_write_lem (x - 1) 79 32 0x0F 0 m.screen a (omega (arith, row)) (omega arith),
        framebuffer_write_lem x (y - 1) 32 0x0F 0 m.screen a (omega (arith, row))
            (omega (arith, col)),
      )

  backspace_key-Shortened :
      (m : Machine bus.Devices)
      → 0 < m.keyboard.buffer_index
      → Shortened m.keyboard (backspace_key bus m).keyboard
  unfolding backspace_key erase_cell
  backspace_key-Shortened m some = record { index = ground arith; line = λ a. ground arith }

  -- The make code leaves a line that has begun.
  press-line :
      (scancode : ℕ) (m : Machine bus.Devices)
      → m.keyboard.keyboard_input_on ≢ 0
      → keyboard_scancode_1_to_ascii_map scancode ≢ 0
      → 0 < m.keyboard.buffer_index
      → let k = (handle_scancode bus scancode m).keyboard in
        (k.buffer_index ≡ m.keyboard.buffer_index)
        × ((a : ℕ) → k.keyboard_buffer a ≡ m.keyboard.keyboard_buffer a)
  press-line scancode m on key some =
      let begun : (m.keyboard.buffer_index == 0) ≡ false = ground arith in
      rw
        (
          keyboard-handle_scancode bus scancode m,
          scancode_effect-press scancode m.keyboard on key,
          begun,
        )
        (refl, λ a. refl)

  -- The break code of the backspace key.
  release-erase :
      (scancode : ℕ) (m : Machine bus.Devices)
      → m.keyboard.keyboard_input_on ≢ 0
      → m.keyboard.make_code ≢ 0
      → m.keyboard.last_key_pressed ≡ 8
      → 0 < m.keyboard.buffer_index
      → 0 < at m
      → at m ≤ 80 * 255
      → let m' = handle_scancode bus (released scancode) m in
        ((x : ℕ) → m'.screen x ≡ with_char b' ' (at m - 1) m.screen x)
        × (at m' + 1 ≡ at m)
        × Shortened m.keyboard m'.keyboard
  unfolding handle_scancode is_keyboard_blocking latch_key move_cursor handle_key
  release-erase scancode m on made back some place high =
      let accepts : (m.keyboard.keyboard_input_on == 0) ≡ false = ground arith in
      let pressed : (m.keyboard.make_code == 0) ≡ false = ground arith in
      let begun : (m.keyboard.buffer_index == 0) ≡ false = ground arith in
      let not_feed : (m.keyboard.last_key_pressed == 10) ≡ false = ground arith in
      let is_back : (m.keyboard.last_key_pressed == 8) ≡ true = ground arith in
      let right : (released scancode == 0x4D) ≡ false = ground arith in
      let left : (released scancode == 0x4B) ≡ false = ground arith in
      let up : (released scancode == 0x48) ≡ false = ground arith in
      let down : (released scancode == 0x50) ≡ false = ground arith in
      let line : Shortened m.keyboard (backspace_key bus m).keyboard =
        backspace_key-Shortened m some in
      rw (accepts, map-released scancode, begun, pressed, not_feed, is_back, right, left, up, down)
        (
          backspace_key-screen m some place high,
          backspace_key-at m some place high,
          record { index = line.index; line = line.line },
        )

  -- With the card behind the ports, if the driver accepts input, the line is shorter than 255 characters
  -- and the cursor stands in one of the rows of 80 cells that 8 bits count, then a character that is typed
  -- and the backspace key behind it leave the cursor and the line as they were, and of the screen only
  -- the character's cell has changed, to a blank.
  pub backspace-character :
      (scancode : ℕ) (m : Machine bus.Devices)
      → m.keyboard.keyboard_input_on ≢ 0
      → IsCharacter scancode
      → m.keyboard.buffer_index < 255
      → at m < 80 * 255
      → let m' = keystroke bus 0x0E (keystroke bus scancode m) in
        ((x : ℕ) → m'.screen x ≡ with_char b' ' (at m) m.screen x)
        × (at m' ≡ at m)
        × (m'.keyboard.buffer_index ≡ m.keyboard.buffer_index)
        × ((a : ℕ)
            → a < m.keyboard.buffer_index
            → m'.keyboard.keyboard_buffer a ≡ m.keyboard.keyboard_buffer a)
  backspace-character scancode m on key short high =
      let m1 : Machine bus.Devices = keystroke bus scancode m in
      let m2 : Machine bus.Devices = handle_scancode bus 0x0E m1 in
      let (echo, next) = keystroke-echo bus card scancode m on key high in
      let typed : Appended (keyboard_scancode_1_to_ascii_map scancode) m.keyboard m1.keyboard =
        rw (keyboard-keystroke bus scancode m)
          (scancode_effect-Appended scancode m.keyboard on key) in
      let longer : m1.keyboard.buffer_index ≡ m.keyboard.buffer_index + 1 =
        omega (arith, typed.index) in
      let on1 : m1.keyboard.keyboard_input_on ≢ 0 =
        λ e. on (sym (keystroke-on bus scancode m on key) ∙ e) in
      let is_key : keyboard_scancode_1_to_ascii_map 0x0E ≢ 0 = λ e. omega (arith, map-backspace) in
      let (same, still, last, made, on2) = press-still bus card 0x0E m1 on1 is_key in
      let (index, line) = press-line 0x0E m1 on1 is_key (omega (arith, longer)) in
      let (erased, back, rest) =
        release-erase 0x0E m2 on2 made (last ∙ map-backspace) (omega (arith, longer, index))
          (omega (arith, still, next)) (omega (arith, still, next)) in
      (
        λ x. ground (arith, erased x, still, next, same x, echo x),
        omega (arith, back, still, next),
        omega (arith, rest.index, index, longer),
        λ a l. rest.line a ∙ line a ∙ typed.before a l,
      )
