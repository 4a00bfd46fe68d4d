-- ===== src/Keyboard/Echo.antt =====
-- keyboard.c: what is typed appears on the screen.
use if2230_2023_hexos.Prelude.{
  ℕ, ◌+◌, ◌*◌, ◌%◌, ◌<◌, ◌≤◌, ◌≡◌, ◌≢◌, refl, sym, ap, ◌∙◌, inl, inr, false, ◌==◌, if◌then◌else◌,
  Bool-cases, List, [], ◌∷◌, Buf, bytes_of, eq_of_beq, arith,
}
use if2230_2023_hexos.Stdmem.{memset}
use if2230_2023_hexos.Ports.{Bus}
use if2230_2023_hexos.Ports.Crtc.{Crtc}
use if2230_2023_hexos.Framebuffer.{framebuffer_get_cursor}
use if2230_2023_hexos.Framebuffer.Cells.{framebuffer_write_lem}
use if2230_2023_hexos.Framebuffer.Cursor.{position, position-set_cursor, get_cursor-position}
use if2230_2023_hexos.Keyboard.Map.{keyboard_scancode_1_to_ascii_map, length}
use if2230_2023_hexos.Keyboard.{
  Machine, other_key, handle_key, move_cursor, latch_key, handle_scancode, is_keyboard_blocking,
}
use if2230_2023_hexos.Keyboard.Keystroke.{
  released, map-released, IsCharacter, keystroke, keystroke-on,
}
use if2230_2023_hexos.Keyboard.Typing.{type_keys, AreCharacters, characters}

-- White on black in cell `pos`.
abbrev pub with_char : ℕ → ℕ → Buf → Buf
with_char c pos screen x =
    if x == 2 * pos then c % 256 else if x == 2 * pos + 1 then 0x0F else screen x

-- The characters one after the other, from cell `pos` on.
abbrev pub with_text : List ℕ → ℕ → Buf → Buf
with_text [] pos screen = screen
with_text (c ∷ cs) pos screen = with_text cs (pos + 1) (with_char c pos screen)

with_text-congr :
    (cs : List ℕ) (pos : ℕ) (screen screen' : Buf)
    → ((x : ℕ) → screen' x ≡ screen x)
    → (x : ℕ) → with_text cs pos screen' x ≡ with_text cs pos screen x
with_text-congr [] pos screen screen' same x = same x
with_text-congr (c ∷ cs) pos screen screen' same x =
    with_text-congr cs (pos + 1) (with_char c pos screen) (with_char c pos screen')
      (λ y. ground (arith, same y)) x

other_code :
    (scancode k : ℕ)
    → keyboard_scancode_1_to_ascii_map scancode ≢ 0
    → keyboard_scancode_1_to_ascii_map k ≡ 0
    → (scancode == k) ≡ false
other_code scancode k some none = elim (Bool-cases (scancode == k)) [
  | inl same ↦
      absurd
        (some (ap (λ i. keyboard_scancode_1_to_ascii_map i) (eq_of_beq scancode k same) ∙ none))
  | inr apart ↦ apart
]

-- No character's code is that of a cursor key.
map-arrow :
    (scancode : ℕ)
    → keyboard_scancode_1_to_ascii_map scancode ≢ 0
    → ((scancode == 0x4D) ≡ false)
      × ((scancode == 0x4B) ≡ false)
      × ((scancode == 0x48) ≡ false)
      × ((scancode == 0x50) ≡ false)
unfolding keyboard_scancode_1_to_ascii_map bytes_of
map-arrow scancode some = (
  other_code scancode 0x4D some refl,
  other_code scancode 0x4B some refl,
  other_code scancode 0x48 some refl,
  other_code scancode 0x50 some refl,
)

module _ (bus : Bus) (card : Crtc bus) where
  abbrev at : Machine bus.Devices → ℕ
  at m = position bus card m.devices

  other_key-at : (m : Machine bus.Devices) → at m < 80 * 255 → at (other_key bus m) ≡ at m + 1
  unfolding other_key
  other_key-at m high =
      let (x, y, d) = framebuffer_get_cursor bus m.devices in
      ground (
        arith,
        get_cursor-position bus card m.devices,
        position-set_cursor bus card (x + 1) 0 d,
        position-set_cursor bus card x (y + 1) d,
      )

  other_key-screen :
      (m : Machine bus.Devices)
      → at m < 80 * 255
      → (x : ℕ)
      → (other_key bus m).screen x ≡ with_char m.keyboard.last_key_pressed (at m) m.screen x
  unfolding other_key
  other_key-screen m high a =
      let (x, y, d) = framebuffer_get_cursor bus m.devices in
      let (row, col, _) = get_cursor-position bus card m.devices in
      ground (
        arith,
        row,
        col,
        framebuffer_write_lem x y m.keyboard.last_key_pressed 0x0F 0 m.screen a (omega (arith, row))
            (omega (arith, col)),
      )

  -- The make code leaves the screen and the cursor.
  pub press-still :
      (scancode : ℕ) (m : Machine bus.Devices)
      → m.keyboard.keyboard_input_on ≢ 0
      → keyboard_scancode_1_to_ascii_map scancode ≢ 0
      → let m' = handle_scancode bus scancode m in
        ((x : ℕ) → m'.screen x ≡ m.screen x)
        × (at m' ≡ at m)
        × (m'.keyboard.last_key_pressed ≡ keyboard_scancode_1_to_ascii_map scancode)
        × (m'.keyboard.make_code ≢ 0)
        × (m'.keyboard.keyboard_input_on ≢ 0)
  unfolding handle_scancode is_keyboard_blocking latch_key move_cursor
  press-still scancode m on some =
      let accepts : (m.keyboard.keyboard_input_on == 0) ≡ false = ground arith in
      let key : (keyboard_scancode_1_to_ascii_map scancode == 0) ≡ false = ground arith in
      let (right, left, up, down) = map-arrow scancode some in
      rw (accepts, key, right, left, up, down)
        (elim (Bool-cases (m.keyboard.buffer_index == 0)) [
          | inl first ↦ rw first ((λ x. refl), refl, refl, (λ e. omega arith), on)
          | inr more ↦ rw more ((λ x. refl), refl, refl, (λ e. omega arith), on)
        ])

  abbrev cleared : Machine bus.Devices → Machine bus.Devices
  cleared m = record m {
    keyboard = record (m.keyboard) { keyboard_buffer = memset m.keyboard.keyboard_buffer 0 0 256 };
  }

  -- The break code writes the character.
  release-echo :
      (scancode : ℕ) (m : Machine bus.Devices)
      → m.keyboard.keyboard_input_on ≢ 0
      → m.keyboard.make_code ≢ 0
      → m.keyboard.last_key_pressed ≢ 10
      → m.keyboard.last_key_pressed ≢ 8
      → at m < 80 * 255
      → let m' = handle_scancode bus (released scancode) m in
        ((x : ℕ) → m'.screen x ≡ with_char m.keyboard.last_key_pressed (at m) m.screen x)
        × (at m' ≡ at m + 1)
  unfolding handle_scancode is_keyboard_blocking latch_key move_cursor handle_key
  release-echo scancode m on made no_feed no_back high =
      let accepts : (m.keyboard.keyboard_input_on == 0) ≡ false = ground arith in
      let pressed : (m.keyboard.make_code == 0) ≡ false = ground arith in
      let not_feed : (m.keyboard.last_key_pressed == 10) ≡ false = ground arith in
      let not_back : (m.keyboard.last_key_pressed == 8) ≡ false = ground arith in
      let right : (released scancode == 0x4D) ≡ false = ground arith in
      let left : (released scancode == 0x4B) ≡ false = ground arith in
      let up : (released scancode == 0x48) ≡ false = ground arith in
      let down : (released scancode == 0x50) ≡ false = ground arith in
      elim (Bool-cases (m.keyboard.buffer_index == 0)) [
        | inl first ↦
            rw
              (
                accepts,
                map-released scancode,
                first,
                pressed,
                not_feed,
                not_back,
                right,
                left,
                up,
                down,
              )
              (other_key-screen (cleared m) high, other_key-at (cleared m) high)
        | inr more ↦
            rw
              (
                accepts,
                map-released scancode,
                more,
                pressed,
                not_feed,
                not_back,
                right,
                left,
                up,
                down,
              )
              (other_key-screen m high, other_key-at m high)
      ]

  -- A key that is pressed and released writes its character and moves the cursor on.
  pub keystroke-echo :
      (scancode : ℕ) (m : Machine bus.Devices)
      → m.keyboard.keyboard_input_on ≢ 0
      → IsCharacter scancode
      → at m < 80 * 255
      → let m' = keystroke bus scancode m in
        ((x : ℕ)
          → m'.screen x ≡ with_char (keyboard_scancode_1_to_ascii_map scancode) (at m) m.screen x)
        × (at m' ≡ at m + 1)
  keystroke-echo scancode m on key high =
      let m1 : Machine bus.Devices = handle_scancode bus scancode m in
      let (same, still, last, made, on1) = press-still scancode m on key.some_character in
      let (echo, next) =
        release-echo scancode m1 on1 made (λ e. key.not_line_feed (sym last ∙ e))
          (λ e. key.not_backspace (sym last ∙ e)) (omega (arith, still)) in
      (λ x. ground (arith, echo x, last, still, same x), omega (arith, next, still))

  -- With the card behind the ports, if the driver accepts input and the cursor stands in one of the rows
  -- of 80 cells that 8 bits count, then characters that are typed one after the other (every code of the
  -- map but line feed and backspace, so also escape and tab), as long as they stay in those rows, stand on the screen from the cursor on, in order and white on black, no other
  -- cell has changed, and the cursor is behind them.
  pub type_keys-Echoed :
      (scancodes : List ℕ) (m : Machine bus.Devices)
      → m.keyboard.keyboard_input_on ≢ 0
      → AreCharacters scancodes
      → at m + length (characters scancodes) ≤ 80 * 255
      → let m' = type_keys bus scancodes m in
        ((x : ℕ) → m'.screen x ≡ with_text (characters scancodes) (at m) m.screen x)
        × (at m' ≡ at m + length (characters scancodes))
  unfolding type_keys
  type_keys-Echoed [] m on keys room = (λ x. refl, omega arith)
  type_keys-Echoed (scancode ∷ scancodes) m on (key, keys) room =
      let c : ℕ = keyboard_scancode_1_to_ascii_map scancode in
      let m1 : Machine bus.Devices = keystroke bus scancode m in
      let (echo, next) = keystroke-echo scancode m on key (omega arith) in
      let (rest, place) =
        type_keys-Echoed scancodes m1 (λ e. on (sym (keystroke-on bus scancode m on key) ∙ e)) keys
          (omega (arith, next)) in
      (
        λ x.
            rest x
            ∙ ap (λ pos. with_text (characters scancodes) pos m1.screen x) next
            ∙ with_text-congr (characters scancodes) (at m + 1) (with_char c (at m) m.screen)
                m1.screen echo x,
        omega (arith, place, next),
      )
