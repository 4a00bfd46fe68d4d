-- ===== src/Keyboard/Line.antt =====
-- What the ISR does to the driver's state, apart from the screen and the cursor.
use if2230_2023_hexos.Prelude.{
  ℕ, ◌-◌, ◌≡◌, refl, ap, ◌∙◌, not, inl, inr, Bool-cases, ltb, ◌==◌, if◌then◌else◌, arith,
}
use if2230_2023_hexos.Stdmem.{memset}
use if2230_2023_hexos.Ports.{Bus}
use if2230_2023_hexos.Keyboard.Map.{keyboard_scancode_1_to_ascii_map}
use if2230_2023_hexos.Keyboard.{
  KeyboardDriverState, Machine, end_line, put_char, enter_key, erase_cell, backspace_key, other_key,
  handle_key, move_right, move_left, stay, move_cursor, start_line, latch_key, handle_scancode,
  keyboard_isr, is_keyboard_blocking,
}

-- One key that is released, on the driver's state.
abbrev pub key_effect : KeyboardDriverState → KeyboardDriverState
key_effect k =
    if k.last_key_pressed == 10
    then end_line k
    else if k.last_key_pressed == 8
    then (if ltb 0 k.buffer_index then record k { buffer_index = k.buffer_index - 1 } else k)
    else put_char k

abbrev pub start_effect : KeyboardDriverState → KeyboardDriverState
start_effect k =
    if k.buffer_index == 0
    then record k { keyboard_buffer = memset k.keyboard_buffer 0 0 256 }
    else k

abbrev pub latch_effect : ℕ → KeyboardDriverState → KeyboardDriverState
latch_effect c k =
    if not (c == 0)
    then record k { last_key_pressed = c; make_code = 1 }
    else if not (k.make_code == 0)
    then record (key_effect k) { make_code = 0 }
    else k

-- One scancode, on the driver's state.
abbrev pub scancode_effect : ℕ → KeyboardDriverState → KeyboardDriverState
scancode_effect scancode k =
    if k.keyboard_input_on == 0
    then record k { buffer_index = 0 }
    else latch_effect (keyboard_scancode_1_to_ascii_map scancode) (start_effect k)

module _ (bus : Bus) (m : Machine bus.Devices) where
  keyboard-enter_key : (enter_key bus m).keyboard ≡ end_line m.keyboard
  unfolding enter_key
  keyboard-enter_key = refl

  keyboard-erase_cell : (x y : ℕ) → (erase_cell bus x y m).keyboard ≡ m.keyboard
  unfolding erase_cell
  keyboard-erase_cell x y = ground arith

  keyboard-other_key : (other_key bus m).keyboard ≡ put_char m.keyboard
  unfolding other_key
  keyboard-other_key = ground arith

  keyboard-move_right : (move_right bus m).keyboard ≡ m.keyboard
  unfolding move_right
  keyboard-move_right = ground arith

  keyboard-move_left : (move_left bus m).keyboard ≡ m.keyboard
  unfolding move_left
  keyboard-move_left = ground arith

  keyboard-stay : (stay bus m).keyboard ≡ m.keyboard
  unfolding stay
  keyboard-stay = refl

module _ (bus : Bus) where
  keyboard-backspace_key :
      (m : Machine bus.Devices)
      → (backspace_key bus m).keyboard ≡ (
          if ltb 0 m.keyboard.buffer_index
          then record (m.keyboard) { buffer_index = m.keyboard.buffer_index - 1 }
          else m.keyboard)
  unfolding backspace_key
  keyboard-backspace_key m = elim (Bool-cases (ltb 0 m.keyboard.buffer_index)) [
    | inl some_left ↦ rw some_left (keyboard-erase_cell bus _ _ _)
    | inr none_left ↦ rw none_left
  ]

  keyboard-handle_key :
      (m : Machine bus.Devices) → (handle_key bus m).keyboard ≡ key_effect m.keyboard
  unfolding handle_key
  keyboard-handle_key m = elim (Bool-cases (m.keyboard.last_key_pressed == 10)) [
    | inl line_feed ↦ rw line_feed (keyboard-enter_key bus m)
    | inr other ↦ elim (Bool-cases (m.keyboard.last_key_pressed == 8)) [
      | inl back ↦ rw (other, back) (keyboard-backspace_key m)
      | inr key ↦ rw (other, key) (keyboard-other_key bus m)
    ]
  ]

  keyboard-move_cursor :
      (scancode : ℕ) (m : Machine bus.Devices) → (move_cursor bus scancode m).keyboard ≡ m.keyboard
  unfolding move_cursor
  keyboard-move_cursor scancode m =
      ground (arith, keyboard-move_right bus m, keyboard-move_left bus m, keyboard-stay bus m)

  keyboard-latch_key :
      (c : ℕ) (m : Machine bus.Devices) → (latch_key bus c m).keyboard ≡ latch_effect c m.keyboard
  unfolding latch_key
  keyboard-latch_key c m = elim (Bool-cases (c == 0)) [
    | inr pressed ↦ rw pressed
    | inl released ↦ elim (Bool-cases (m.keyboard.make_code == 0)) [
      | inl idle ↦ rw (released, idle)
      | inr made ↦
          rw (released, made)
            (ap (λ (k : KeyboardDriverState). record k { make_code = 0 }) (keyboard-handle_key m))
    ]
  ]

  keyboard-start_line :
      (m : Machine bus.Devices) → (start_line bus m).keyboard ≡ start_effect m.keyboard
  keyboard-start_line m = elim (Bool-cases (m.keyboard.buffer_index == 0)) [
    | inl empty ↦ rw empty
    | inr some ↦ rw some
  ]

  -- A scancode changes the driver's state alike, whatever the devices answer and the screen holds.
  pub keyboard-handle_scancode :
      (scancode : ℕ) (m : Machine bus.Devices)
      → (handle_scancode bus scancode m).keyboard ≡ scancode_effect scancode m.keyboard
  unfolding handle_scancode is_keyboard_blocking
  keyboard-handle_scancode scancode m = elim (Bool-cases (m.keyboard.keyboard_input_on == 0)) [
    | inl off ↦ rw off
    | inr on ↦
        let c = keyboard_scancode_1_to_ascii_map scancode in
        let started = start_line bus m in
        rw on (
          keyboard-move_cursor scancode (latch_key bus c started)
          ∙ keyboard-latch_key c started
          ∙ ap (latch_effect c) {x = started.keyboard} {y = start_effect m.keyboard}
              (keyboard-start_line m))
  ]

  -- Whatever the devices do and the screen holds, one call of the service routine changes the driver's
  -- state as a function of that state and of the byte at port 0x60: with the input off the line is
  -- dropped; otherwise an empty line is cleared, a make code is kept, and the next code without a
  -- character acts on the kept one (a line feed ends the line with a zero and switches the input off, a
  -- backspace drops a character, any other is appended).
  pub keyboard-keyboard_isr :
      (m : Machine bus.Devices)
      → (keyboard_isr bus m).keyboard ≡ scancode_effect (bus.in_byte 0x60 m.devices).0 m.keyboard
  unfolding keyboard_isr
  keyboard-keyboard_isr m = elim (Bool-cases (m.keyboard.keyboard_input_on == 0)) [
    | inl off ↦ rw off refl
    | inr on ↦ rw on (
        keyboard-handle_scancode (bus.in_byte 0x60 m.devices).0
          (record m { devices = (bus.in_byte 0x60 m.devices).1 })
        ∙ rw on refl)
  ]
