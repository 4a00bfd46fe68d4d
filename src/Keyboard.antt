-- ===== src/Keyboard.antt =====
-- keyboard/keyboard.h and keyboard.c: the driver's state and the interrupt service routine. A
-- routine takes and returns the machine: the driver's state, the screen, and the devices.
pub mod Map
pub mod Line
pub mod View
pub mod Arrows
pub mod Acknowledge
pub mod Ps2
pub mod Keystroke
pub mod Typing
pub mod Echo
pub mod Erase
pub mod Enter
pub mod Codes
pub mod Tests
use if2230_2023_hexos.Prelude.{
  ℕ, ◌+◌, ◌-◌, ◌*◌, ◌/◌, ◌%◌, ◌&&◌, not, ltb, leb, ◌==◌, if◌then◌else◌, Buf, store,
}
use if2230_2023_hexos.Stdmem.{memset, memcpy}
use if2230_2023_hexos.Ports.{Bus}
use if2230_2023_hexos.Pic.{irq_keyboard, pic_ack}
use if2230_2023_hexos.Framebuffer.{
  framebuffer_write, framebuffer_set_cursor, framebuffer_get_cursor,
}
use Map.{keyboard_scancode_1_to_ascii_map}

abbrev pub keyboard_buffer_size : ℕ
keyboard_buffer_size = 256

-- `struct KeyboardDriverState`, and the two static variables of `keyboard_isr`.
pub record KeyboardDriverState : Type 0 where
  pub read_extended_mode : ℕ
  pub keyboard_input_on : ℕ
  pub buffer_index : ℕ
  pub keyboard_buffer : Buf
  pub last_key_pressed : ℕ
  pub make_code : ℕ

pub record Machine (D : Type 0) : Type 0 where
  pub keyboard : KeyboardDriverState
  pub screen : Buf
  pub devices : D

unfoldable pub keyboard_state_activate : KeyboardDriverState → KeyboardDriverState
keyboard_state_activate k = record k { keyboard_input_on = 1 }

unfoldable pub keyboard_state_deactivate : KeyboardDriverState → KeyboardDriverState
keyboard_state_deactivate k = record k { keyboard_input_on = 0 }

-- `get_keyboard_buffer(buf)`
unfoldable pub get_keyboard_buffer : Buf → KeyboardDriverState → Buf
get_keyboard_buffer buf k = memcpy buf 0 k.keyboard_buffer 0 keyboard_buffer_size

unfoldable pub is_keyboard_blocking : KeyboardDriverState → ℕ
is_keyboard_blocking k = k.keyboard_input_on

-- What the case of a line feed does to the driver's state.
unfoldable pub end_line : KeyboardDriverState → KeyboardDriverState
unfolding keyboard_state_deactivate
end_line k =
    keyboard_state_deactivate
      (record k { keyboard_buffer = store k.keyboard_buffer k.buffer_index 0; buffer_index = 0 })

-- What the default case does to it; `buffer_index` is an `uint8_t`.
unfoldable pub put_char : KeyboardDriverState → KeyboardDriverState
put_char k = record k {
  keyboard_buffer = store k.keyboard_buffer k.buffer_index k.last_key_pressed;
  buffer_index = (k.buffer_index + 1) % 256;
}

module _ (bus : Bus) where
  open bus use {Devices, in_byte}

  -- `framebuffer_set_cursor(x, y)` on the machine, with `uint8_t` arguments.
  abbrev set_cursor : ℕ → ℕ → Machine Devices → Machine Devices
  set_cursor x y m = record m { devices = framebuffer_set_cursor bus (x % 256) (y % 256) m.devices }

  abbrev put_cell : ℕ → ℕ → ℕ → Machine Devices → Machine Devices
  put_cell x y c m = record m { screen = framebuffer_write x y c 0x0F 0x00 m.screen }

  -- case '\n'
  unfoldable pub enter_key : Machine Devices → Machine Devices
  enter_key m =
      let (cursor_x, cursor_y, d) = framebuffer_get_cursor bus m.devices in
      set_cursor (cursor_x + 1) 0 (record m { devices = d; keyboard = end_line m.keyboard })

  -- The cursor and the screen behind `buffer_index--`.
  unfoldable pub erase_cell : ℕ → ℕ → Machine Devices → Machine Devices
  erase_cell cursor_x cursor_y m =
      if cursor_y == 0
      then (if ltb 0 cursor_x
          then put_cell (cursor_x - 1) 79 b' ' (set_cursor (cursor_x - 1) 79 m)
          else m)
      else put_cell cursor_x (cursor_y - 1) b' ' (set_cursor cursor_x (cursor_y - 1) m)

  -- case '\b'
  unfoldable pub backspace_key : Machine Devices → Machine Devices
  backspace_key m =
      let (cursor_x, cursor_y, d) = framebuffer_get_cursor bus m.devices in
      let m = record m { devices = d } in
      let k = m.keyboard in
      if ltb 0 k.buffer_index
      then erase_cell cursor_x cursor_y
          (record m { keyboard = record k { buffer_index = k.buffer_index - 1 } })
      else m

  -- The default case.
  unfoldable pub other_key : Machine Devices → Machine Devices
  other_key m =
      let (cursor_x, cursor_y, d) = framebuffer_get_cursor bus m.devices in
      let c = m.keyboard.last_key_pressed in
      let m = record m { devices = d; keyboard = put_char m.keyboard } in
      if cursor_y == 79
      then set_cursor (cursor_x + 1) 0 (put_cell cursor_x cursor_y c m)
      else set_cursor cursor_x (cursor_y + 1) (put_cell cursor_x cursor_y c m)

  -- `switch (last_key_pressed)`
  unfoldable pub handle_key : Machine Devices → Machine Devices
  handle_key m =
      let c = m.keyboard.last_key_pressed in
      if c == 10 then enter_key m else if c == 8 then backspace_key m else other_key m

  -- case EXT_SCANCODE_RIGHT
  unfoldable pub move_right : Machine Devices → Machine Devices
  move_right m =
      let (cursor_x, cursor_y, d) = framebuffer_get_cursor bus m.devices in
      let m = record m { devices = d } in
      let index = m.keyboard.buffer_index in
      let current_baris = cursor_x in
      let baris = (current_baris + 256 - index / 80) % 256 in
      let kolom = index % 80 in
      if ltb 79 index
      then (if leb cursor_x current_baris && leb baris cursor_x
          then (if cursor_y == 79
              then (if ltb cursor_x 24 then set_cursor (cursor_x + 1) 0 m else m)
              else if ltb cursor_y 79
              then set_cursor cursor_x (cursor_y + 1) m
              else m)
          else if cursor_x + 1 == current_baris
          then (if ltb cursor_y kolom
              then set_cursor cursor_x (cursor_y + 1) m
              else set_cursor cursor_x cursor_y m)
          else m)
      else if ltb cursor_y index
      then set_cursor cursor_x (cursor_y + 1) m
      else set_cursor cursor_x cursor_y m

  -- case EXT_SCANCODE_LEFT
  unfoldable pub move_left : Machine Devices → Machine Devices
  move_left m =
      let (cursor_x, cursor_y, d) = framebuffer_get_cursor bus m.devices in
      let m = record m { devices = d } in
      let index = m.keyboard.buffer_index in
      let baris_l = (cursor_x + 256 - index / 80) % 256 in
      if ltb 80 index
      then (if not (cursor_x == baris_l)
          then (if cursor_y == 0
              then (if ltb 0 cursor_x then set_cursor (cursor_x - 1) 79 m else m)
              else set_cursor cursor_x (cursor_y - 1) m)
          else m)
      else if ltb 0 cursor_y
      then set_cursor cursor_x (cursor_y - 1) m
      else set_cursor cursor_x cursor_y m

  -- case EXT_SCANCODE_UP and case EXT_SCANCODE_DOWN
  unfoldable pub stay : Machine Devices → Machine Devices
  stay m =
      let (cursor_x, cursor_y, d) = framebuffer_get_cursor bus m.devices in
      set_cursor cursor_x cursor_y (record m { devices = d })

  -- `switch (scancode)`
  unfoldable pub move_cursor : ℕ → Machine Devices → Machine Devices
  move_cursor scancode m =
      if scancode == 0x4D
      then move_right m
      else if scancode == 0x4B
      then move_left m
      else if scancode == 0x48
      then stay m
      else if scancode == 0x50
      then stay m
      else m

  -- `if (buffer_index == 0) memset(...)`
  abbrev pub start_line : Machine Devices → Machine Devices
  start_line m =
      let k = m.keyboard in
      if k.buffer_index == 0
      then record m {
        keyboard = record k { keyboard_buffer = memset k.keyboard_buffer 0 0 keyboard_buffer_size };
      }
      else m

  -- `if (mapped_char != 0) ... else if (make_code) ...`
  unfoldable pub latch_key : ℕ → Machine Devices → Machine Devices
  latch_key mapped_char m =
      let k = m.keyboard in
      let handled = handle_key m in
      if not (mapped_char == 0)
      then record m { keyboard = record k { last_key_pressed = mapped_char; make_code = 1 } }
      else if not (k.make_code == 0)
      then record handled { keyboard = record (handled.keyboard) { make_code = 0 } }
      else m

  -- The body of the ISR once the scancode is read.
  unfoldable pub handle_scancode : ℕ → Machine Devices → Machine Devices
  handle_scancode scancode m =
      if is_keyboard_blocking m.keyboard == 0
      then record m { keyboard = record (m.keyboard) { buffer_index = 0 } }
      else move_cursor scancode
          (latch_key (keyboard_scancode_1_to_ascii_map scancode) (start_line m))

  unfoldable pub keyboard_isr : Machine Devices → Machine Devices
  keyboard_isr m =
      let (scancode, d) = in_byte 0x60 m.devices in
      let m' =
        if m.keyboard.keyboard_input_on == 0
        then record m { keyboard = record (m.keyboard) { buffer_index = 0 } }
        else handle_scancode scancode (record m { devices = d }) in
      record m' { devices = pic_ack bus irq_keyboard m'.devices }
