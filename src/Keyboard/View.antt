-- ===== src/Keyboard/View.antt =====
-- keyboard.c: what the keys leave alone, since on the screen's card they touch only the cursor.
use if2230_2023_hexos.Prelude.{ℕ, ◌≡◌, ◌∙◌, arith}
use if2230_2023_hexos.Ports.{Bus}
use if2230_2023_hexos.Framebuffer.{framebuffer_set_cursor, framebuffer_get_cursor}
use if2230_2023_hexos.Keyboard.{
  Machine, enter_key, erase_cell, backspace_key, other_key, handle_key, move_right, move_left, stay,
  move_cursor, start_line, latch_key, handle_scancode, is_keyboard_blocking,
}

-- An observation of the devices that the two ports of the cursor do not touch.
pub record Apart (bus : Bus) (A : Type 0) : Type 0 where
  pub view : bus.Devices → A
  pub out_index : (v : ℕ) (d : bus.Devices) → view (bus.out 0x3D4 v d) ≡ view d
  pub out_data : (v : ℕ) (d : bus.Devices) → view (bus.out 0x3D5 v d) ≡ view d
  pub in_data : (d : bus.Devices) → view (bus.in_byte 0x3D5 d).1 ≡ view d

module _ (bus : Bus) {A : Type 0} (apart : Apart bus A) where
  open apart use {view, out_index, out_data, in_data}

  pub view-set_cursor :
      (r c : ℕ) (d : bus.Devices) → view (framebuffer_set_cursor bus r c d) ≡ view d
  unfolding framebuffer_set_cursor
  view-set_cursor r c d = out_data _ _ ∙ out_index _ _ ∙ out_data _ _ ∙ out_index _ _

  pub view-get_cursor : (d : bus.Devices) → view (framebuffer_get_cursor bus d).2 ≡ view d
  unfolding framebuffer_get_cursor
  view-get_cursor d = in_data _ ∙ out_index _ _ ∙ in_data _ ∙ out_index _ _

  module _ (m : Machine bus.Devices) where
    view-enter_key : view (enter_key bus m).devices ≡ view m.devices
    unfolding enter_key
    view-enter_key = grind (arith, view-set_cursor, view-get_cursor)

    view-erase_cell : (x y : ℕ) → view (erase_cell bus x y m).devices ≡ view m.devices
    unfolding erase_cell
    view-erase_cell x y = grind (arith, view-set_cursor)

    view-other_key : view (other_key bus m).devices ≡ view m.devices
    unfolding other_key
    view-other_key = grind (arith, view-set_cursor, view-get_cursor)

    view-move_right : view (move_right bus m).devices ≡ view m.devices
    unfolding move_right
    view-move_right = grind (arith, view-set_cursor, view-get_cursor)

    view-move_left : view (move_left bus m).devices ≡ view m.devices
    unfolding move_left
    view-move_left = grind (arith, view-set_cursor, view-get_cursor)

    view-stay : view (stay bus m).devices ≡ view m.devices
    unfolding stay
    view-stay = grind (arith, view-set_cursor, view-get_cursor)

    view-start_line : view (start_line bus m).devices ≡ view m.devices
    view-start_line = ground arith

  view-backspace_key :
      (m : Machine bus.Devices) → view (backspace_key bus m).devices ≡ view m.devices
  unfolding backspace_key
  view-backspace_key m = grind (arith, view-get_cursor, view-erase_cell)

  view-handle_key : (m : Machine bus.Devices) → view (handle_key bus m).devices ≡ view m.devices
  unfolding handle_key
  view-handle_key m = grind (arith, view-enter_key, view-backspace_key, view-other_key)

  view-move_cursor :
      (scancode : ℕ) (m : Machine bus.Devices)
      → view (move_cursor bus scancode m).devices ≡ view m.devices
  unfolding move_cursor
  view-move_cursor scancode m = grind (arith, view-move_right, view-move_left, view-stay)

  view-latch_key :
      (c : ℕ) (m : Machine bus.Devices) → view (latch_key bus c m).devices ≡ view m.devices
  unfolding latch_key
  view-latch_key c m = grind (arith, view-handle_key)

  pub view-handle_scancode :
      (scancode : ℕ) (m : Machine bus.Devices)
      → view (handle_scancode bus scancode m).devices ≡ view m.devices
  unfolding handle_scancode is_keyboard_blocking
  view-handle_scancode scancode m = grind (arith, view-move_cursor, view-latch_key, view-start_line)
