-- ===== src/Keyboard/Arrows.antt =====
-- keyboard.c: the cursor keys, on the position of the cursor.
use if2230_2023_hexos.Prelude.{
  ℕ, ◌+◌, ◌-◌, ◌/◌, ◌%◌, ◌<◌, ◌≡◌, ◌&&◌, ltb, leb, ◌==◌, if◌then◌else◌, arith,
}
use if2230_2023_hexos.Ports.{Bus}
use if2230_2023_hexos.Ports.Crtc.{Crtc}
use if2230_2023_hexos.Framebuffer.{framebuffer_get_cursor}
use if2230_2023_hexos.Framebuffer.Cursor.{position, position-set_cursor, get_cursor-position}
use if2230_2023_hexos.Keyboard.{Machine, move_right, move_left, stay, move_cursor}

-- The key to the right moves to the next cell: in a line of at most 79 characters up to the line's
-- length, in a longer one up to the end of the screen, if the cursor's row has at least the number of the
-- line's full rows.
abbrev pub right_of : ℕ → ℕ → ℕ
right_of index pos =
    if ltb 79 index
    then (if leb (index / 80) (pos / 80) && ltb pos 1999 then pos + 1 else pos)
    else if ltb (pos % 80) index
    then pos + 1
    else pos

-- The key to the left moves to the cell before: in a line of at most 80 characters not out of the row,
-- in a longer one up to the beginning of the screen.
abbrev pub left_of : ℕ → ℕ → ℕ
left_of index pos = if ltb 80 index then pos - 1 else if ltb 0 (pos % 80) then pos - 1 else pos

abbrev pub moved : ℕ → ℕ → ℕ → ℕ
moved scancode index pos =
    if scancode == 0x4D
    then right_of index pos
    else if scancode == 0x4B
    then left_of index pos
    else pos

module _ (bus : Bus) (card : Crtc bus) where
  abbrev at : Machine bus.Devices → ℕ
  at m = position bus card m.devices

  move_right-position :
      (m : Machine bus.Devices)
      → at m < 2000
      → m.keyboard.buffer_index < 256
      → at (move_right bus m) ≡ right_of m.keyboard.buffer_index (at m)
  unfolding move_right
  move_right-position m on_screen short =
      let (x, y, d) = framebuffer_get_cursor bus m.devices in
      let place = get_cursor-position bus card m.devices in
      ground (
        arith,
        place,
        position-set_cursor bus card (x + 1) 0 d,
        position-set_cursor bus card x (y + 1) d,
        position-set_cursor bus card x y d,
      )

  move_left-position :
      (m : Machine bus.Devices)
      → at m < 2000
      → m.keyboard.buffer_index < 256
      → at (move_left bus m) ≡ left_of m.keyboard.buffer_index (at m)
  unfolding move_left
  move_left-position m on_screen short =
      let (x, y, d) = framebuffer_get_cursor bus m.devices in
      ground (
        arith,
        get_cursor-position bus card m.devices,
        position-set_cursor bus card (x - 1) 79 d,
        position-set_cursor bus card x (y - 1) d,
        position-set_cursor bus card x y d,
      )

  stay-position : (m : Machine bus.Devices) → at m < 2000 → at (stay bus m) ≡ at m
  unfolding stay
  stay-position m on_screen =
      let (x, y, d) = framebuffer_get_cursor bus m.devices in
      ground (arith, get_cursor-position bus card m.devices, position-set_cursor bus card x y d)

  move_cursor-position :
      (scancode : ℕ) (m : Machine bus.Devices)
      → at m < 2000
      → m.keyboard.buffer_index < 256
      → at (move_cursor bus scancode m) ≡ moved scancode m.keyboard.buffer_index (at m)
  unfolding move_cursor
  move_cursor-position scancode m on_screen short = ground (
    arith,
    move_right-position m on_screen short,
    move_left-position m on_screen short,
    stay-position m on_screen,
  )

  moved-bounds : (scancode index pos : ℕ) → pos < 2000 → moved scancode index pos < 2000
  moved-bounds scancode index pos on_screen = ground arith

  -- The keys change neither the text nor the driver's state.
  move_cursor-quiet :
      (scancode : ℕ) (m : Machine bus.Devices)
      → ((move_cursor bus scancode m).screen ≡ m.screen)
        × ((move_cursor bus scancode m).keyboard ≡ m.keyboard)
  unfolding move_cursor move_right move_left stay
  move_cursor-quiet scancode m = (ground arith, ground arith)

  -- With the card behind the ports, the cursor in one of the 2000 cells and a line of fewer than 256
  -- characters, a cursor key moves the cursor by at most one cell, as `moved` says: the keys up and
  -- down leave it; the key to the right moves, in a line of up to 79 characters, exactly while the
  -- cursor's column is smaller than the line's length, wherever the line begins, and stops in
  -- a longer one only at the end of the screen or in a row whose number is below that of the line's full
  -- rows; the key to the left stops, in a line of up to 80 characters, at the beginning of the row, and
  -- in a longer one only at that of the screen. The cursor stays in the 2000 cells, and the text and
  -- the driver's state do not change.
  pub move_cursor-Moved :
      (scancode : ℕ) (m : Machine bus.Devices)
      → at m < 2000
      → m.keyboard.buffer_index < 256
      → let m' = move_cursor bus scancode m in
        (at m' ≡ moved scancode m.keyboard.buffer_index (at m))
        × (at m' < 2000)
        × (m'.screen ≡ m.screen)
        × (m'.keyboard ≡ m.keyboard)
  move_cursor-Moved scancode m on_screen short =
      let place = move_cursor-position scancode m on_screen short in
      let (screen, keyboard) = move_cursor-quiet scancode m in
      (
        place,
        ground (arith, place, moved-bounds scancode m.keyboard.buffer_index (at m) on_screen),
        screen,
        keyboard,
      )
