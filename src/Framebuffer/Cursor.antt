-- ===== src/Framebuffer/Cursor.antt =====
-- framebuffer.c: the text cursor in the registers of the card.
use if2230_2023_hexos.Prelude.{ℕ, ◌+◌, ◌*◌, ◌/◌, ◌%◌, ◌<◌, ◌≡◌, arith}
use if2230_2023_hexos.Ports.{Bus}
use if2230_2023_hexos.Ports.Crtc.{Crtc}
use if2230_2023_hexos.Framebuffer.{framebuffer_set_cursor, framebuffer_get_cursor}

-- Whatever is behind the ports, the cursor's place fits the types of the two results.
pub cursor_bounds :
    (bus : Bus) (d : bus.Devices)
    → ((framebuffer_get_cursor bus d).0 < 256) × ((framebuffer_get_cursor bus d).1 < 80)
unfolding framebuffer_get_cursor
cursor_bounds bus d = (omega arith, omega arith)

module _ (bus : Bus) (card : Crtc bus) where
  open bus use {Devices, out, in_byte}
  open card use {
    selected, register, select, select_register, write_selected, write_register, read_value,
    read_register,
  }

  -- The position that the card's two registers hold.
  abbrev pub position : Devices → ℕ
  position d = register d 0x0F + 256 * register d 0x0E

  pub position-set_cursor :
      (r c : ℕ) (d : Devices)
      → r < 256
      → c < 256
      → position (framebuffer_set_cursor bus r c d) ≡ r * 80 + c
  unfolding framebuffer_set_cursor
  position-set_cursor r c d hr hc = simp (write_register, select, select_register) (omega arith)

  pub get_cursor-position :
      (d : Devices)
      → let (x, y, d') = framebuffer_get_cursor bus d in
        (x ≡ position d / 80 % 256) × (y ≡ position d % 80) × (position d' ≡ position d)
  unfolding framebuffer_get_cursor
  get_cursor-position d =
      simp (read_value, select, select_register, read_register)
        (ground (arith, card.register_byte d 0x0F, card.register_byte d 0x0E))

  -- With the card behind the ports, a row below 256 and a column below 80 that `framebuffer_set_cursor`
  -- sets is what `framebuffer_get_cursor` returns, and reading leaves the card's position alone.
  get_cursor-set_cursor :
      (r c : ℕ) (d : Devices)
      → r < 256
      → c < 80
      → let (x, y, d') = framebuffer_get_cursor bus (framebuffer_set_cursor bus r c d) in
        (x ≡ r) × (y ≡ c) × (position d' ≡ r * 80 + c)
  get_cursor-set_cursor r c d hr hc = omega (
    arith,
    get_cursor-position (framebuffer_set_cursor bus r c d),
    position-set_cursor r c d hr (omega arith),
  )
