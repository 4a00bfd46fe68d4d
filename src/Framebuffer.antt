-- ===== src/Framebuffer.antt =====
-- framebuffer.c and framebuffer.h: the text screen of 80 by 25 cells, two bytes each, as a buffer
-- that begins at MEMORY_FRAMEBUFFER, and the cursor behind the ports.
pub mod Cells
pub mod Cursor
use Prim.Native.Nat.{bit_or}
use if2230_2023_hexos.Prelude.{ℕ, zero, suc, ◌+◌, ◌*◌, ◌/◌, ◌%◌, ◌^◌, Buf}
use if2230_2023_hexos.Stdmem.{memset}
use if2230_2023_hexos.Ports.{Bus}

abbrev cursor_port_cmd : ℕ
cursor_port_cmd = 0x3D4

abbrev cursor_port_data : ℕ
cursor_port_data = 0x3D5

-- Returns the new screen. The colour byte is `bg << 4 | fg`, cut to a byte by `memset`.
unfoldable pub framebuffer_write : ℕ → ℕ → ℕ → ℕ → ℕ → Buf → Buf
framebuffer_write row col c fg bg mem =
    let offset = 2 * (row * 80 + col) % 2 ^ 16 in
    memset (memset mem offset c 1) (offset + 1) (bit_or (bg * 16) fg) 1

-- The inner loop of `framebuffer_clear`, `k` columns from `col` on.
unfoldable pub clear_row : ℕ → ℕ → ℕ → Buf → Buf
clear_row zero row col mem = mem
clear_row (suc k) row col mem =
    clear_row k row (col + 1) (framebuffer_write row col b' ' 0x07 0x00 mem)

-- The outer loop, `k` rows from `row` on.
unfoldable pub clear_rows : ℕ → ℕ → Buf → Buf
clear_rows zero row mem = mem
clear_rows (suc k) row mem = clear_rows k (row + 1) (clear_row 80 row 0 mem)

unfoldable pub framebuffer_clear : Buf → Buf
framebuffer_clear mem = clear_rows 25 0 (memset mem 0 0x00 4000)

module _ (bus : Bus) where
  open bus use {Devices, out, in_byte}

  unfoldable pub framebuffer_set_cursor : ℕ → ℕ → Devices → Devices
  framebuffer_set_cursor r c d =
      let cursor = (r * 80 + c) % 2 ^ 16 in
      let d = out cursor_port_cmd 0x0F d in
      let d = out cursor_port_data (cursor % 256) d in
      let d = out cursor_port_cmd 0x0E d in out cursor_port_data (cursor / 256 % 256) d

  -- `*cursor_x` and `*cursor_y` are `uint8_t`. The two bytes of `pos` do not overlap, so `|` is `+`.
  unfoldable pub framebuffer_get_cursor : Devices → ℕ × ℕ × Devices
  framebuffer_get_cursor d =
      let d = out cursor_port_cmd 0x0F d in
      let (low, d) = in_byte cursor_port_data d in
      let d = out cursor_port_cmd 0x0E d in
      let (high, d) = in_byte cursor_port_data d in
      let cursor = low % 256 + 256 * (high % 256) in (cursor / 80 % 256, cursor % 80 % 256, d)
