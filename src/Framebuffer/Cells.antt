-- ===== src/Framebuffer/Cells.antt =====
-- The bytes that a write and the clearing of the screen leave.
use Prim.Native.Nat.{bit_or}
use if2230_2023_hexos.Prelude.{
  ℕ, zero, suc, ◌+◌, ◌*◌, ◌%◌, ◌^◌, ◌≤◌, ◌<◌, ◌≡◌, ◌&&◌, ◌==◌, leb, ltb, if◌then◌else◌, Buf, arith,
}
use if2230_2023_hexos.Stdmem.{memset}
use if2230_2023_hexos.Stdmem.Copy.{memset_lem}
use if2230_2023_hexos.Framebuffer.{framebuffer_write, clear_row, clear_rows, framebuffer_clear}

-- `framebuffer_write` with any `uint8_t` position sets the two bytes of the cell, and no others. The
-- offset does not wrap.
pub framebuffer_write_lem :
    (row col c fg bg : ℕ) (mem : Buf) (x : ℕ)
    → row < 256
    → col < 256
    → framebuffer_write row col c fg bg mem x ≡ (
        if x == 2 * (80 * row + col)
        then c % 256
        else if x == 2 * (80 * row + col) + 1
        then bit_or (bg * 16) fg % 256
        else mem x)
unfolding framebuffer_write
framebuffer_write_lem row col c fg bg mem x hr hc =
    let offset : ℕ = 2 * (row * 80 + col) % 2 ^ 16 in
    ground (
      arith,
      memset_lem (memset mem offset c 1) (offset + 1) (bit_or (bg * 16) fg) 1 x,
      memset_lem mem offset c 1 x,
    )

-- Byte `x` of a cleared screen: a blank in even places, grey on black in odd ones.
abbrev pub blank_byte : ℕ → ℕ
blank_byte x = if x % 2 == 0 then 32 else 7

clear_row_lem :
    (k row col : ℕ) (mem : Buf) (x : ℕ)
    → row < 256
    → col + k ≤ 80
    → clear_row k row col mem x ≡ (
        if leb (160 * row + 2 * col) x && ltb x (160 * row + 2 * (col + k))
        then blank_byte x
        else mem x)
unfolding clear_row
clear_row_lem zero row col mem x hr h = ground arith
clear_row_lem (suc k) row col mem x hr h = ground (
  arith,
  clear_row_lem k row (col + 1) (framebuffer_write row col 32 7 0 mem) x hr (omega arith),
  framebuffer_write_lem row col 32 7 0 mem x hr (omega arith),
)

clear_rows_lem :
    (k row : ℕ) (mem : Buf) (x : ℕ)
    → row + k ≤ 25
    → clear_rows k row mem x
      ≡ (if leb (160 * row) x && ltb x (160 * (row + k)) then blank_byte x else mem x)
unfolding clear_rows
clear_rows_lem zero row mem x h = ground arith
clear_rows_lem (suc k) row mem x h = ground (
  arith,
  clear_rows_lem k (row + 1) (clear_row 80 row 0 mem) x (omega arith),
  clear_row_lem 80 row 0 mem x (omega arith) (omega arith),
)

-- `framebuffer_clear` makes all 2000 cells blanks in grey on black, and changes nothing beyond them.
pub framebuffer_clear_lem :
    (mem : Buf) (x : ℕ) → framebuffer_clear mem x ≡ (if ltb x 4000 then blank_byte x else mem x)
unfolding framebuffer_clear
framebuffer_clear_lem mem x = ground (
  arith,
  clear_rows_lem 25 0 (memset mem 0 0x00 4000) x (omega arith),
  memset_lem mem 0 0x00 4000 x,
)
