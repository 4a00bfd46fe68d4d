-- ===== src/Image.antt =====
-- external-inserter.c: the disk image in memory, with the `read_blocks` and `write_blocks` that the
-- inserter links with filesystem/fat32.c in place of those of filesystem/disk.c.
pub mod Laws
use if2230_2023_hexos.Prelude.{ℕ, zero, suc, ◌+◌, ◌*◌, ◌%◌, ◌^◌, Buf}
use if2230_2023_hexos.Stdmem.{memcpy}

abbrev pub block_size : ℕ
block_size = 512

-- `BLOCK_SIZE*(logical_block_address+i)`, an `uint32_t`
abbrev pub block_address : ℕ → ℕ → ℕ
block_address lba i = block_size * ((lba + i) % 2 ^ 32) % 2 ^ 32

unfoldable pub read_loop : ℕ → Buf → Buf → ℕ → ℕ → Buf
read_loop zero ptr image lba i = ptr
read_loop (suc k) ptr image lba i =
    read_loop k (memcpy ptr (block_size * i) image (block_address lba i) block_size) image lba
      (i + 1)

unfoldable pub read_blocks : Buf → Buf → ℕ → ℕ → Buf
read_blocks ptr image lba block_count = read_loop block_count ptr image lba 0

unfoldable pub write_loop : ℕ → Buf → Buf → ℕ → ℕ → Buf
write_loop zero ptr image lba i = image
write_loop (suc k) ptr image lba i =
    write_loop k ptr (memcpy image (block_address lba i) ptr (block_size * i) block_size) lba
      (i + 1)

-- Returns the new image.
unfoldable pub write_blocks : Buf → Buf → ℕ → ℕ → Buf
write_blocks ptr image lba block_count = write_loop block_count ptr image lba 0
