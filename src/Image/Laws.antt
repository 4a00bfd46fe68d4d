-- ===== src/Image/Laws.antt =====
-- external-inserter.c: the bytes that a block transfer leaves.
use if2230_2023_hexos.Prelude.{
  ℕ, zero, suc, ◌+◌, ◌-◌, ◌*◌, ◌^◌, ◌≤◌, ◌≡◌, ◌&&◌, leb, ltb, if◌then◌else◌, Buf, arith,
}
use if2230_2023_hexos.Stdmem.{memcpy}
use if2230_2023_hexos.Stdmem.Copy.{memcpy_lem}
use if2230_2023_hexos.Image.{
  block_size, block_address, read_loop, read_blocks, write_loop, write_blocks,
}

read_loop_lem :
    (k : ℕ) (ptr image : Buf) (lba i x : ℕ)
    → lba + i + k ≤ 2 ^ 23
    → read_loop k ptr image lba i x
      ≡ (if leb (512 * i) x && ltb x (512 * (i + k)) then image (512 * lba + x) else ptr x)
unfolding read_loop
read_loop_lem zero ptr image lba i x h = ground arith
read_loop_lem (suc k) ptr image lba i x h = ground (
  arith,
  read_loop_lem k (memcpy ptr (block_size * i) image (block_address lba i) block_size) image lba
      (i + 1) x (omega arith),
  memcpy_lem ptr (block_size * i) image (block_address lba i) block_size x,
)

pub read_blocks_lem :
    (ptr image : Buf) (lba n x : ℕ)
    → lba + n ≤ 2 ^ 23
    → read_blocks ptr image lba n x ≡ (if ltb x (512 * n) then image (512 * lba + x) else ptr x)
unfolding read_blocks
read_blocks_lem ptr image lba n x h =
    ground (arith, read_loop_lem n ptr image lba 0 x (omega arith))

write_loop_lem :
    (k : ℕ) (ptr image : Buf) (lba i x : ℕ)
    → lba + i + k ≤ 2 ^ 23
    → write_loop k ptr image lba i x ≡ (
        if leb (512 * (lba + i)) x && ltb x (512 * (lba + i + k))
        then ptr (x - 512 * lba)
        else image x)
unfolding write_loop
write_loop_lem zero ptr image lba i x h = ground arith
write_loop_lem (suc k) ptr image lba i x h = ground (
  arith,
  write_loop_lem k ptr (memcpy image (block_address lba i) ptr (block_size * i) block_size) lba
      (i + 1) x (omega arith),
  memcpy_lem image (block_address lba i) ptr (block_size * i) block_size x,
)

pub write_blocks_lem :
    (ptr image : Buf) (lba n x : ℕ)
    → lba + n ≤ 2 ^ 23
    → write_blocks ptr image lba n x
      ≡ (if leb (512 * lba) x && ltb x (512 * (lba + n)) then ptr (x - 512 * lba) else image x)
unfolding write_blocks
write_blocks_lem ptr image lba n x h =
    ground (arith, write_loop_lem n ptr image lba 0 x (omega arith))
