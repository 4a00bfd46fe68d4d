-- ===== src/Disk.antt =====
-- filesystem/disk.c: the ATA driver, on the ports. It waits for the disk on fuel: each wait of a call
-- may poll the status `fuel` times.
pub mod Ata
pub mod Wait
pub mod Command
pub mod Reading
pub mod Writing
mod Tests
use Prim.Native.Nat.{bit_or}
use if2230_2023_hexos.Prelude.{
  ℕ, zero, suc, ◌+◌, ◌*◌, ◌/◌, ◌%◌, ◌^◌, ◌==◌, if◌then◌else◌, Buf, load16, store16, Run, done,
  diverges, ◌>>=◌,
}
use if2230_2023_hexos.Ports.{Bus}

-- HALF_BLOCK_SIZE
abbrev pub half_block_size : ℕ
half_block_size = 256

module _ (bus : Bus) where
  open bus use {Devices, out, in_byte, out16, in16}

  -- `while (in(0x1F7) & ATA_STATUS_BSY);`
  unfoldable pub ata_busy_wait : ℕ → Devices → Run Devices
  ata_busy_wait zero d = diverges
  ata_busy_wait (suc fuel) d =
      let (status, d') = in_byte 0x1F7 d in
      let rest = ata_busy_wait fuel d' in if status / 2 ^ 7 % 2 == 1 then rest else done d'

  -- `while (!(in(0x1F7) & ATA_STATUS_RDY));`
  unfoldable pub ata_drq_wait : ℕ → Devices → Run Devices
  ata_drq_wait zero d = diverges
  ata_drq_wait (suc fuel) d =
      let (status, d') = in_byte 0x1F7 d in
      let rest = ata_drq_wait fuel d' in if status / 2 ^ 6 % 2 == 0 then rest else done d'

  -- The six `out`s that both routines begin with.
  unfoldable pub send_command : ℕ → ℕ → ℕ → Devices → Devices
  send_command lba block_count command d =
      let d = out 0x1F6 (bit_or 0xE0 (lba / 2 ^ 24 % 16)) d in
      let d = out 0x1F2 block_count d in
      let d = out 0x1F3 (lba % 2 ^ 8) d in
      let d = out 0x1F4 (lba / 2 ^ 8 % 2 ^ 8) d in
      let d = out 0x1F5 (lba / 2 ^ 16 % 2 ^ 8) d in out 0x1F7 command d

  -- `for (j ...) target[j] = in16(0x1F0);`, `k` words into the bytes from `a` on.
  unfoldable pub read_words : ℕ → ℕ → Buf → Devices → Buf × Devices
  read_words zero a ptr d = (ptr, d)
  read_words (suc k) a ptr d =
      let (word, d') = in16 0x1F0 d in read_words k (a + 2) (store16 ptr a word) d'

  -- `for (i ...)` of `read_blocks`, `k` blocks into the bytes from `a` on.
  unfoldable pub read_rounds : ℕ → ℕ → ℕ → Buf → Devices → Run (Buf × Devices)
  read_rounds fuel zero a ptr d = done (ptr, d)
  read_rounds fuel (suc k) a ptr d = do
    d ← ata_busy_wait fuel d
    d ← ata_drq_wait fuel d
    let (ptr', d') = read_words half_block_size a ptr d
    read_rounds fuel k (a + 512) ptr' d'

  -- `read_blocks`
  unfoldable pub read_blocks : ℕ → Buf → ℕ → ℕ → Devices → Run (Buf × Devices)
  read_blocks fuel ptr lba block_count d =
      let count = block_count % 256 in
      do d ← ata_busy_wait fuel d; read_rounds fuel count 0 ptr (send_command lba count 0x20 d)

  -- `for (j ...) out16(0x1F0, ...);`, `k` words of the bytes from `a` on.
  unfoldable pub write_words : ℕ → ℕ → Buf → Devices → Devices
  write_words zero a ptr d = d
  write_words (suc k) a ptr d = write_words k (a + 2) ptr (out16 0x1F0 (load16 ptr a) d)

  -- `for (i ...)` of `write_blocks`.
  unfoldable pub write_rounds : ℕ → ℕ → ℕ → Buf → Devices → Run Devices
  write_rounds fuel zero a ptr d = done d
  write_rounds fuel (suc k) a ptr d = do
    d ← ata_busy_wait fuel d
    d ← ata_drq_wait fuel d
    write_rounds fuel k (a + 512) ptr (write_words half_block_size a ptr d)

  -- `write_blocks`
  unfoldable pub write_blocks : ℕ → Buf → ℕ → ℕ → Devices → Run Devices
  write_blocks fuel ptr lba block_count d =
      let count = block_count % 256 in
      do d ← ata_busy_wait fuel d; write_rounds fuel count 0 ptr (send_command lba count 0x30 d)
