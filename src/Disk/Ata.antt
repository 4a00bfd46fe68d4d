-- ===== src/Disk/Ata.antt =====
-- What disk.c relies on of an ATA disk in PIO mode with 28-bit addresses: the task file behind ports
-- 0x1F2 to 0x1F6, the status at port 0x1F7, and the words of a transfer at port 0x1F0.
use if2230_2023_hexos.Prelude.{
  ℕ, ◌+◌, ◌-◌, ◌*◌, ◌/◌, ◌%◌, ◌^◌, ◌≤◌, ◌<◌, ◌≡◌, ◌≢◌, ◌==◌, if◌then◌else◌, Buf, store16,
}
use if2230_2023_hexos.Ports.{Bus}

pub data Direction : Type 0 where
  input output : Direction

-- `waiting` is the number of polls for which the disk is still busy, `position` the word of the
-- medium that the transfer has reached, `left` the number of its words to come.
pub record Ata (bus : Bus) : Type 0 where
  pub medium : bus.Devices → Buf
  pub register : bus.Devices → ℕ → ℕ
  pub waiting : bus.Devices → ℕ
  pub direction : bus.Devices → Direction
  pub position : bus.Devices → ℕ
  pub left : bus.Devices → ℕ
  pub limit : ℕ
  pub waiting_limit : (d : bus.Devices) → waiting d ≤ limit
  pub medium_byte : (d : bus.Devices) (a : ℕ) → medium d a < 256
  -- A poll of the status: bit 7 is BSY, bit 6 is RDY.
  pub poll_medium : (d : bus.Devices) (a : ℕ) → medium (bus.in_byte 0x1F7 d).1 a ≡ medium d a
  pub poll_transfer :
      (d : bus.Devices)
      → (direction (bus.in_byte 0x1F7 d).1 ≡ direction d)
        × (position (bus.in_byte 0x1F7 d).1 ≡ position d)
        × (left (bus.in_byte 0x1F7 d).1 ≡ left d)
  pub poll_waiting : (d : bus.Devices) → waiting (bus.in_byte 0x1F7 d).1 ≡ waiting d - 1
  pub poll_busy : (d : bus.Devices) → waiting d ≢ 0 → (bus.in_byte 0x1F7 d).0 / 2 ^ 7 % 2 ≡ 1
  pub poll_ready :
      (d : bus.Devices)
      → waiting d ≡ 0
      → ((bus.in_byte 0x1F7 d).0 / 2 ^ 7 % 2 ≡ 0) × ((bus.in_byte 0x1F7 d).0 / 2 ^ 6 % 2 ≡ 1)
  -- The task file, written while the disk is not busy.
  pub set_register :
      (port v : ℕ) (d : bus.Devices) (i : ℕ)
      → 0x1F2 ≤ port
      → port ≤ 0x1F6
      → waiting d ≡ 0
      → register (bus.out port v d) i ≡ (if i == port then v % 256 else register d i)
  pub set_waiting :
      (port v : ℕ) (d : bus.Devices)
      → 0x1F2 ≤ port
      → port ≤ 0x1F6
      → waiting d ≡ 0
      → waiting (bus.out port v d) ≡ 0
  pub set_medium :
      (port v : ℕ) (d : bus.Devices) (a : ℕ)
      → 0x1F2 ≤ port
      → port ≤ 0x1F7
      → medium (bus.out port v d) a ≡ medium d a
  -- The commands READ SECTORS and WRITE SECTORS. A sector count of 0 stands for 256.
  pub command_transfer :
      (c : ℕ) (d : bus.Devices)
      → waiting d ≡ 0
      → (position (bus.out 0x1F7 c d)
          ≡ 256
            * (register d 0x1F3
                + 2 ^ 8 * register d 0x1F4
                + 2 ^ 16 * register d 0x1F5
                + 2 ^ 24 * (register d 0x1F6 % 16)))
        × (left (bus.out 0x1F7 c d)
            ≡ (if register d 0x1F2 == 0 then 256 * 256 else 256 * register d 0x1F2))
  pub command_read : (d : bus.Devices) → waiting d ≡ 0 → direction (bus.out 0x1F7 0x20 d) ≡ input
  pub command_write : (d : bus.Devices) → waiting d ≡ 0 → direction (bus.out 0x1F7 0x30 d) ≡ output
  -- A word of a transfer. Between the words of a block the disk does not become busy.
  pub read_value :
      (d : bus.Devices)
      → waiting d ≡ 0
      → direction d ≡ input
      → 0 < left d
      → (bus.in16 0x1F0 d).0 ≡ medium d (2 * position d) + 256 * medium d (2 * position d + 1)
  pub read_transfer :
      (d : bus.Devices)
      → waiting d ≡ 0
      → direction d ≡ input
      → 0 < left d
      → (direction (bus.in16 0x1F0 d).1 ≡ input)
        × (position (bus.in16 0x1F0 d).1 ≡ position d + 1)
        × (left (bus.in16 0x1F0 d).1 ≡ left d - 1)
  pub read_waiting :
      (d : bus.Devices)
      → waiting d ≡ 0
      → direction d ≡ input
      → (left d - 1) % 256 ≢ 0
      → waiting (bus.in16 0x1F0 d).1 ≡ 0
  pub read_medium : (d : bus.Devices) (a : ℕ) → medium (bus.in16 0x1F0 d).1 a ≡ medium d a
  pub write_transfer :
      (v : ℕ) (d : bus.Devices)
      → waiting d ≡ 0
      → direction d ≡ output
      → 0 < left d
      → (direction (bus.out16 0x1F0 v d) ≡ output)
        × (position (bus.out16 0x1F0 v d) ≡ position d + 1)
        × (left (bus.out16 0x1F0 v d) ≡ left d - 1)
  pub write_waiting :
      (v : ℕ) (d : bus.Devices)
      → waiting d ≡ 0
      → direction d ≡ output
      → (left d - 1) % 256 ≢ 0
      → waiting (bus.out16 0x1F0 v d) ≡ 0
  pub write_medium :
      (v : ℕ) (d : bus.Devices) (a : ℕ)
      → waiting d ≡ 0
      → direction d ≡ output
      → 0 < left d
      → medium (bus.out16 0x1F0 v d) a ≡ store16 (medium d) (2 * position d) v a
