-- ===== src/Disk/Command.antt =====
-- filesystem/disk.c: the command that a transfer begins with.
use Prim.Native.Nat.{bit_or}
use if2230_2023_hexos.Prelude.{
  ℕ, zero, suc, ◌*◌, ◌/◌, ◌%◌, ◌^◌, ◌<◌, ◌≡◌, refl, ◌∙◌, Bool, true, ◌&&◌, ◌==◌, if◌then◌else◌,
  eq_of_beq, arith,
}
use if2230_2023_hexos.Ports.{Bus}
use if2230_2023_hexos.Disk.{send_command}
use if2230_2023_hexos.Disk.Ata.{input, output, Ata}

all_below : ℕ → (ℕ → Bool) → Bool
all_below zero p = true
all_below (suc n) p = p n && all_below n p

all_below-at : (n : ℕ) (p : ℕ → Bool) (x : ℕ) → all_below n p ≡ true → x < n → p x ≡ true
unfolding all_below
all_below-at zero p x h lt = absurd (omega arith)
all_below-at (suc n) p x h lt = ground (arith, all_below-at n p x)

drive_bits : all_below 16 (λ x. bit_or 0xE0 x % 256 % 16 == x) ≡ true
unfolding all_below
drive_bits = refl

-- The upper four bits of the address survive the `|` with the drive's bits.
drive_address : (x : ℕ) → x < 16 → bit_or 0xE0 x % 256 % 16 ≡ x
drive_address x h = eq_of_beq _ x (all_below-at 16 _ x drive_bits h)

module _ (bus : Bus) (disk : Ata bus) where
  open bus use {Devices, out}

  -- A transfer of `n` blocks from block `lba` on has begun.
  pub record Begun (lba n : ℕ) (d d' : Devices) : Type 0 where
    pub medium : (a : ℕ) → disk.medium d' a ≡ disk.medium d a
    pub position : disk.position d' ≡ 256 * lba
    pub left : disk.left d' ≡ 256 * n

  module _ (lba n : ℕ) (d : Devices) (idle : disk.waiting d ≡ 0) (reach : lba < 2 ^ 28)
      (some_left : 0 < n) (count : n < 256) where
    abbrev d1 : Devices
    d1 = out 0x1F6 (bit_or 0xE0 (lba / 2 ^ 24 % 16)) d

    abbrev d2 : Devices
    d2 = out 0x1F2 n d1

    abbrev d3 : Devices
    d3 = out 0x1F3 (lba % 2 ^ 8) d2

    abbrev d4 : Devices
    d4 = out 0x1F4 (lba / 2 ^ 8 % 2 ^ 8) d3

    abbrev d5 : Devices
    d5 = out 0x1F5 (lba / 2 ^ 16 % 2 ^ 8) d4

    idle_1 : disk.waiting d1 ≡ 0
    idle_1 = disk.set_waiting 0x1F6 _ d (omega arith) (omega arith) idle

    idle_2 : disk.waiting d2 ≡ 0
    idle_2 = disk.set_waiting 0x1F2 _ d1 (omega arith) (omega arith) idle_1

    idle_3 : disk.waiting d3 ≡ 0
    idle_3 = disk.set_waiting 0x1F3 _ d2 (omega arith) (omega arith) idle_2

    idle_4 : disk.waiting d4 ≡ 0
    idle_4 = disk.set_waiting 0x1F4 _ d3 (omega arith) (omega arith) idle_3

    idle_5 : disk.waiting d5 ≡ 0
    idle_5 = disk.set_waiting 0x1F5 _ d4 (omega arith) (omega arith) idle_4

    medium_5 : (a : ℕ) → disk.medium d5 a ≡ disk.medium d a
    medium_5 a = ground (
      arith,
      disk.set_medium 0x1F6 (bit_or 0xE0 (lba / 2 ^ 24 % 16)) d a,
      disk.set_medium 0x1F2 n d1 a,
      disk.set_medium 0x1F3 (lba % 2 ^ 8) d2 a,
      disk.set_medium 0x1F4 (lba / 2 ^ 8 % 2 ^ 8) d3 a,
      disk.set_medium 0x1F5 (lba / 2 ^ 16 % 2 ^ 8) d4 a,
    )

    -- The task file, register by register.
    register_5 :
        (i : ℕ)
        → disk.register d5 i ≡ (
            if i == 0x1F5
            then lba / 2 ^ 16 % 2 ^ 8
            else if i == 0x1F4
            then lba / 2 ^ 8 % 2 ^ 8
            else if i == 0x1F3
            then lba % 2 ^ 8
            else if i == 0x1F2
            then n
            else if i == 0x1F6
            then bit_or 0xE0 (lba / 2 ^ 24 % 16) % 256
            else disk.register d i)
    register_5 i = ground (
      arith,
      disk.set_register 0x1F6 (bit_or 0xE0 (lba / 2 ^ 24 % 16)) d i,
      disk.set_register 0x1F2 n d1 i,
      disk.set_register 0x1F3 (lba % 2 ^ 8) d2 i,
      disk.set_register 0x1F4 (lba / 2 ^ 8 % 2 ^ 8) d3 i,
      disk.set_register 0x1F5 (lba / 2 ^ 16 % 2 ^ 8) d4 i,
      idle_1,
      idle_2,
      idle_3,
      idle_4,
    )

    command-Begun : (c : ℕ) → Begun lba n d (send_command bus lba n c d)
    unfolding send_command
    command-Begun c = record {
      medium = λ a. disk.set_medium 0x1F7 c d5 a (omega arith) (omega arith) ∙ medium_5 a;
      position = ground (
        arith,
        disk.command_transfer c d5 idle_5,
        register_5 0x1F3,
        register_5 0x1F4,
        register_5 0x1F5,
        register_5 0x1F6,
        drive_address (lba / 2 ^ 24 % 16),
      );
      left = ground (arith, disk.command_transfer c d5 idle_5, register_5 0x1F2);
    }

    pub send_command-read :
        (disk.direction (send_command bus lba n 0x20 d) ≡ input)
        × Begun lba n d (send_command bus lba n 0x20 d)
    unfolding send_command
    send_command-read = (disk.command_read d5 idle_5, command-Begun 0x20)

    pub send_command-write :
        (disk.direction (send_command bus lba n 0x30 d) ≡ output)
        × Begun lba n d (send_command bus lba n 0x30 d)
    unfolding send_command
    send_command-write = (disk.command_write d5 idle_5, command-Begun 0x30)
