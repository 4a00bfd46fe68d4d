-- ===== src/Pic.antt =====
-- The programmable interrupt controller in interrupt.c: acknowledgement, remapping, masks.
pub mod Remap
pub mod Tests
use Prim.Native.Nat.{bit_xor}
use if2230_2023_hexos.Prelude.{ℕ, ◌^◌, leb, if◌then◌else◌}
use if2230_2023_hexos.Ports.{Bus}

abbrev pic1_command : ℕ
pic1_command = 0x20

abbrev pic1_data : ℕ
pic1_data = 0x21

abbrev pic2_command : ℕ
pic2_command = 0xA0

abbrev pic2_data : ℕ
pic2_data = 0xA1

abbrev pub irq_keyboard : ℕ
irq_keyboard = 1

abbrev pic1_offset : ℕ
pic1_offset = 0x20

abbrev pic2_offset : ℕ
pic2_offset = 0x28

module _ (bus : Bus) where
  open bus use {Devices, out, in_byte}

  unfoldable pub io_wait : Devices → Devices
  io_wait d = out 0x80 0 d

  unfoldable pub pic_ack : ℕ → Devices → Devices
  pic_ack irq d = out pic1_command 0x20 (if leb 8 irq then out pic2_command 0x20 d else d)

  -- 0x11 is `ICW1_INIT | ICW1_ICW4`.
  unfoldable pub pic_remap : Devices → Devices
  unfolding io_wait
  pic_remap d =
      let (a1, d) = in_byte pic1_data d in
      let (a2, d) = in_byte pic2_data d in
      let d = io_wait (out pic1_command 0x11 d) in
      let d = io_wait (out pic2_command 0x11 d) in
      let d = io_wait (out pic1_data pic1_offset d) in
      let d = io_wait (out pic2_data pic2_offset d) in
      let d = io_wait (out pic1_data 0b0100 d) in
      let d = io_wait (out pic2_data 0b0010 d) in
      let d = io_wait (out pic1_data 0x01 d) in
      let d = io_wait (out pic2_data 0x01 d) in out pic2_data a2 (out pic1_data a1 d)

  -- `PIC_DISABLE_ALL_MASK ^ (1 << IRQ_KEYBOARD)`
  unfoldable pub activate_keyboard_interrupt : Devices → Devices
  activate_keyboard_interrupt d =
      out pic2_data 0xFF (out pic1_data (bit_xor 0xFF (2 ^ irq_keyboard)) d)
