-- ===== src/Ports.antt =====
-- Port input and output. The bodies of portio.c are single assembler instructions, so the machine
-- behind the ports is a parameter: `out` and `in` act on the state of the devices.
pub mod Crtc
pub mod Pic8259
use if2230_2023_hexos.Prelude.{ℕ}

pub record Bus : Type 1 where
  pub Devices : Type 0
  pub out : ℕ → ℕ → Devices → Devices
  pub in_byte : ℕ → Devices → ℕ × Devices
  pub out16 : ℕ → ℕ → Devices → Devices
  pub in16 : ℕ → Devices → ℕ × Devices
