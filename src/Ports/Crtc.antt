-- ===== src/Ports/Crtc.antt =====
-- What framebuffer.c relies on of the VGA card: port 0x3D4 selects a register, port 0x3D5 writes
-- and reads the selected one, and a register holds a byte.
use if2230_2023_hexos.Prelude.{ℕ, ◌%◌, ◌<◌, ◌≡◌, ◌==◌, if◌then◌else◌}
use if2230_2023_hexos.Ports.{Bus}

pub record Crtc (bus : Bus) : Type 0 where
  pub selected : bus.Devices → ℕ
  pub register : bus.Devices → ℕ → ℕ
  pub register_byte : (d : bus.Devices) (i : ℕ) → register d i < 256
  pub select : (v : ℕ) (d : bus.Devices) → selected (bus.out 0x3D4 v d) ≡ v
  pub select_register :
      (v : ℕ) (d : bus.Devices) (i : ℕ) → register (bus.out 0x3D4 v d) i ≡ register d i
  pub write_selected : (v : ℕ) (d : bus.Devices) → selected (bus.out 0x3D5 v d) ≡ selected d
  pub write_register :
      (v : ℕ) (d : bus.Devices) (i : ℕ)
      → register (bus.out 0x3D5 v d) i ≡ (if i == selected d then v % 256 else register d i)
  pub read_value : (d : bus.Devices) → (bus.in_byte 0x3D5 d).0 ≡ register d (selected d)
  pub read_register : (d : bus.Devices) (i : ℕ) → register (bus.in_byte 0x3D5 d).1 i ≡ register d i
