-- ===== src/Keyboard/Ps2.antt =====
-- What keyboard.c relies on of the keyboard's controller, and the scancodes that a call of the
-- interrupt service routine takes from it. `pending` are the codes that the controller still has.
use if2230_2023_hexos.Prelude.{ℕ, ◌≡◌, ◌≢◌, ◌∙◌, leb, ◌==◌, if◌then◌else◌, List, ◌∷◌, false, arith}
use if2230_2023_hexos.Ports.{Bus}
use if2230_2023_hexos.Pic.{pic_ack}
use if2230_2023_hexos.Framebuffer.{framebuffer_set_cursor, framebuffer_get_cursor}
use if2230_2023_hexos.Keyboard.View.{Apart, view-set_cursor, view-get_cursor, view-handle_scancode}
use if2230_2023_hexos.Keyboard.{Machine, keyboard_isr}

-- Port 0x60 delivers the codes one by one; the ports of other devices do not touch them.
pub record Ps2 (bus : Bus) : Type 0 where
  pub pending : bus.Devices → List ℕ
  pub next_code :
      (d : bus.Devices) (c : ℕ) (cs : List ℕ)
      → pending d ≡ c ∷ cs
      → ((bus.in_byte 0x60 d).0 ≡ c) × (pending (bus.in_byte 0x60 d).1 ≡ cs)
  pub out_pending :
      (port v : ℕ) (d : bus.Devices)
      → port ≢ 0x60
      → port ≢ 0x64
      → pending (bus.out port v d) ≡ pending d
  pub in_pending :
      (port : ℕ) (d : bus.Devices)
      → port ≢ 0x60
      → port ≢ 0x64
      → pending (bus.in_byte port d).1 ≡ pending d

module _ (bus : Bus) (ps2 : Ps2 bus) where
  open ps2 use {pending, out_pending, in_pending, next_code}

  -- The ports of the cursor are none of the controller's.
  abbrev apart : Apart bus (List ℕ)
  apart = record {
    view = pending;
    out_index = λ v d. out_pending 0x3D4 v d (omega arith) (omega arith);
    out_data = λ v d. out_pending 0x3D5 v d (omega arith) (omega arith);
    in_data = λ d. in_pending 0x3D5 d (omega arith) (omega arith);
  }

  pub pending-set_cursor :
      (r c : ℕ) (d : bus.Devices) → pending (framebuffer_set_cursor bus r c d) ≡ pending d
  pending-set_cursor = view-set_cursor bus apart

  pub pending-get_cursor : (d : bus.Devices) → pending (framebuffer_get_cursor bus d).2 ≡ pending d
  pending-get_cursor = view-get_cursor bus apart

  pending-pic_ack : (irq : ℕ) (d : bus.Devices) → pending (pic_ack bus irq d) ≡ pending d
  unfolding pic_ack
  pending-pic_ack irq d = ground (
    arith,
    out_pending 0x20 0x20 (if leb 8 irq then bus.out 0xA0 0x20 d else d),
    out_pending 0xA0 0x20 d,
  )

  -- A call with the input on takes one code.
  pub pending-keyboard_isr :
      (m : Machine bus.Devices) (c : ℕ) (cs : List ℕ)
      → m.keyboard.keyboard_input_on ≢ 0
      → pending m.devices ≡ c ∷ cs
      → pending (keyboard_isr bus m).devices ≡ cs
  unfolding keyboard_isr
  pending-keyboard_isr m c cs on codes =
      let accepts : (m.keyboard.keyboard_input_on == 0) ≡ false = ground arith in
      rw accepts (
        pending-pic_ack _ _
        ∙ view-handle_scancode bus apart (bus.in_byte 0x60 m.devices).0
            (record m { devices = (bus.in_byte 0x60 m.devices).1 })
        ∙ (next_code m.devices c cs codes).1)
