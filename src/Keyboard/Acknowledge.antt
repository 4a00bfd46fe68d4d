-- ===== src/Keyboard/Acknowledge.antt =====
-- keyboard.c: the end of an interrupt, as the controller sees it.
use if2230_2023_hexos.Prelude.{
  ℕ, ◌≡◌, refl, ap, ◌∙◌, inl, inr, Bool, true, false, not, ◌&&◌, ◌==◌, Bool-cases, arith,
}
use if2230_2023_hexos.Prelude.Scan.{first_index-eq}
use if2230_2023_hexos.Ports.{Bus}
use if2230_2023_hexos.Ports.Pic8259.{end_highest, Pic8259}
use if2230_2023_hexos.Pic.{pic_ack}
use if2230_2023_hexos.Keyboard.{Machine, handle_scancode, keyboard_isr}
use if2230_2023_hexos.Keyboard.View.{Apart, view-handle_scancode}

-- Line 1 is the highest one in service.
end_highest-keyboard :
    (lines : ℕ → Bool) (line : ℕ)
    → lines 0 ≡ false
    → lines 1 ≡ true
    → end_highest lines line ≡ (lines line && not (line == 1))
end_highest-keyboard lines line timer keyboard =
    rw (first_index-eq lines 8 1 (omega arith) keyboard (λ l below. ground arith)) refl

module _ (bus : Bus) (pic1 : Pic8259 bus 0x20) where
  open pic1 use {in_service}

  abbrev apart : Apart bus (ℕ → Bool)
  apart = record {
    view = in_service;
    out_index = λ v d. pic1.service_out 0x3D4 v d (omega arith) (omega arith);
    out_data = λ v d. pic1.service_out 0x3D5 v d (omega arith) (omega arith);
    in_data = λ d. pic1.service_in 0x3D5 d (omega arith);
  }

  in_service-pic_ack :
      (d : bus.Devices) (line : ℕ)
      → in_service (pic_ack bus 1 d) line ≡ end_highest (in_service d) line
  unfolding pic_ack
  in_service-pic_ack d line = pic1.end_of_interrupt d line

  in_service-scancode :
      (m : Machine bus.Devices)
      → in_service
          (handle_scancode bus
            (bus.in_byte 0x60 m.devices).0
            (record m { devices = (bus.in_byte 0x60 m.devices).1 })).devices
        ≡ in_service m.devices
  in_service-scancode m =
      view-handle_scancode bus apart (bus.in_byte 0x60 m.devices).0
        (record m { devices = (bus.in_byte 0x60 m.devices).1 })
      ∙ pic1.service_in 0x60 m.devices (omega arith)

  -- If the keyboard's line is in service and the timer's is not, then the interrupt service routine,
  -- whatever the key and the driver's state are, takes the keyboard's line out of service, and no
  -- other one.
  pub in_service-keyboard_isr :
      (m : Machine bus.Devices)
      → in_service m.devices 0 ≡ false
      → in_service m.devices 1 ≡ true
      → (line : ℕ)
      → in_service (keyboard_isr bus m).devices line
        ≡ (in_service m.devices line && not (line == 1))
  unfolding keyboard_isr
  in_service-keyboard_isr m timer keyboard line =
      elim (Bool-cases (m.keyboard.keyboard_input_on == 0)) [
        | inl off ↦ rw off (
            in_service-pic_ack m.devices line
            ∙ end_highest-keyboard (in_service m.devices) line timer keyboard)
        | inr on ↦ rw on (
            in_service-pic_ack _ line
            ∙ ap (λ (lines : ℕ → Bool). end_highest lines line) (in_service-scancode m)
            ∙ end_highest-keyboard (in_service m.devices) line timer keyboard)
      ]
