-- ===== src/Pic/Remap.antt =====
-- interrupt.c: the two interrupt controllers behind `pic_remap` and `activate_keyboard_interrupt`.
use if2230_2023_hexos.Prelude.{
  ℕ, zero, suc, ◌+◌, ◌-◌, ◌/◌, ◌%◌, ◌^◌, ◌<◌, ◌≡◌, refl, ap, inl, inr, Bool, ◌&&◌, ◌==◌, ltb,
  if◌then◌else◌, Bool-cases, arith,
}
use if2230_2023_hexos.Ports.{Bus}
use if2230_2023_hexos.Ports.Pic8259.{ready, Chip, is_open, Pic8259}
use if2230_2023_hexos.Pic.{io_wait, pic_remap, activate_keyboard_interrupt}

-- A chip that has been initialised.
abbrev pub chip_at : ℕ → ℕ → ℕ → Chip
chip_at base cascade mask = record {
  phase = ready;
  vector_base = base;
  cascade = cascade;
  mode = 1;
  mask = mask;
}

-- A line of the second chip also passes the first one, on line 2.
abbrev pub passes : Chip → Chip → ℕ → Bool
passes c1 c2 irq = if ltb irq 8 then is_open c1 irq else (is_open c1 2 && is_open c2 (irq - 8))

abbrev pub vector_of : Chip → Chip → ℕ → ℕ
vector_of c1 c2 irq = if ltb irq 8 then c1.vector_base + irq else c2.vector_base + (irq - 8)

-- Of the sixteen lines only the keyboard's passes, and line `irq` has the vector `0x20 + irq`.
abbrev pub KeyboardOnly : Chip → Chip → Type 0
KeyboardOnly c1 c2 =
    (irq : ℕ) → irq < 16 → (passes c1 c2 irq ≡ (irq == 1)) × (vector_of c1 c2 irq ≡ 0x20 + irq)

-- The mask 0xFD opens line 1 alone.
keyboard_mask : (line : ℕ) → line < 8 → (0xFD / 2 ^ line % 2 == 0) ≡ (line == 1)
keyboard_mask zero l = refl
keyboard_mask (suc zero) l = refl
keyboard_mask (suc (suc zero)) l = refl
keyboard_mask (suc (suc (suc zero))) l = refl
keyboard_mask (suc (suc (suc (suc zero)))) l = refl
keyboard_mask (suc (suc (suc (suc (suc zero))))) l = refl
keyboard_mask (suc (suc (suc (suc (suc (suc zero)))))) l = refl
keyboard_mask (suc (suc (suc (suc (suc (suc (suc zero))))))) l = refl
keyboard_mask (suc (suc (suc (suc (suc (suc (suc (suc n)))))))) l = absurd (omega arith)

only_keyboard : KeyboardOnly (chip_at 0x20 0b0100 0xFD) (chip_at 0x28 0b0010 0xFF)
only_keyboard irq l = elim (Bool-cases (ltb irq 8)) [
  | inl first ↦ rw first (keyboard_mask irq (ground arith), refl)
  | inr second ↦ rw second (ground arith, ground arith)
]

module _ (bus : Bus) (pic1 : Pic8259 bus 0x20) (pic2 : Pic8259 bus 0xA0) where
  open bus use {Devices, out, in_byte}

  kept1 : (d : Devices) → (pic1.chip d).mask % 256 ≡ (pic1.chip d).mask
  kept1 d = omega (arith, pic1.mask_byte d)

  kept2 : (d : Devices) → (pic2.chip d).mask % 256 ≡ (pic2.chip d).mask
  kept2 d = omega (arith, pic2.mask_byte d)

  -- The ports of the other chip and of `io_wait`.
  other1_A0 : (v : ℕ) (d : Devices) → pic1.chip (out 0xA0 v d) ≡ pic1.chip d
  other1_A0 v d = pic1.chip_out 0xA0 v d (omega arith) (omega arith)

  other1_A1 : (v : ℕ) (d : Devices) → pic1.chip (out 0xA1 v d) ≡ pic1.chip d
  other1_A1 v d = pic1.chip_out 0xA1 v d (omega arith) (omega arith)

  other1_80 : (v : ℕ) (d : Devices) → pic1.chip (out 0x80 v d) ≡ pic1.chip d
  other1_80 v d = pic1.chip_out 0x80 v d (omega arith) (omega arith)

  other2_21 : (v : ℕ) (d : Devices) → pic2.chip (out 0x21 v d) ≡ pic2.chip d
  other2_21 v d = pic2.chip_out 0x21 v d (omega arith) (omega arith)

  other2_80 : (v : ℕ) (d : Devices) → pic2.chip (out 0x80 v d) ≡ pic2.chip d
  other2_80 v d = pic2.chip_out 0x80 v d (omega arith) (omega arith)

  pub pic1-pic_remap :
      (d : Devices) → pic1.chip (pic_remap bus d) ≡ chip_at 0x20 0b0100 (pic1.chip d).mask
  unfolding pic_remap io_wait
  pic1-pic_remap d =
      simp (other1_A0, other1_A1, other1_80, pic1.init, pic1.data_port, pic1.mask_value)
        (ap (λ (m : ℕ). chip_at 0x20 0b0100 m) (kept1 d))

  pub pic2-pic_remap :
      (d : Devices) → pic2.chip (pic_remap bus d) ≡ chip_at 0x28 0b0010 (pic2.chip d).mask
  unfolding pic_remap io_wait
  pic2-pic_remap d =
      simp
        (
          other2_21,
          other2_80,
          pic2.init,
          pic2.data_port,
          pic2.mask_value,
          pic2.chip_in 0x21 d (omega arith),
        )
        (ap (λ (m : ℕ). chip_at 0x28 0b0010 m) (kept2 d))

  pic1-activate :
      (d : Devices)
      → pic1.chip (activate_keyboard_interrupt bus (pic_remap bus d)) ≡ chip_at 0x20 0b0100 0xFD
  unfolding activate_keyboard_interrupt
  pic1-activate d = simp (other1_A1, pic1.data_port, pic1-pic_remap) refl

  pic2-activate :
      (d : Devices)
      → pic2.chip (activate_keyboard_interrupt bus (pic_remap bus d)) ≡ chip_at 0x28 0b0010 0xFF
  unfolding activate_keyboard_interrupt
  pic2-activate d = simp (other2_21, pic2.data_port, pic2-pic_remap) refl

  -- Whatever state the two controllers are in, after `pic_remap` both are ready, the lines 0 to 15 have
  -- the vectors 0x20 to 0x2F, the second controller is on line 2 of the first, and the masks are as they
  -- were. After `activate_keyboard_interrupt` the keyboard's line is the only one that passes.
  pub pic_remap-Remapped :
      (d : Devices)
      → let d1 = pic_remap bus d in
        let d2 = activate_keyboard_interrupt bus d1 in
        (pic1.chip d1 ≡ chip_at 0x20 0b0100 (pic1.chip d).mask)
        × (pic2.chip d1 ≡ chip_at 0x28 0b0010 (pic2.chip d).mask)
        × KeyboardOnly (pic1.chip d2) (pic2.chip d2)
  pic_remap-Remapped d =
      (pic1-pic_remap d, pic2-pic_remap d, rw (pic1-activate d, pic2-activate d) only_keyboard)
