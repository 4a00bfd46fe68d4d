-- ===== src/Disk/Wait.antt =====
-- filesystem/disk.c: the two waits, and the command that a transfer begins with.
use if2230_2023_hexos.Prelude.{
  ℕ, zero, suc, ◌/◌, ◌%◌, ◌^◌, ◌<◌, ◌≡◌, refl, ◌∙◌, inl, inr, true, false, ◌==◌, Bool-cases,
  eq_of_beq, done, arith,
}
use if2230_2023_hexos.Ports.{Bus}
use if2230_2023_hexos.Disk.{ata_busy_wait, ata_drq_wait}
use if2230_2023_hexos.Disk.Ata.{Ata}

module _ (bus : Bus) (disk : Ata bus) where
  open bus use {Devices, in_byte, out}

  -- After a wait the disk is not busy, and its medium and its transfer are as before.
  pub record Ready (d d' : Devices) : Type 0 where
    pub idle : disk.waiting d' ≡ 0
    pub medium : (a : ℕ) → disk.medium d' a ≡ disk.medium d a
    pub direction : disk.direction d' ≡ disk.direction d
    pub position : disk.position d' ≡ disk.position d
    pub left : disk.left d' ≡ disk.left d

  Ready-poll : (d d' : Devices) → Ready (in_byte 0x1F7 d).1 d' → Ready d d'
  Ready-poll d d' r = record {
    idle = r.idle;
    medium = λ a. r.medium a ∙ disk.poll_medium d a;
    direction = r.direction ∙ (disk.poll_transfer d).0;
    position = r.position ∙ (disk.poll_transfer d).1;
    left = r.left ∙ (disk.poll_transfer d).2;
  }

  Ready-here : (d : Devices) → disk.waiting d ≡ 0 → Ready d (in_byte 0x1F7 d).1
  Ready-here d idle = record {
    idle = ground (arith, disk.poll_waiting d);
    medium = λ a. disk.poll_medium d a;
    direction = (disk.poll_transfer d).0;
    position = (disk.poll_transfer d).1;
    left = (disk.poll_transfer d).2;
  }

  pub ata_busy_wait-Ready :
      (fuel : ℕ) (d : Devices)
      → disk.waiting d < fuel
      → (d' : Devices) × (ata_busy_wait bus fuel d ≡ done d') × Ready d d'
  unfolding ata_busy_wait
  ata_busy_wait-Ready zero d h = absurd (omega arith)
  ata_busy_wait-Ready (suc fuel) d h = elim (Bool-cases (disk.waiting d == 0)) [
    | inl e ↦
        let idle : disk.waiting d ≡ 0 = eq_of_beq _ _ e in
        let clear : ((in_byte 0x1F7 d).0 / 2 ^ 7 % 2 == 1) ≡ false =
          ground (arith, (disk.poll_ready d idle).0) in
        ((in_byte 0x1F7 d).1, rw clear refl, Ready-here d idle)
    | inr e ↦
        let busy : ((in_byte 0x1F7 d).0 / 2 ^ 7 % 2 == 1) ≡ true =
          ground (arith, disk.poll_busy d (ground arith)) in
        let (d', ends, ready) =
          ata_busy_wait-Ready fuel (in_byte 0x1F7 d).1 (ground (arith, disk.poll_waiting d)) in
        (d', rw busy ends, Ready-poll d d' ready)
  ]

  pub ata_drq_wait-Ready :
      (fuel : ℕ) (d : Devices)
      → disk.waiting d ≡ 0
      → 0 < fuel
      → (d' : Devices) × (ata_drq_wait bus fuel d ≡ done d') × Ready d d'
  unfolding ata_drq_wait
  ata_drq_wait-Ready zero d idle h = absurd (omega arith)
  ata_drq_wait-Ready (suc fuel) d idle h =
      let set : ((in_byte 0x1F7 d).0 / 2 ^ 6 % 2 == 0) ≡ false =
        ground (arith, (disk.poll_ready d idle).1) in
      ((in_byte 0x1F7 d).1, rw set refl, Ready-here d idle)
