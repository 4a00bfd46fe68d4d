-- ===== src/Gdt/Base.antt =====
-- The fields of a descriptor, put together.
use if2230_2023_hexos.Prelude.{ℕ, ◌+◌, ◌*◌, ◌^◌, ◌<◌, ◌≡◌, ◌≢◌, refl, arith}
use if2230_2023_hexos.Gdt.{SegmentDescriptor, gdt_install_tss}

-- The base address and the limit that the processor reads from a descriptor.
abbrev pub base_of : SegmentDescriptor → ℕ
base_of d = d.base_high * 2 ^ 24 + d.base_mid * 2 ^ 16 + d.base_low

abbrev pub limit_of : SegmentDescriptor → ℕ
limit_of d = d.segment_high * 2 ^ 16 + d.segment_low

-- After `gdt_install_tss` with a 32-bit address, descriptor 5 has the base address of the TSS, its limit, type and
-- privilege are kept, and the other descriptors are as they were.
pub base_of-gdt_install_tss :
    (base : ℕ) (table : ℕ → SegmentDescriptor)
    → base < 2 ^ 32
    → let t = gdt_install_tss base table in
      (base_of (t 5) ≡ base)
      × (limit_of (t 5) ≡ limit_of (table 5))
      × ((t 5).type_bit ≡ (table 5).type_bit)
      × ((t 5).dpl ≡ (table 5).dpl)
      × ((i : ℕ) → i ≢ 5 → t i ≡ table i)
unfolding gdt_install_tss
base_of-gdt_install_tss base table h = (omega arith, refl, refl, refl, λ i ne. ground arith)
