-- ===== src/Gdt.antt =====
-- gdt.h and gdt.c: the segment descriptors and the installation of the TSS. The address of
-- `_interrupt_tss_entry`, which the linker chooses, is an argument.
pub mod Base
use if2230_2023_hexos.Prelude.{ℕ, zero, suc, ◌-◌, ◌*◌, ◌/◌, ◌%◌, ◌^◌, ◌==◌, if◌then◌else◌}

pub record SegmentDescriptor : Type 0 where
  pub segment_low : ℕ
  pub base_low : ℕ
  pub base_mid : ℕ
  pub type_bit : ℕ
  pub non_system : ℕ
  pub dpl : ℕ
  pub present : ℕ
  pub segment_high : ℕ
  pub reserved : ℕ
  pub long_mode : ℕ
  pub operation_size : ℕ
  pub granularity : ℕ
  pub base_high : ℕ

abbrev pub null_descriptor : SegmentDescriptor
null_descriptor = record {
  segment_low = 0;
  base_low = 0;
  base_mid = 0;
  type_bit = 0;
  non_system = 0;
  dpl = 0;
  present = 0;
  segment_high = 0;
  reserved = 0;
  long_mode = 0;
  operation_size = 0;
  granularity = 0;
  base_high = 0;
}

abbrev pub kernel_code : SegmentDescriptor
kernel_code = record null_descriptor {
  segment_low = 0xFFFF;
  type_bit = 0xA;
  non_system = 1;
  present = 1;
  segment_high = 0xF;
  operation_size = 1;
  granularity = 1;
}

abbrev pub kernel_data : SegmentDescriptor
kernel_data = record kernel_code { type_bit = 0x2 }

abbrev pub user_code : SegmentDescriptor
user_code = record kernel_code { dpl = 3; long_mode = 1 }

abbrev pub user_data : SegmentDescriptor
user_data = record kernel_data { dpl = 3 }

-- `sizeof(struct TSSEntry)`: 26 words.
abbrev pub tss_size : ℕ
tss_size = 104

abbrev pub tss_segment : SegmentDescriptor
tss_segment = record null_descriptor {
  segment_low = tss_size;
  type_bit = 0x9;
  present = 1;
  segment_high = tss_size / 2 ^ 16 % 16;
  operation_size = 1;
}

-- `global_descriptor_table`
unfoldable pub global_descriptor_table : ℕ → SegmentDescriptor
global_descriptor_table zero = null_descriptor
global_descriptor_table (suc zero) = kernel_code
global_descriptor_table (suc (suc zero)) = kernel_data
global_descriptor_table (suc (suc (suc zero))) = user_code
global_descriptor_table (suc (suc (suc (suc zero)))) = user_data
global_descriptor_table (suc (suc (suc (suc (suc zero))))) = tss_segment
global_descriptor_table (suc (suc (suc (suc (suc (suc n)))))) = null_descriptor

-- `_gdt_gdtr.size`: 32 descriptors of 8 bytes, less one.
abbrev pub gdtr_size : ℕ
gdtr_size = 32 * 8 - 1

unfoldable pub gdt_install_tss : ℕ → (ℕ → SegmentDescriptor) → ℕ → SegmentDescriptor
gdt_install_tss base table i =
    if i == 5
    then record (table i) {
      base_high = base / 2 ^ 24 % 256;
      base_mid = base / 2 ^ 16 % 256;
      base_low = base % 2 ^ 16;
    }
    else table i
