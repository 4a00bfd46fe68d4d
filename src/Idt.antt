-- ===== src/Idt.antt =====
-- idt.h and idt.c: the interrupt gates. `isr_stub_table`, the addresses of the assembled handlers of
-- intsetup.s, is an argument.
pub mod Gates
use if2230_2023_hexos.Prelude.{ℕ, zero, suc, ◌+◌, ◌/◌, ◌%◌, ◌^◌, ◌&&◌, ◌==◌, leb, if◌then◌else◌}

abbrev isr_stub_table_limit : ℕ
isr_stub_table_limit = 64

abbrev gdt_kernel_code_segment_selector : ℕ
gdt_kernel_code_segment_selector = 0x8

pub record IdtGate : Type 0 where
  pub offset_low : ℕ
  pub segment : ℕ
  pub reserved : ℕ
  pub r_bit_1 : ℕ
  pub r_bit_2 : ℕ
  pub gate_32 : ℕ
  pub r_bit_3 : ℕ
  pub privilege : ℕ
  pub valid_bit : ℕ
  pub offset_high : ℕ

-- `interrupt_descriptor_table`, all zero at the start.
unfoldable pub interrupt_descriptor_table : ℕ → IdtGate
interrupt_descriptor_table i = record {
  offset_low = 0;
  segment = 0;
  reserved = 0;
  r_bit_1 = 0;
  r_bit_2 = 0;
  gate_32 = 0;
  r_bit_3 = 0;
  privilege = 0;
  valid_bit = 0;
  offset_high = 0;
}

-- `int_vector` is an `uint8_t`, the privilege a field of two bits.
unfoldable pub set_interrupt_gate : ℕ → ℕ → ℕ → ℕ → (ℕ → IdtGate) → ℕ → IdtGate
set_interrupt_gate int_vector handler_address gdt_seg_selector privilege table i =
    if i == int_vector % 256
    then record {
      r_bit_1 = 0b000;
      r_bit_2 = 0b110;
      r_bit_3 = 0b0;
      gate_32 = 1;
      valid_bit = 1;
      privilege = privilege % 4;
      segment = gdt_seg_selector % 2 ^ 16;
      offset_low = handler_address % 2 ^ 16;
      offset_high = handler_address / 2 ^ 16 % 2 ^ 16;
      reserved = 0;
    }
    else table i

-- `(i >= 0x30 && i <= 0x3F) ? 0x3 : 0`
abbrev pub gate_privilege : ℕ → ℕ
gate_privilege i = if leb 0x30 i && leb i 0x3F then 3 else 0

-- The loop, `k` rounds from `i` on.
unfoldable pub idt_loop : ℕ → ℕ → (ℕ → ℕ) → (ℕ → IdtGate) → ℕ → IdtGate
idt_loop zero i isr_stub_table table = table
idt_loop (suc k) i isr_stub_table table = idt_loop k (i + 1) isr_stub_table (
    set_interrupt_gate i (isr_stub_table i) gdt_kernel_code_segment_selector (gate_privilege i)
      table)

-- `initialize_idt`, up to the two assembler instructions at its end.
unfoldable pub initialize_idt : (ℕ → ℕ) → (ℕ → IdtGate) → ℕ → IdtGate
unfolding idt_loop
initialize_idt isr_stub_table table = idt_loop isr_stub_table_limit 0 isr_stub_table table
