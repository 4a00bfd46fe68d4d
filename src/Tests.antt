-- ===== src/Tests.antt =====
-- The theorems outside of the file system, at concrete values.
use if2230_2023_hexos.Prelude.{
  ℕ, ◌+◌, ◌-◌, ◌*◌, ◌%◌, ◌^◌, ◌≤◌, ◌<◌, ◌≡◌, ◌≢◌, refl, ◌&&◌, ◌==◌, ltb, leb, if◌then◌else◌, [],
  ◌∷◌, Buf, bytes_of, store, store_lem, pos, arith,
}
use if2230_2023_hexos.Stdmem.{memcmp, memmove}
use if2230_2023_hexos.Stdmem.Compare.{Differ, memcmp-Differ}
use if2230_2023_hexos.Stdmem.Move.{memmove_lem}
use if2230_2023_hexos.Paging.{
  page_index, user_flag, initial_paging, update_page_directory_entry,
  allocate_single_user_page_frame,
}
use if2230_2023_hexos.Paging.Translation.{
  target_of, mapped, translate, translate-update, allocate_all, allocate-same_frame,
}
use if2230_2023_hexos.Idt.{initialize_idt, interrupt_descriptor_table}
use if2230_2023_hexos.Idt.Gates.{IsGate, initialize_idt-IsGate}
use if2230_2023_hexos.Gdt.{global_descriptor_table, gdt_install_tss}
use if2230_2023_hexos.Gdt.Base.{base_of, limit_of, base_of-gdt_install_tss}
use if2230_2023_hexos.Ports.{Bus}
use if2230_2023_hexos.Ports.Crtc.{Crtc}

abbrev word : Buf
word = bytes_of (b'h' ∷ b'e' ∷ b'x' ∷ b'O' ∷ b'S' ∷ [])

abbrev other_word : Buf
other_word = bytes_of (b'h' ∷ b'e' ∷ b'y' ∷ [])

memmove_lem_example :
    memmove word 1 0 4 3 ≡ (if leb 1 3 && ltb 3 (1 + 4) then word (0 + (3 - 1)) else word 3)
memmove_lem_example = memmove_lem word 1 0 4 3

memcmp-Differ_example : Differ word 0 other_word 0 0 5 (memcmp word 0 other_word 0 5)
memcmp-Differ_example = memcmp-Differ word 0 other_word 0 5

translate-update_example :
    let s = update_page_directory_entry 0x0040_0000 0 user_flag initial_paging in
    (translate s 0x1234 ≡ (
      if page_index 0x1234 == page_index 0
      then target_of user_flag 0x0040_0000 (0x1234 % 2 ^ 22)
      else translate initial_paging 0x1234))
    × (s.flushed ≡ 0 ∷ [])
unfolding initial_paging
translate-update_example =
    translate-update 0x0040_0000 0 user_flag initial_paging 0x1234 (omega arith) (omega arith) refl

allocate-same_frame_example :
    let (r, s) =
      allocate_single_user_page_frame 0x0080_0000
        (allocate_all (0 ∷ 0x0040_0000 ∷ []) initial_paging).1 in
    (r ≡ pos 0) × (translate s 0x0080_0010 ≡ mapped 1 1 (2 ^ 22 + 0x0080_0010 % 2 ^ 22))
allocate-same_frame_example =
    allocate-same_frame (0 ∷ 0x0040_0000 ∷ []) 0x0080_0000 0x0080_0010 refl

-- Sixteen bytes of code for each handler.
abbrev pub stubs : ℕ → ℕ
stubs v = (0x0010_0000 + 16 * v) % 2 ^ 32

initialize_idt-IsGate_example :
    ((v : ℕ)
      → v < 64
      → IsGate
          (stubs v)
          (if leb 0x30 v && leb v 0x3F then 3 else 0)
          (initialize_idt stubs interrupt_descriptor_table v))
    × ((v : ℕ)
        → 64 ≤ v
        → initialize_idt stubs interrupt_descriptor_table v ≡ interrupt_descriptor_table v)
initialize_idt-IsGate_example =
    initialize_idt-IsGate stubs interrupt_descriptor_table (λ v. omega arith)

base_of-gdt_install_tss_example :
    let t = gdt_install_tss 0xC012_3456 global_descriptor_table in
    (base_of (t 5) ≡ 0xC012_3456)
    × (limit_of (t 5) ≡ limit_of (global_descriptor_table 5))
    × ((t 5).type_bit ≡ (global_descriptor_table 5).type_bit)
    × ((t 5).dpl ≡ (global_descriptor_table 5).dpl)
    × ((i : ℕ) → i ≢ 5 → t i ≡ global_descriptor_table i)
base_of-gdt_install_tss_example =
    base_of-gdt_install_tss 0xC012_3456 global_descriptor_table (omega arith)

-- A card with an index register and byte registers behind the two ports.
pub record Vga : Type 0 where
  pub index : ℕ
  pub registers : Buf

abbrev pub vga_bus : Bus
vga_bus = record {
  Devices = Vga;
  out = λ port v d.
      if port == 0x3D4
      then record d { index = v }
      else if port == 0x3D5
      then record d { registers = store d.registers d.index v }
      else d;
  out16 = λ port v d. d;
  in16 = λ port d. (0, d);
  in_byte = λ port d. (if port == 0x3D5 then d.registers d.index % 256 else 0, d);
}

pub vga_write :
    (v : ℕ) (d : Vga) (i : ℕ)
    → store d.registers d.index v i % 256 ≡ (if i == d.index then v % 256 else d.registers i % 256)
vga_write v d i = ground (arith, store_lem d.registers d.index v i)

unfoldable pub vga_card : Crtc vga_bus
vga_card = record {
  selected = λ d. d.index;
  register = λ d i. d.registers i % 256;
  register_byte = λ d i. omega arith;
  select = λ v d. refl;
  select_register = λ v d i. refl;
  write_selected = λ v d. refl;
  write_register = λ v d i. vga_write v d i;
  read_value = λ d. refl;
  read_register = λ d i. refl;
}

abbrev pub powered_on : Vga
powered_on = record { index = 0; registers = λ i. 0 }
