-- ===== src/Inserter/Tests/Program.antt =====
-- A program that reads the file that has been stored before the start.
use if2230_2023_hexos.Prelude.{
  ◌≡◌, refl, inl, inr, false, ◌==◌, if◌then◌else◌, Bool-cases, [], ◌∷◌, Buf, bytes_of, load32,
  arith,
}
use if2230_2023_hexos.Stdmem.Compare.{Agree-of_memcmp}
use if2230_2023_hexos.Fat32.Cluster.{byte_of}
use if2230_2023_hexos.Fat32.Search.{has_name}
use if2230_2023_hexos.Fat32.Small.{zeros}
use if2230_2023_hexos.Fat32.Init.Boot.{create_fat32_lem}
use if2230_2023_hexos.Fat32.Read.{is_file_entry}
use if2230_2023_hexos.Fat32.Directory.{find, Asks}
use if2230_2023_hexos.Interrupt.{CpuRegister, Kernel, request_at, main_interrupt_handler}
use if2230_2023_hexos.Interrupt.Lookup.{Looked, interrupt-Looked}
use if2230_2023_hexos.Tests.{Vga, vga_bus}
use if2230_2023_hexos.Setup.Tests.{reset}
use if2230_2023_hexos.Inserter.Tests.{blank_state, request, formatted}
use if2230_2023_hexos.Inserter.Tests.Root.{root-IsBlank, restarted, shell_restarted}

-- A request at 0x1000 for the file `shell` in the root folder, with 512 bytes at 0x3000.
abbrev memory : Buf
memory a =
    if a == 0x1001
    then 0x30
    else if a == 0x1004
    then b's'
    else if a == 0x1005
    then b'h'
    else if a == 0x1006
    then b'e'
    else if a == 0x1007
    then b'l'
    else if a == 0x1008
    then b'l'
    else if a == 0x100F
    then 2
    else if a == 0x1014
    then 2
    else 0

abbrev running : Kernel Vga
running = record {
  machine = reset.kernel.machine;
  files = restarted;
  listing = zeros;
  memory = memory;
}

abbrev registers : CpuRegister
registers = record { eax = 0; ebx = 0x1000; ecx = 0x2000; edx = 0; ebp = 0; esp = 0 }

program_other : is_file_entry (request_at memory 0x1000) (byte_of formatted.disk 2) 0 ≡ false
unfolding request_at has_name bytes_of
program_other =
    elim (Bool-cases (has_name (request_at memory 0x1000) (byte_of formatted.disk 2) 0)) [
      | inr other ↦ rw other refl
      | inl hit ↦ absurd (
          ground (
            arith,
            Agree-of_memcmp (byte_of formatted.disk 2) 0 (request_at memory 0x1000).name 0 8 hit 0,
            (create_fat32_lem blank_state).1.title 0 (omega arith),
          ))
    ]

program-Asks : Asks 2 formatted.disk (request_at memory 0x1000)
unfolding request_at load32
program-Asks = record { parent = refl; named = λ e. ground arith; other = program_other }

interrupt-Looked_example :
    Looked registers running
      (find (request_at memory 0x1000) (request ∷ []))
      (main_interrupt_handler vga_bus 0 registers 0x30 running)
unfolding request_at load32
interrupt-Looked_example =
    interrupt-Looked vga_bus registers running 0 formatted refl root-IsBlank shell_restarted
      program-Asks
