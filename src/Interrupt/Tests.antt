-- ===== src/Interrupt/Tests.antt =====
-- The system calls at concrete values, on devices that are only a queue of scancodes.
use if2230_2023_hexos.Prelude.{
  ◌≢◌, ℤ, ℕ, ◌+◌, ◌*◌, ◌≡◌, refl, ap, ◌==◌, if◌then◌else◌, List, [], ◌∷◌, ◌++◌, Buf, IsBytes,
  bytes_of, load32, done, diverges, arith,
}
use if2230_2023_hexos.Ports.{Bus}
use if2230_2023_hexos.Tests.{Vga, vga_bus, vga_card, powered_on}
use if2230_2023_hexos.Framebuffer.Cursor.{position}
use if2230_2023_hexos.Framebuffer.{framebuffer_get_cursor}
use if2230_2023_hexos.Keyboard.{Machine}
use if2230_2023_hexos.Keyboard.Ps2.{Ps2}
use if2230_2023_hexos.Keyboard.Codes.{codes_of}
use if2230_2023_hexos.Keyboard.Tests.{hex_keys, hex_keys-AreCharacters, waiting}
use if2230_2023_hexos.Fat32.Cluster.{read_clusters, read_clusters_lem}
use if2230_2023_hexos.Fat32.Read.{load_parent}
use if2230_2023_hexos.Fat32.Read.Outcomes.{loaded}
use if2230_2023_hexos.Fat32.Small.{
  zeros, small_disk, small_state, small_state-IsSynced, request_for,
}
use if2230_2023_hexos.Interrupt.{CpuRegister, Kernel, request_at, puts, cmd_ls, syscall}
use if2230_2023_hexos.Interrupt.Puts.{Printed, position-puts, puts-diverges}
use if2230_2023_hexos.Interrupt.Listing.{Listed, cmd_ls-Listed}
use if2230_2023_hexos.Interrupt.Reading.{ReadCall, syscall-ReadCall}
use if2230_2023_hexos.Interrupt.Folder.{Mkdir, syscall-Mkdir}
use if2230_2023_hexos.Fat32.{IsRequest}
use if2230_2023_hexos.Fat32.Layout.{cluster_map}
use if2230_2023_hexos.Fat32.Write.Outcomes.{ParentInUse}
use if2230_2023_hexos.Interrupt.Line.{LineRead, syscall-LineRead}

abbrev take_code : List ℕ → ℕ × List ℕ
take_code [] = (0, [])
take_code (c ∷ cs) = (c, cs)

abbrev pub queue_bus : Bus
queue_bus = record {
  Devices = List ℕ;
  out = λ port v d. d;
  in_byte = λ port d. if port == 0x60 then take_code d else (0, d);
  out16 = λ port v d. d;
  in16 = λ port d. (0, d);
}

pub queue_in : (port : ℕ) (d : List ℕ) → port ≢ 0x60 → (queue_bus.in_byte port d).1 ≡ d
queue_in port d other = ground arith

unfoldable pub queue_ps2 : Ps2 queue_bus
queue_ps2 = record {
  pending = λ d. d;
  next_code = λ d c cs e. (ap (λ l. (take_code l).0) e, ap (λ l. (take_code l).1) e);
  out_pending = λ port v d n n'. refl;
  in_pending = λ port d n n'. queue_in port d n;
}

abbrev typing_machine : Machine (List ℕ)
typing_machine = record {
  keyboard = waiting.keyboard;
  screen = zeros;
  devices = codes_of hex_keys ++ 0x12 ∷ [];
}

-- A request at 0x1000 for the file `b`, with 512 bytes at 0x3000.
abbrev memory : Buf
memory a =
    if a == 0x1001
    then 0x30
    else if a == 0x1004
    then b'b'
    else if a == 0x100F
    then 2
    else if a == 0x1014
    then 2
    else 0

abbrev pub kernel : Kernel (List ℕ)
kernel = record { machine = typing_machine; files = small_state; listing = zeros; memory = memory }

abbrev read_registers : CpuRegister
read_registers = record { eax = 0; ebx = 0x1000; ecx = 0x2000; edx = 0; ebp = 0; esp = 0 }

abbrev line_registers : CpuRegister
line_registers = record { eax = 4; ebx = 0x5000; ecx = 16; edx = 0; ebp = 0; esp = 0 }

abbrev greeting : Buf
greeting = bytes_of (b'h' ∷ b'e' ∷ b'x' ∷ b'O' ∷ b'S' ∷ [])

syscall-LineRead_example :
    (k' : Kernel (List ℕ)) × (syscall queue_bus 8 line_registers kernel ≡ done k')
    × LineRead queue_bus queue_ps2 hex_keys (0x12 ∷ []) line_registers kernel k'
unfolding queue_ps2
syscall-LineRead_example =
    syscall-LineRead queue_bus queue_ps2 8 hex_keys (0x12 ∷ []) line_registers kernel refl
      hex_keys-AreCharacters refl refl (omega arith) (omega arith) (omega arith)

table-IsBytes : IsBytes (loaded (request_at memory 0x1000) small_state)
unfolding load_parent request_at load32
table-IsBytes a = ground (arith, read_clusters_lem zeros 2 small_disk a (omega arith))

syscall-ReadCall_example :
    ReadCall read_registers kernel (syscall queue_bus 0 read_registers kernel)
syscall-ReadCall_example = syscall-ReadCall queue_bus read_registers kernel 0 refl table-IsBytes

abbrev text_machine : Machine Vga
text_machine = record { keyboard = waiting.keyboard; screen = zeros; devices = powered_on }

position-puts_example :
    (m' : Machine Vga) × (puts vga_bus 6 greeting 5 0xF 24 3 text_machine ≡ done m')
    × Printed greeting 0 5 0xF 24 3 text_machine.screen m'.screen
    × (m'.keyboard ≡ text_machine.keyboard)
    × (position vga_bus vga_card m'.devices ≡ (if 3 + 5 == 256 then 80 * 24 else 80 * 24 + 3 + 5))
position-puts_example =
    position-puts vga_bus vga_card 6 greeting 5 0xF 24 3 text_machine (omega arith) (omega arith)
      (omega arith) (omega arith)

puts-diverges_example : puts queue_bus 1000 greeting 256 0xF 24 3 typing_machine ≡ diverges
puts-diverges_example =
    puts-diverges queue_bus 1000 greeting 256 0xF 24 3 typing_machine (omega arith)

cmd_ls-Listed_example :
    let table =
      read_clusters kernel.listing (request_for b'a' 0).parent_cluster_number 1 small_disk in
    (k' : Kernel (List ℕ)) × (cmd_ls queue_bus 9 (request_for b'a' 0) 5 0 kernel ≡ done k')
    × (k'.files ≡ kernel.files)
    × (k'.memory ≡ kernel.memory)
    × (k'.machine.keyboard ≡ kernel.machine.keyboard)
    × Listed table 0 64 5 0 kernel.machine.screen k'.machine.screen
cmd_ls-Listed_example =
    cmd_ls-Listed queue_bus 9 (request_for b'a' 0) 5 0 kernel (omega arith) (omega arith)
      (omega arith)

-- A request at 0x1000 for a new folder `d` in the root folder.
abbrev folder_memory : Buf
folder_memory a = if a == 0x1004 then b'd' else if a == 0x100F then 2 else 0

abbrev folder_kernel : Kernel (List ℕ)
folder_kernel = record kernel { memory = folder_memory }

abbrev folder_registers : CpuRegister
folder_registers = record { eax = 10; ebx = 0x1000; ecx = 0x2000; edx = 0; ebp = 0; esp = 0 }

folder-IsRequest : IsRequest (request_at folder_memory 0x1000)
unfolding request_at load32
folder-IsRequest = record { parent_width = omega arith; size_width = omega arith }

folder-ParentInUse : ParentInUse (request_at folder_memory 0x1000) small_state
unfolding request_at load32 cluster_map
folder-ParentInUse h p = omega arith

syscall-Mkdir_example :
    let (row, col, d) = framebuffer_get_cursor queue_bus folder_kernel.machine.devices in
    (code : ℤ) × (k' : Kernel (List ℕ)) × (syscall queue_bus 25 folder_registers folder_kernel
      ≡ done k')
    × Mkdir queue_bus folder_registers folder_kernel row col code k'
syscall-Mkdir_example =
    syscall-Mkdir queue_bus folder_registers folder_kernel 25 refl (omega arith) folder-IsRequest
      folder-ParentInUse small_state-IsSynced
