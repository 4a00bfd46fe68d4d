-- ===== src/Interrupt.antt =====
-- interrupt/interrupt.h and interrupt.c: the system calls and the dispatch of interrupts, on the
-- kernel's state and the memory of the user program. A call runs on fuel, for the loop of `puts` and
-- for the wait for the keyboard, in which one interrupt arrives for each unit of fuel.
mod State
pub mod Puts
pub mod Listing
pub mod Reading
pub mod Lookup
pub mod Line
pub mod Folder
pub mod Tests
unfoldable pub use State.*
use if2230_2023_hexos.Prelude.{
  ℕ, zero, suc, ◌+◌, ◌-◌, ◌*◌, ◌%◌, ◌^◌, not, ltb, ◌==◌, if◌then◌else◌, List, [], ◌∷◌, Buf,
  bytes_of, load32, store, ℤ, pos, negsuc, Run, done, fault, diverges, ◌>>=◌,
}
use if2230_2023_hexos.Stdmem.{memcpy}
use if2230_2023_hexos.Ports.{Bus}
use if2230_2023_hexos.Pic.{irq_keyboard}
use if2230_2023_hexos.Framebuffer.{
  framebuffer_write, framebuffer_set_cursor, framebuffer_get_cursor,
}
use if2230_2023_hexos.Keyboard.{
  keyboard_buffer_size, Machine, keyboard_state_activate, get_keyboard_buffer, is_keyboard_blocking,
  keyboard_isr,
}
use if2230_2023_hexos.Fat32.{entry_count, root_cluster_number, DriverRequest, DriverState}
use if2230_2023_hexos.Fat32.Layout.{entry_size, name_at}
use if2230_2023_hexos.Fat32.Cluster.{read_clusters}
use if2230_2023_hexos.Fat32.Read.{read}
use if2230_2023_hexos.Fat32.Write.{write}

module _ (bus : Bus) where
  open bus use {Devices}

  -- `for (i = 0; i < len; i++)` with an `uint8_t` counter. It ends with the counter's value.
  unfoldable pub puts_loop : ℕ → Buf → ℕ → ℕ → ℕ → ℕ → ℕ → Buf → Run (ℕ × Buf)
  puts_loop zero str i len color row col screen = diverges
  puts_loop (suc fuel) str i len color row col screen =
      let rest =
        puts_loop fuel str ((i + 1) % 256) len color row col
          (framebuffer_write row ((col + i) % 256) (str i) (color % 256) 0 screen) in
      if ltb i len then rest else done (i, screen)

  -- `puts`
  unfoldable pub puts : ℕ → Buf → ℕ → ℕ → ℕ → ℕ → Machine Devices → Run (Machine Devices)
  puts fuel str len color row col m = do
    (i, screen) ← puts_loop fuel str 0 len color row col m.screen
    done (record m {
      screen = screen;
      devices = framebuffer_set_cursor bus row ((col + i) % 256) m.devices;
    })

  -- `for (int i = 0; i < 64; i++)`, `k` entries from `i` on.
  unfoldable pub ls_loop : ℕ → ℕ → ℕ → Buf → ℕ → ℕ → Machine Devices → Run (Machine Devices)
  ls_loop fuel zero i table row col m = done m
  ls_loop fuel (suc k) i table row col m = do
    m ←
        if not (table (name_at i) == 0)
        then puts fuel (λ a. table (name_at i + a)) 8 0xF row col m
        else done m
    ls_loop fuel k (i + 1) table row col m

  -- `cmd_ls`
  unfoldable pub cmd_ls : ℕ → DriverRequest → ℕ → ℕ → Kernel Devices → Run (Kernel Devices)
  cmd_ls fuel request row col k = do
    let table = read_clusters k.listing request.parent_cluster_number 1 k.files.disk
    m ← ls_loop fuel entry_count 0 table row col k.machine
    done (record k { machine = m; listing = table })

  -- `cmd_mkdir`
  unfoldable pub cmd_mkdir :
      ℕ → DriverRequest → CpuRegister → ℕ → ℕ → Kernel Devices → Run (Kernel Devices)
  cmd_mkdir fuel request cpu row col k = do
    (code, files) ← write request k.files
    m ←
        if cpu.ecx == 0
        then puts fuel created_text 24 0xF row col k.machine
        else puts fuel error_text 5 0xF row col k.machine
    done (record k { machine = m; files = files; memory = store_code k.memory cpu.ecx code })

  -- `while (is_keyboard_blocking());` while keyboard interrupts arrive.
  unfoldable pub wait_line : ℕ → Machine Devices → Run (Machine Devices)
  wait_line zero m = if is_keyboard_blocking m.keyboard == 0 then done m else diverges
  wait_line (suc fuel) m =
      let rest = wait_line fuel (keyboard_isr bus m) in
      if is_keyboard_blocking m.keyboard == 0 then done m else rest

  -- cpu.eax == 0
  unfoldable pub call_read : CpuRegister → Kernel Devices → Run (Kernel Devices)
  call_read cpu k = do
    (code, buf, files) ← read (request_at k.memory cpu.ebx) k.files
    done (record k {
      files = files;
      memory = store_code (put_back k.memory (load32 k.memory cpu.ebx) buf) cpu.ecx code;
    })

  -- cpu.eax == 4. `buf` is an array of 256 bytes, so a longer copy leaves it.
  unfoldable pub copy_line : CpuRegister → Kernel Devices → Machine Devices → Run (Kernel Devices)
  copy_line cpu k m =
      let buf = get_keyboard_buffer (λ a. 0) m.keyboard in
      if ltb keyboard_buffer_size cpu.ecx
      then fault
      else done (record k { machine = m; memory = memcpy k.memory cpu.ebx buf 0 cpu.ecx })

  unfoldable pub call_get_line : ℕ → CpuRegister → Kernel Devices → Run (Kernel Devices)
  call_get_line fuel cpu k = do
    m ←
        wait_line fuel
          (record (k.machine) { keyboard = keyboard_state_activate k.machine.keyboard })
    copy_line cpu k m

  -- cpu.eax == 6, and the first half of cpu.eax == 5
  unfoldable pub call_puts : ℕ → CpuRegister → ℕ → ℕ → Kernel Devices → Run (Kernel Devices)
  call_puts fuel cpu row col k = do
    m ← puts fuel (λ a. k.memory (cpu.ebx + a)) cpu.ecx cpu.edx row col k.machine
    done (record k { machine = m })

  -- The cursor at the beginning of the next row.
  unfoldable pub next_row : ℕ → Kernel Devices → Kernel Devices
  next_row row k = record k {
    machine = record (k.machine) {
      devices = framebuffer_set_cursor bus ((row + 1) % 256) 0 k.machine.devices;
    };
  }

  -- `syscall`
  unfoldable pub syscall : ℕ → CpuRegister → Kernel Devices → Run (Kernel Devices)
  syscall fuel cpu k0 =
      let (row, col, d) = framebuffer_get_cursor bus k0.machine.devices in
      let k = record k0 { machine = record (k0.machine) { devices = d } } in
      if cpu.eax == 0
      then call_read cpu k
      else if cpu.eax == 4
      then call_get_line fuel cpu k
      else if cpu.eax == 5
      then (call_puts fuel cpu row col k >>= λ k. done (next_row row k))
      else if cpu.eax == 6
      then call_puts fuel cpu row col k
      else if cpu.eax == 9
      then cmd_ls fuel shell_request row col k
      else if cpu.eax == 10
      then cmd_mkdir fuel (request_at k.memory cpu.ebx) cpu row col k
      else done k

  -- `main_interrupt_handler`; PIC1_OFFSET + IRQ_KEYBOARD is 0x21.
  unfoldable pub main_interrupt_handler :
      ℕ → CpuRegister → ℕ → Kernel Devices → Run (Kernel Devices)
  main_interrupt_handler fuel cpu int_number k =
      if int_number == 0x20 + irq_keyboard
      then done (record k { machine = keyboard_isr bus k.machine })
      else if int_number == 0x30
      then syscall fuel cpu k
      else done k
