-- ===== src/UserShell/Printing.antt =====
-- user-mode/user-shell.c: the two system calls with which the shell prints a text.
use if2230_2023_hexos.Prelude.{ℕ, ◌+◌, ◌%◌, ◌≤◌, ◌<◌, ◌≡◌, refl, Buf, done, arith}
use if2230_2023_hexos.Ports.{Bus}
use if2230_2023_hexos.Framebuffer.{framebuffer_get_cursor, framebuffer_set_cursor}
use if2230_2023_hexos.Framebuffer.Cursor.{cursor_bounds}
use if2230_2023_hexos.Interrupt.{Kernel, call_puts, next_row, syscall, main_interrupt_handler}
use if2230_2023_hexos.Interrupt.Puts.{Printed, puts-Printed}
use if2230_2023_hexos.UserShell.{Frame, registers, user_syscall}

module _ (bus : Bus) where
  -- The kernel behind a text of `len` characters that begins at the cursor.
  abbrev pub behind_text : ℕ → Buf → Kernel bus.Devices → Kernel bus.Devices
  behind_text len screen k =
      let (row, col, d) = framebuffer_get_cursor bus k.machine.devices in
      record k {
        machine = record (k.machine) {
          screen = screen;
          devices = framebuffer_set_cursor bus row ((col + len) % 256) d;
        };
      }

  -- The `len` characters at `p` are on the screen from the cursor on.
  abbrev pub PrintedAt : ℕ → ℕ → ℕ → Kernel bus.Devices → Buf → Type 0
  PrintedAt p len color k screen =
      let (row, col, d) = framebuffer_get_cursor bus k.machine.devices in
      Printed (λ a. k.memory (p + a)) 0 len color row col k.machine.screen screen

  module _ (fuel : ℕ) (frame : Frame) (p len color : ℕ) (k : Kernel bus.Devices)
      (enough : len < fuel) (short : len ≤ 176) where
    pub print-PrintedAt :
        (screen : Buf) × (user_syscall bus fuel frame 6 p len color k
          ≡ done (behind_text len screen k))
        × PrintedAt p len color k screen
    unfolding user_syscall registers main_interrupt_handler syscall call_puts
    print-PrintedAt =
        let (row, col, d) = framebuffer_get_cursor bus k.machine.devices in
        let (screen, ends, text) =
          puts-Printed bus fuel (λ a. k.memory (p + a)) len color row col
            (record (k.machine) { devices = d }) enough (omega arith)
            (cursor_bounds bus k.machine.devices).0
            (omega (arith, cursor_bounds bus k.machine.devices)) in
        (screen, rw ends refl, text)

    -- Call 5 also moves the cursor to the next row.
    pub print_line-PrintedAt :
        (screen : Buf) × (user_syscall bus fuel frame 5 p len color k
          ≡ done (
              next_row bus
                (framebuffer_get_cursor bus k.machine.devices).0
                (behind_text len screen k)))
        × PrintedAt p len color k screen
    unfolding user_syscall registers main_interrupt_handler syscall call_puts
    print_line-PrintedAt =
        let (row, col, d) = framebuffer_get_cursor bus k.machine.devices in
        let (screen, ends, text) =
          puts-Printed bus fuel (λ a. k.memory (p + a)) len color row col
            (record (k.machine) { devices = d }) enough (omega arith)
            (cursor_bounds bus k.machine.devices).0
            (omega (arith, cursor_bounds bus k.machine.devices)) in
        (screen, rw ends refl, text)
