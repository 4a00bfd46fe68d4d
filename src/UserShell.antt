-- ===== src/UserShell.antt =====
-- user-mode/user-shell.c: `syscall` and `main`, as interrupts that the kernel handles. The user program
-- computes nothing between two calls, so its state is the memory that the kernel's state has. The
-- keyboard's interrupts arrive while call 4 waits.
pub mod Printing
pub mod Lines
pub mod Prompt
mod Tests
use if2230_2023_hexos.Prelude.{ℕ, zero, suc, Run, done, diverges, ◌>>=◌}
use if2230_2023_hexos.Ports.{Bus}
use if2230_2023_hexos.Interrupt.{CpuRegister, Kernel, main_interrupt_handler}

-- Where the four literals and `buf` of `main` are, and the two registers that a call does not set.
pub record Frame : Type 0 where
  pub host : ℕ
  pub colon : ℕ
  pub root : ℕ
  pub prompt : ℕ
  pub buf : ℕ
  pub ebp : ℕ
  pub esp : ℕ

-- The registers that `syscall` of the user program sets.
unfoldable pub registers : Frame → ℕ → ℕ → ℕ → ℕ → CpuRegister
registers frame eax ebx ecx edx = record {
  eax = eax;
  ebx = ebx;
  ecx = ecx;
  edx = edx;
  ebp = frame.ebp;
  esp = frame.esp;
}

module _ (bus : Bus) (fuel : ℕ) (frame : Frame) where
  open bus use {Devices}

  -- `syscall` of the user program
  unfoldable pub user_syscall : ℕ → ℕ → ℕ → ℕ → Kernel Devices → Run (Kernel Devices)
  user_syscall eax ebx ecx edx k =
      main_interrupt_handler bus fuel (registers frame eax ebx ecx edx) 0x30 k

  -- The first four calls: "hexOS@OS-IF2230", ":", "root" and "$ ".
  unfoldable pub show_prompt : Kernel Devices → Run (Kernel Devices)
  show_prompt k = do
    k ← user_syscall 6 frame.host 15 0x2 k
    k ← user_syscall 6 frame.colon 1 0x7 k
    k ← user_syscall 6 frame.root 4 0x9 k
    user_syscall 6 frame.prompt 2 0x7 k

  -- The body of the loop in `main`.
  unfoldable pub shell_round : Kernel Devices → Run (Kernel Devices)
  shell_round k = do
    k ← show_prompt k
    k ← user_syscall 4 frame.buf 16 0 k
    user_syscall 5 frame.buf 16 0xE k

  -- `while (TRUE)` of `main`, which does not end, for `n` rounds.
  unfoldable pub shell_rounds : ℕ → Kernel Devices → Run (Kernel Devices)
  shell_rounds zero k = done k
  shell_rounds (suc n) k = do k ← shell_round k; shell_rounds n k
