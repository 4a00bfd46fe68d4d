-- ===== src/Interrupt/Folder.antt =====
-- interrupt.c: the system call that makes a folder.
use if2230_2023_hexos.Prelude.{
  ℕ, ◌+◌, ◌%◌, ◌≤◌, ◌<◌, ◌≡◌, refl, inl, inr, true, false, ◌==◌, if◌then◌else◌, Bool-cases, ℤ, Run,
  done, arith,
}
use mathlib.Core.Path.{subst}
use if2230_2023_hexos.Ports.{Bus}
use if2230_2023_hexos.Keyboard.{Machine}
use if2230_2023_hexos.Framebuffer.{framebuffer_get_cursor, framebuffer_set_cursor}
use if2230_2023_hexos.Framebuffer.Cursor.{cursor_bounds}
use if2230_2023_hexos.Fat32.{DriverRequest, DriverState, IsRequest}
use if2230_2023_hexos.Fat32.Write.Chain.{IsSynced}
use if2230_2023_hexos.Fat32.Write.Outcomes.{
  ParentInUse, Written, bad_parent, exists, no_room, cut_short, file, folder,
}
use if2230_2023_hexos.Fat32.Write.Call.{write-Written}
use if2230_2023_hexos.Interrupt.{
  CpuRegister, Kernel, created_text, error_text, request_at, store_code, cmd_mkdir, syscall,
}
use if2230_2023_hexos.Interrupt.Puts.{Printed, puts-Printed}

module _ (bus : Bus) (cpu : CpuRegister) (k : Kernel bus.Devices) where
  abbrev request : DriverRequest
  request = request_at k.memory cpu.ebx

  -- What the call leaves, of a call of `write` that has returned `code`. The text depends on the pointer
  -- to the code, not on the code.
  pub record Mkdir (row col : ℕ) (code : ℤ) (k' : Kernel bus.Devices) : Type 0 where
    pub written : Written request k.files (done (code, k'.files))
    pub memory : k'.memory ≡ store_code k.memory cpu.ecx code
    pub text :
        if cpu.ecx == 0
        then Printed created_text 0 24 0xF row col k.machine.screen k'.machine.screen
        else Printed error_text 0 5 0xF row col k.machine.screen k'.machine.screen

  -- A `write` that has an outcome returns.
  returns :
      {r : Run (ℤ × DriverState)}
      → Written request k.files r
      → (code : ℤ) × (files : DriverState) × (r ≡ done (code, files))
  returns (bad_parent bad disk fat) = (_, _, refl)
  returns (exists i a b m disk fat) = (_, _, refl)
  returns (no_room why disk fat _) = (_, _, refl)
  returns (cut_short c i cs low entry empty few rest frame _ _) = (_, _, refl)
  returns (file c i cs _ _ _ _ _ _ _ _ _) = (_, _, refl)
  returns (folder c i _ _ _ _ _ _ _ _) = (_, _, refl)

  cmd_mkdir-Mkdir :
      (fuel row col : ℕ) (d : bus.Devices)
      → 24 < fuel
      → row < 256
      → col + 24 ≤ 256
      → IsRequest request
      → ParentInUse request k.files
      → IsSynced k.files
      → (code : ℤ) × (k' : Kernel bus.Devices) × (cmd_mkdir bus fuel request cpu row col
            (record k { machine = record (k.machine) { devices = d } })
          ≡ done k')
        × Mkdir row col code k'
  unfolding cmd_mkdir
  cmd_mkdir-Mkdir fuel row col d enough hr hc r used synced =
      let m : Machine bus.Devices = record (k.machine) { devices = d } in
      let outcome = write-Written request k.files r used synced in
      let (code, files, e) = returns outcome in
      let written : Written request k.files (done (code, files)) =
        subst (Written request k.files) e outcome in
      elim (Bool-cases (cpu.ecx == 0)) [
        | inl null ↦
            let (screen, ends, text) =
              puts-Printed bus fuel created_text 24 0xF row col m enough (omega arith) hr hc in
            (
              code,
              record k {
                machine = record m {
                  screen = screen;
                  devices = framebuffer_set_cursor bus row ((col + 24) % 256) m.devices;
                };
                files = files;
                memory = store_code k.memory cpu.ecx code;
              },
              rw (e, null, ends) refl,
              record { written = written; memory = refl; text = rw null text },
            )
        | inr pointer ↦
            let (screen, ends, text) =
              puts-Printed bus fuel error_text 5 0xF row col m (omega arith) (omega arith) hr
                (omega arith) in
            (
              code,
              record k {
                machine = record m {
                  screen = screen;
                  devices = framebuffer_set_cursor bus row ((col + 5) % 256) m.devices;
                };
                files = files;
                memory = store_code k.memory cpu.ecx code;
              },
              rw (e, pointer, ends) refl,
              record { written = written; memory = refl; text = rw pointer text },
            )
      ]

  -- With 32-bit numbers in the request, a parent in use, a FAT in memory that is the one on the disk, and
  -- more than 24 units of fuel, system call 10 returns. The disk and the caller's memory are then
  -- those of an outcome of `write` with its code, and the text at the cursor is `Error` in every
  -- outcome, success included, unless the pointer to the code is null.
  pub syscall-Mkdir :
      (fuel : ℕ)
      → cpu.eax ≡ 10
      → 24 < fuel
      → IsRequest request
      → ParentInUse request k.files
      → IsSynced k.files
      → let (row, col, d) = framebuffer_get_cursor bus k.machine.devices in
        (code : ℤ) × (k' : Kernel bus.Devices) × (syscall bus fuel cpu k ≡ done k')
        × Mkdir row col code k'
  unfolding syscall
  syscall-Mkdir fuel call enough r used synced =
      let (row, col, d) = framebuffer_get_cursor bus k.machine.devices in
      let (low, short) = cursor_bounds bus k.machine.devices in
      let (code, k', ends, made) =
        cmd_mkdir-Mkdir fuel row col d enough low (omega (arith, short)) r used synced in
      let not_0 : (cpu.eax == 0) ≡ false = ground arith in
      let not_4 : (cpu.eax == 4) ≡ false = ground arith in
      let not_5 : (cpu.eax == 5) ≡ false = ground arith in
      let not_6 : (cpu.eax == 6) ≡ false = ground arith in
      let not_9 : (cpu.eax == 9) ≡ false = ground arith in
      let is_10 : (cpu.eax == 10) ≡ true = ground arith in
      (code, k', rw (not_0, not_4, not_5, not_6, not_9, is_10) ends, made)
