-- ===== src/Setup/Booted.antt =====
-- kernel.c: the state in which `kernel_setup` jumps into the shell.
use if2230_2023_hexos.Prelude.{
  ℕ, ◌+◌, ◌%◌, ◌^◌, ◌≤◌, ◌<◌, ◌≡◌, refl, sym, ◌∙◌, true, ◌&&◌, ◌==◌, ltb, leb, if◌then◌else◌, Buf,
  ℤ, Run, done, arith,
}
use mathlib.Core.Path.{subst}
use if2230_2023_hexos.Ports.{Bus}
use if2230_2023_hexos.Ports.Crtc.{Crtc}
use if2230_2023_hexos.Ports.Pic8259.{Chip, Pic8259}
use if2230_2023_hexos.Keyboard.View.{Apart, view-set_cursor}
use if2230_2023_hexos.Pic.Remap.{KeyboardOnly, pic_remap-Remapped}
use if2230_2023_hexos.Pic.{pic_remap, activate_keyboard_interrupt}
use if2230_2023_hexos.Idt.Gates.{IsGate, initialize_idt-IsGate}
use if2230_2023_hexos.Gdt.Base.{base_of, base_of-gdt_install_tss}
use if2230_2023_hexos.Paging.{PageState, user_flag, page_index, allocate_single_user_page_frame}
use if2230_2023_hexos.Paging.Translation.{mapped, translate, translate-update}
use if2230_2023_hexos.Framebuffer.Cells.{blank_byte, framebuffer_clear_lem}
use if2230_2023_hexos.Framebuffer.Cursor.{position, position-set_cursor}
use if2230_2023_hexos.Fat32.{DriverState}
use if2230_2023_hexos.Fat32.Init.{initialize_filesystem_fat32}
use if2230_2023_hexos.Fat32.Init.Boot.{IsSigned}
use if2230_2023_hexos.Fat32.Write.Chain.{IsSynced}
use if2230_2023_hexos.Fat32.Read.{read}
use if2230_2023_hexos.Fat32.Sound.{IsSound, IsSound-Unchanged, initialize-IsSound}
use if2230_2023_hexos.Fat32.Read.Bounds.{Bounded, bounded, read-Bounded}
use if2230_2023_hexos.Interrupt.{set_tss_kernel_current_stack, shell_request}
use if2230_2023_hexos.Setup.{System, initialize_all, load_shell, kernel_setup}

-- The two chips, beside the ports of the cursor.
abbrev chips : (bus : Bus) → Pic8259 bus 0x20 → Pic8259 bus 0xA0 → Apart bus (Chip × Chip)
chips bus pic1 pic2 = record {
  view = λ d. (pic1.chip d, pic2.chip d);
  out_index = λ v d.
      rw
        (
          pic1.chip_out 0x3D4 v d (omega arith) (omega arith),
          pic2.chip_out 0x3D4 v d (omega arith) (omega arith),
        )
        refl;
  out_data = λ v d.
      rw
        (
          pic1.chip_out 0x3D5 v d (omega arith) (omega arith),
          pic2.chip_out 0x3D5 v d (omega arith) (omega arith),
        )
        refl;
  in_data = λ d. rw (pic1.chip_in 0x3D5 d (omega arith), pic2.chip_in 0x3D5 d (omega arith)) refl;
}

module _ (bus : Bus) (card : Crtc bus) (pic1 : Pic8259 bus 0x20) (pic2 : Pic8259 bus 0xA0)
    (stubs : ℕ → ℕ) (tss_address ebp : ℕ) (buf : Buf) where
  -- `sys'` is ready for the shell, after a start in `sys`.
  pub record Booted (sys sys' : System bus.Devices) : Type 0 where
    pub gates :
        (v : ℕ) → v < 64 → IsGate (stubs v) (if leb 0x30 v && leb v 0x3F then 3 else 0) (sys'.idt v)
    pub tss_base : base_of (sys'.gdt 5) ≡ tss_address
    pub stack : sys'.tss.esp0 ≡ (ebp + 8) % 2 ^ 32
    pub page : (v : ℕ) → v < 2 ^ 22 → translate sys'.paging v ≡ mapped 1 1 (2 ^ 22 + v)
    pub screen :
        (x : ℕ)
        → sys'.kernel.machine.screen x
          ≡ (if ltb x 4000 then blank_byte x else sys.kernel.machine.screen x)
    pub lines :
        KeyboardOnly (pic1.chip sys'.kernel.machine.devices) (pic2.chip sys'.kernel.machine.devices)
    pub cursor : position bus card sys'.kernel.machine.devices ≡ 0
    pub signed : IsSigned sys'.kernel.files.disk
    pub synced : IsSynced sys'.kernel.files
    pub behind : (a : ℕ) → 512 ≤ a → sys'.kernel.memory a ≡ sys.kernel.memory a

  -- The first page, from the paging driver's initial address on.
  first_page :
      (p : PageState) (v : ℕ)
      → p.last_available_physical_addr ≡ 2 ^ 22
      → (p.table 0).higher_address ≡ 0
      → v < 2 ^ 22
      → translate (allocate_single_user_page_frame 0 p).1 v ≡ mapped 1 1 (2 ^ 22 + v)
  unfolding allocate_single_user_page_frame
  first_page p v start none low =
      let room : ltb p.last_available_physical_addr 0x07FE_0000 ≡ true = ground arith in
      let here : (page_index v == page_index 0) ≡ true = ground arith in
      let offset : v % 2 ^ 22 ≡ v = omega arith in
      let moved =
        (translate-update p.last_available_physical_addr 0 user_flag p v (omega arith) (omega arith)
          none).0 in
      rw room (moved ∙ rw (here, offset, start) refl)

  -- If the stubs and the TSS have 32-bit addresses, the first frame is the one at 4 MiB and entry 0 of
  -- the page directory has no address bits from 32 on, `kernel_setup` reaches the shell. Vectors 0 to 63 are then gates to their handlers, the TSS is
  -- installed and has its stack, of the hardware's sixteen interrupt lines only the keyboard's passes the
  -- two controllers and line `irq` has vector `0x20 + irq`, the first 4 MiB are a 4 MiB page at the frame
  -- at 4 MiB, which the user may read and write, the screen has blanks, grey on black, and
  -- the cursor in its corner, the disk carries the signature, the FAT in memory is
  -- the one on the disk, and of the shell's memory at most the first 512 bytes have changed.
  pub kernel_setup-Booted :
      (sys : System bus.Devices)
      → ((v : ℕ) → stubs v < 2 ^ 32)
      → tss_address < 2 ^ 32
      → sys.paging.last_available_physical_addr ≡ 2 ^ 22
      → (sys.paging.table 0).higher_address ≡ 0
      → (sys' : System bus.Devices) × (kernel_setup bus stubs tss_address ebp buf sys ≡ done sys')
        × Booted sys sys'
  unfolding kernel_setup load_shell initialize_all set_tss_kernel_current_stack
  kernel_setup-Booted sys small small_tss start none =
      finish
        (read-Bounded (record shell_request { buf = sys.kernel.memory })
          (initialize_filesystem_fat32 buf sys.kernel.files))
        refl
    where
      finish :
          {r : Run (ℤ × Buf × DriverState)}
          → Bounded
              (record shell_request { buf = sys.kernel.memory })
              (initialize_filesystem_fat32 buf sys.kernel.files)
              r
          → read
              (record shell_request { buf = sys.kernel.memory })
              (initialize_filesystem_fat32 buf sys.kernel.files)
            ≡ r
          → (sys' : System bus.Devices) × (kernel_setup bus stubs tss_address ebp buf sys
              ≡ done sys')
            × Booted sys sys'
      finish (bounded code out files behind same) e =
          let sys1 = initialize_all bus stubs tss_address ebp buf sys in
          let sound : IsSound files =
            IsSound-Unchanged same (initialize-IsSound buf sys.kernel.files) in
          (
            record sys1 {
              kernel = record (sys1.kernel) { files = files; memory = out };
              tss = set_tss_kernel_current_stack ebp sys.tss;
            },
            rw e refl,
            record {
              gates = (initialize_idt-IsGate stubs sys.idt small).0;
              tss_base = (base_of-gdt_install_tss tss_address sys.gdt small_tss).0;
              stack = refl;
              page = λ v low. first_page sys.paging v start none low;
              screen = framebuffer_clear_lem sys.kernel.machine.screen;
              lines =
                  subst (λ (c : Chip × Chip). KeyboardOnly c.0 c.1)
                    (sym (view-set_cursor bus (chips bus pic1 pic2) 0 0 _))
                    (pic_remap-Remapped bus pic1 pic2 sys.kernel.machine.devices).2;
              cursor =
                  position-set_cursor bus card 0 0
                    (activate_keyboard_interrupt bus (pic_remap bus sys.kernel.machine.devices))
                    (omega arith) (omega arith);
              signed = sound.signed;
              synced = sound.synced;
              behind = behind;
            },
          )
