-- ===== src/Setup.antt =====
-- kernel.c: `kernel_setup`, from the remapping of the interrupts to the jump into the shell. What the
-- assembler of kernel_loader.s does (protected mode, the task register, the jump) is left out.
pub mod Booted
pub mod Tests
use if2230_2023_hexos.Prelude.{ℕ, Buf, Run, done, ◌>>=◌}
use if2230_2023_hexos.Ports.{Bus}
use if2230_2023_hexos.Pic.{pic_remap, activate_keyboard_interrupt}
use if2230_2023_hexos.Idt.{IdtGate, initialize_idt}
use if2230_2023_hexos.Gdt.{SegmentDescriptor, gdt_install_tss}
use if2230_2023_hexos.Paging.{PageState, allocate_single_user_page_frame}
use if2230_2023_hexos.Framebuffer.{framebuffer_clear, framebuffer_set_cursor}
use if2230_2023_hexos.Fat32.Init.{initialize_filesystem_fat32}
use if2230_2023_hexos.Fat32.Read.{read}
use if2230_2023_hexos.Interrupt.{Kernel, TssEntry, set_tss_kernel_current_stack, shell_request}

-- The static objects of the whole kernel.
pub record System (D : Type 0) : Type 0 where
  pub kernel : Kernel D
  pub idt : ℕ → IdtGate
  pub gdt : ℕ → SegmentDescriptor
  pub paging : PageState
  pub tss : TssEntry

-- The arguments are the stubs' addresses, the address of the TSS, the register `ebp`, and the
-- uninitialised array of `is_empty_storage`.
module _ (bus : Bus) (stubs : ℕ → ℕ) (tss_address ebp : ℕ) (buf : Buf) where
  open bus use {Devices}

  -- Up to `gdt_install_tss` and the first page.
  unfoldable pub initialize_all : System Devices → System Devices
  initialize_all sys =
      let k = sys.kernel in
      let m = k.machine in
      let d = activate_keyboard_interrupt bus (pic_remap bus m.devices) in
      record sys {
        idt = initialize_idt stubs sys.idt;
        gdt = gdt_install_tss tss_address sys.gdt;
        paging = (allocate_single_user_page_frame 0 sys.paging).1;
        kernel = record k {
          machine = record m {
            screen = framebuffer_clear m.screen;
            devices = framebuffer_set_cursor bus 0 0 d;
          };
          files = initialize_filesystem_fat32 buf k.files;
        };
      }

  -- `read(request)` into address 0, whose result is ignored, and the stack for the way back.
  unfoldable pub load_shell : System Devices → Run (System Devices)
  load_shell sys = do
    (code, out, files) ← read (record shell_request { buf = sys.kernel.memory }) sys.kernel.files
    done (record sys {
      kernel = record (sys.kernel) { files = files; memory = out };
      tss = set_tss_kernel_current_stack ebp sys.tss;
    })

  -- `kernel_setup`
  unfoldable pub kernel_setup : System Devices → Run (System Devices)
  kernel_setup sys = load_shell (initialize_all sys)
