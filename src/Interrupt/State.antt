-- ===== src/Interrupt/State.antt =====
-- interrupt/interrupt.h and interrupt.c: the state that the system calls work on, their registers and
-- requests, and the task state segment.
use if2230_2023_hexos.Prelude.{
  ℕ, ◌+◌, ◌-◌, ◌%◌, ◌^◌, ltb, if◌then◌else◌, [], ◌∷◌, Buf, bytes_of, load32, store, ℤ, pos, negsuc,
}
use if2230_2023_hexos.Keyboard.{Machine}
use if2230_2023_hexos.Fat32.{root_cluster_number, DriverRequest, DriverState}

-- `struct CPURegister`
pub record CpuRegister : Type 0 where
  pub eax : ℕ
  pub ebx : ℕ
  pub ecx : ℕ
  pub edx : ℕ
  pub ebp : ℕ
  pub esp : ℕ

-- `files` is the state of fat32.c, with the disk, and `listing` the directory table in the separate
-- `fat_state` of interrupt.c. `memory` is the memory that the pointers of a call lead to; it does not
-- overlap the kernel's own objects or the screen.
pub record Kernel (D : Type 0) : Type 0 where
  pub machine : Machine D
  pub files : DriverState
  pub listing : Buf
  pub memory : Buf

-- `*(struct FAT32DriverRequest*) p`, a packed struct of 23 bytes.
unfoldable pub request_at : Buf → ℕ → DriverRequest
request_at memory p = record {
  buf = λ a. memory (load32 memory p + a);
  name = λ a. memory (p + 4 + a);
  ext = λ a. memory (p + 12 + a);
  parent_cluster_number = load32 memory (p + 15);
  buffer_size = load32 memory (p + 19);
}

-- The memory once the bytes from `p` on are those of `buf`.
unfoldable pub put_back : Buf → ℕ → Buf → Buf
put_back memory p buf a = if ltb a p then memory a else buf (a - p)

-- `*((int8_t*) p) = code`
unfoldable pub store_code : Buf → ℕ → ℤ → Buf
store_code memory p (pos n) = store memory p (n % 256)
store_code memory p (negsuc n) = store memory p (255 - n % 256)

-- "Folder has been created"
abbrev pub created_text : Buf
created_text = bytes_of (
    b'F' ∷ b'o' ∷ b'l' ∷ b'd' ∷ b'e' ∷ b'r' ∷ b' ' ∷ b'h' ∷ b'a' ∷ b's' ∷ b' ' ∷ b'b' ∷ b'e' ∷ b'e'
    ∷ b'n' ∷ b' ' ∷ b'c' ∷ b'r' ∷ b'e' ∷ b'a' ∷ b't' ∷ b'e' ∷ b'd' ∷ [])

-- "Error"
abbrev pub error_text : Buf
error_text = bytes_of (b'E' ∷ b'r' ∷ b'r' ∷ b'o' ∷ b'r' ∷ [])

-- The request that cpu.eax == 9 builds; its `buf` is a null pointer, which `cmd_ls` does not use.
abbrev pub shell_request : DriverRequest
shell_request = record {
  buf = λ a. 0;
  name = bytes_of (b's' ∷ b'h' ∷ b'e' ∷ b'l' ∷ b'l' ∷ []);
  ext = λ a. 0;
  parent_cluster_number = root_cluster_number;
  buffer_size = 0x0010_0000;
}

-- `struct TSSEntry`, without its unused registers.
pub record TssEntry : Type 0 where
  pub prev_tss : ℕ
  pub esp0 : ℕ
  pub ss0 : ℕ

-- `_interrupt_tss_entry`
unfoldable pub interrupt_tss_entry : TssEntry
interrupt_tss_entry = record { prev_tss = 0; esp0 = 0; ss0 = 0x10 }

-- `set_tss_kernel_current_stack`; the register `ebp` is an argument.
unfoldable pub set_tss_kernel_current_stack : ℕ → TssEntry → TssEntry
set_tss_kernel_current_stack ebp tss = record tss { esp0 = (ebp + 8) % 2 ^ 32 }
