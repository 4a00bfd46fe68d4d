-- ===== src/Paging.antt =====
-- paging/paging.h and paging.c: the kernel's page directory of 4 MiB pages. `flush_single_tlb` is one
-- assembler instruction: the state records the addresses that it was given, newest first.
pub mod Translation
use if2230_2023_hexos.Prelude.{
  ℕ, ◌+◌, ◌*◌, ◌/◌, ◌%◌, ◌^◌, ◌==◌, ltb, if◌then◌else◌, List, [], ◌∷◌, ℤ, pos, minus_one,
}

abbrev page_frame_size : ℕ
page_frame_size = 4_194_304

pub record PageDirectoryEntryFlag : Type 0 where
  pub present_bit : ℕ
  pub write_bit : ℕ
  pub user_supervisor : ℕ
  pub write_through : ℕ
  pub cache_disable : ℕ
  pub accessed : ℕ
  pub dirty : ℕ
  pub use_pagesize_4_mb : ℕ

pub record PageDirectoryEntry : Type 0 where
  pub flag : PageDirectoryEntryFlag
  pub global_page : ℕ
  pub ignored : ℕ
  pub pat : ℕ
  pub higher_address : ℕ
  pub bits : ℕ
  pub lower_address : ℕ

-- `_paging_kernel_page_directory.table`, `page_driver_state`, and the flushes.
pub record PageState : Type 0 where
  pub table : ℕ → PageDirectoryEntry
  pub last_available_physical_addr : ℕ
  pub flushed : List ℕ

abbrev pub no_flag : PageDirectoryEntryFlag
no_flag = record {
  present_bit = 0;
  write_bit = 0;
  user_supervisor = 0;
  write_through = 0;
  cache_disable = 0;
  accessed = 0;
  dirty = 0;
  use_pagesize_4_mb = 0;
}

abbrev pub kernel_flag : PageDirectoryEntryFlag
kernel_flag = record no_flag { present_bit = 1; write_bit = 1; use_pagesize_4_mb = 1 }

abbrev pub user_flag : PageDirectoryEntryFlag
user_flag = record kernel_flag { user_supervisor = 1 }

abbrev pub entry_of : PageDirectoryEntryFlag → PageDirectoryEntry
entry_of f = record {
  flag = f;
  global_page = 0;
  ignored = 0;
  pat = 0;
  higher_address = 0;
  bits = 0;
  lower_address = 0;
}

-- The initial values of the two objects.
unfoldable pub initial_paging : PageState
initial_paging = record {
  table = λ i.
      if i == 0
      then entry_of kernel_flag
      else if i == 0x300
      then entry_of kernel_flag
      else entry_of no_flag;
  last_available_physical_addr = page_frame_size;
  flushed = [];
}

unfoldable pub flush_single_tlb : ℕ → PageState → PageState
flush_single_tlb virtual_addr s = record s { flushed = virtual_addr ∷ s.flushed }

-- `((uint32_t) virtual_addr >> 22) & 0x3FF`
abbrev pub page_index : ℕ → ℕ
page_index virtual_addr = virtual_addr / 2 ^ 22 % 1024

unfoldable pub update_page_directory_entry : ℕ → ℕ → PageDirectoryEntryFlag → PageState → PageState
unfolding flush_single_tlb
update_page_directory_entry physical_addr virtual_addr flag s =
    flush_single_tlb virtual_addr (record s {
      table = λ i.
          if i == page_index virtual_addr
          then record (s.table i) { flag = flag; lower_address = physical_addr / 2 ^ 22 % 1024 }
          else s.table i;
    })

unfoldable pub allocate_single_user_page_frame : ℕ → PageState → ℤ × PageState
allocate_single_user_page_frame virtual_addr s =
    if ltb s.last_available_physical_addr 0x07FE_0000
    then (
      pos 0,
      update_page_directory_entry s.last_available_physical_addr virtual_addr user_flag s,
    )
    else (minus_one, s)
