-- ===== src/Setup/Tests.antt =====
-- A start of the kernel at concrete values.
use if2230_2023_hexos.Prelude.{◌≡◌, refl, done, arith}
use if2230_2023_hexos.Tests.{Vga, powered_on, stubs}
use if2230_2023_hexos.Pic.Tests.{Board, board_bus, board_card, board_pic1, board_pic2, board}
use if2230_2023_hexos.Keyboard.Tests.{waiting}
use if2230_2023_hexos.Paging.{initial_paging}
use if2230_2023_hexos.Gdt.{global_descriptor_table}
use if2230_2023_hexos.Idt.{interrupt_descriptor_table}
use if2230_2023_hexos.Fat32.Small.{zeros, small_state}
use if2230_2023_hexos.Interrupt.{interrupt_tss_entry}
use if2230_2023_hexos.Setup.{System, kernel_setup}
use if2230_2023_hexos.Setup.Booted.{Booted, kernel_setup-Booted}

abbrev pub reset : System Vga
reset = record {
  kernel = record {
    machine = record { keyboard = waiting.keyboard; screen = zeros; devices = powered_on };
    files = small_state;
    listing = zeros;
    memory = zeros;
  };
  idt = interrupt_descriptor_table;
  gdt = global_descriptor_table;
  paging = initial_paging;
  tss = interrupt_tss_entry;
}

-- With the interrupt controllers on the board.
abbrev on_board : System Board
on_board = record {
  kernel = record {
    machine = record { keyboard = waiting.keyboard; screen = zeros; devices = board };
    files = small_state;
    listing = zeros;
    memory = zeros;
  };
  idt = interrupt_descriptor_table;
  gdt = global_descriptor_table;
  paging = initial_paging;
  tss = interrupt_tss_entry;
}

kernel_setup-Booted_example :
    (sys' : System Board) × (kernel_setup board_bus stubs 0xC012_3456 0xC060_0000 zeros on_board
      ≡ done sys')
    × Booted board_bus board_card board_pic1 board_pic2 stubs 0xC012_3456 0xC060_0000 zeros on_board
        sys'
unfolding initial_paging
kernel_setup-Booted_example =
    kernel_setup-Booted board_bus board_card board_pic1 board_pic2 stubs 0xC012_3456 0xC060_0000
      zeros on_board (λ v. omega arith) (omega arith) refl refl
