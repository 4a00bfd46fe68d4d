-- ===== src/UserShell/Tests.antt =====
-- The shell at concrete values: its prompt on the card of the other tests, and two rounds on a queue
-- of scancodes.
use if2230_2023_hexos.Prelude.{
  ℕ, ◌+◌, ◌-◌, ◌*◌, ◌/◌, ◌%◌, ◌≡◌, refl, ◌&&◌, ltb, leb, ◌==◌, if◌then◌else◌, length, List, [], ◌∷◌,
  Buf, done, arith,
}
use if2230_2023_hexos.Tests.{Vga, vga_bus, vga_card, powered_on}
use if2230_2023_hexos.Framebuffer.Cursor.{position}
use if2230_2023_hexos.Keyboard.Tests.{hex_keys, hex_keys-AreCharacters, waiting}
use if2230_2023_hexos.Fat32.Small.{zeros, small_state}
use if2230_2023_hexos.Interrupt.{Kernel}
use if2230_2023_hexos.Interrupt.Tests.{queue_bus, queue_ps2, kernel}
use if2230_2023_hexos.UserShell.{Frame, show_prompt, shell_rounds}
use if2230_2023_hexos.UserShell.Lines.{codes_of_lines, Served, shell_rounds-Served}
use if2230_2023_hexos.UserShell.Prompt.{prompt_text, prompt_color, Literals, show_prompt-Shown}

abbrev frame : Frame
frame = record {
  host = 0x100;
  colon = 0x110;
  root = 0x114;
  prompt = 0x11C;
  buf = 0x800;
  ebp = 0x1000;
  esp = 0xFF0;
}

-- The literals in the shell's memory.
abbrev literals : Buf
literals a =
    if leb 0x100 a && ltb a 0x10F
    then prompt_text (a - 0x100)
    else if a == 0x110
    then prompt_text (a - 0x101)
    else if leb 0x114 a && ltb a 0x118
    then prompt_text (a - 0x104)
    else if leb 0x11C a && ltb a 0x11E
    then prompt_text (a - 0x108)
    else 0

literals-Literals : Literals frame literals
literals-Literals = record {
  host = λ a l. ground arith;
  colon = λ a l. ground arith;
  root = λ a l. ground arith;
  prompt = λ a l. ground arith;
}

abbrev started : Kernel Vga
started = record {
  machine = record { keyboard = waiting.keyboard; screen = zeros; devices = powered_on };
  files = small_state;
  listing = zeros;
  memory = literals;
}

show_prompt-Shown_example :
    (k' : Kernel Vga) × (show_prompt vga_bus 16 frame started ≡ done k')
    × ((x : ℕ)
        → k'.machine.screen x ≡ (
            if leb (2 * 0) x && ltb x (2 * (0 + 22))
            then (if (x - 2 * 0) % 2 == 0
                then prompt_text ((x - 2 * 0) / 2) % 256
                else prompt_color ((x - 2 * 0) / 2))
            else started.machine.screen x))
    × (position vga_bus vga_card k'.machine.devices ≡ 0 + 22)
    × (k'.memory ≡ started.memory)
unfolding vga_card
show_prompt-Shown_example =
    show_prompt-Shown vga_bus vga_card 16 frame 0 started (omega arith) (omega arith) refl
      literals-Literals

-- A line with three characters and an empty one.
abbrev two_lines : List (List ℕ)
two_lines = hex_keys ∷ [] ∷ []

abbrev served_kernel : Kernel (List ℕ)
served_kernel = record kernel {
  machine = record (kernel.machine) {
    devices = codes_of_lines queue_bus queue_ps2 17 frame (omega arith) two_lines (0x12 ∷ []);
  };
}

shell_rounds-Served_example :
    (k' : Kernel (List ℕ)) × (shell_rounds queue_bus 17 frame (length two_lines) served_kernel
      ≡ done k')
    × Served queue_bus queue_ps2 17 frame (omega arith) two_lines (0x12 ∷ []) served_kernel k'
unfolding queue_ps2
shell_rounds-Served_example =
    shell_rounds-Served queue_bus queue_ps2 17 frame (omega arith) two_lines (0x12 ∷ [])
      served_kernel
      (hex_keys-AreCharacters, omega arith, omega arith, (tt, omega arith, omega arith, tt)) refl
      refl
