-- ===== src/UserShell/Lines.antt =====
-- user-mode/user-shell.c: the lines that the shell reads.
use if2230_2023_hexos.Prelude.{
  ℕ, ◌+◌, ◌*◌, ◌≤◌, ◌<◌, ◌≡◌, refl, ap, ◌∙◌, List, [], ◌∷◌, ◌++◌, Buf, done, arith,
}
use if2230_2023_hexos.Ports.{Bus}
use if2230_2023_hexos.Framebuffer.{framebuffer_get_cursor}
use if2230_2023_hexos.Keyboard.Map.{length}
use if2230_2023_hexos.Keyboard.{KeyboardDriverState}
use if2230_2023_hexos.Keyboard.Codes.{codes_of}
use if2230_2023_hexos.Keyboard.Ps2.{Ps2, pending-get_cursor, pending-set_cursor}
use if2230_2023_hexos.Keyboard.Typing.{AreCharacters, characters}
use if2230_2023_hexos.Interrupt.{CpuRegister, Kernel, next_row, main_interrupt_handler}
use if2230_2023_hexos.Interrupt.Line.{LineRead, syscall-LineRead}
use if2230_2023_hexos.UserShell.{
  Frame, registers, user_syscall, show_prompt, shell_round, shell_rounds,
}
use if2230_2023_hexos.UserShell.Printing.{behind_text, print-PrintedAt, print_line-PrintedAt}

module _ (bus : Bus) (ps2 : Ps2 bus) where
  open ps2 use {pending}

  -- A call that prints leaves all but the screen and the cursor.
  record Kept (k k' : Kernel bus.Devices) : Type 0 where
    pub memory : k'.memory ≡ k.memory
    pub files : k'.files ≡ k.files
    pub keyboard : k'.machine.keyboard ≡ k.machine.keyboard
    pub codes : pending k'.machine.devices ≡ pending k.machine.devices

  Kept-trans : {k k1 k2 : Kernel bus.Devices} → Kept k k1 → Kept k1 k2 → Kept k k2
  Kept-trans a b = record {
    memory = b.memory ∙ a.memory;
    files = b.files ∙ a.files;
    keyboard = b.keyboard ∙ a.keyboard;
    codes = b.codes ∙ a.codes;
  }

  behind_text-Kept :
      (len : ℕ) (screen : Buf) (k : Kernel bus.Devices) → Kept k (behind_text bus len screen k)
  behind_text-Kept len screen k = record {
    memory = refl;
    files = refl;
    keyboard = refl;
    codes = pending-set_cursor bus ps2 _ _ _ ∙ pending-get_cursor bus ps2 _;
  }

  next_row-Kept : (row : ℕ) (k : Kernel bus.Devices) → Kept k (next_row bus row k)
  unfolding next_row
  next_row-Kept row k = record {
    memory = refl;
    files = refl;
    keyboard = refl;
    codes = pending-set_cursor bus ps2 _ _ _;
  }

  module _ (fuel : ℕ) (frame : Frame) (enough : 16 < fuel) where
    -- The registers of the call that reads a line.
    abbrev pub call_4 : CpuRegister
    call_4 = registers frame 4 frame.buf 16 0

    print-Kept :
        (p len color : ℕ) (k : Kernel bus.Devices)
        → len ≤ 16
        → (k' : Kernel bus.Devices) × (user_syscall bus fuel frame 6 p len color k ≡ done k')
          × Kept k k'
    print-Kept p len color k short =
        let (screen, ends, text) =
          print-PrintedAt bus fuel frame p len color k (omega arith) (omega arith) in
        (behind_text bus len screen k, ends, behind_text-Kept len screen k)

    show_prompt-Kept :
        (k : Kernel bus.Devices)
        → (k' : Kernel bus.Devices) × (show_prompt bus fuel frame k ≡ done k') × Kept k k'
    unfolding show_prompt
    show_prompt-Kept k =
        let (k1, e1, kept1) = print-Kept frame.host 15 0x2 k (omega arith) in
        let (k2, e2, kept2) = print-Kept frame.colon 1 0x7 k1 (omega arith) in
        let (k3, e3, kept3) = print-Kept frame.root 4 0x9 k2 (omega arith) in
        let (k4, e4, kept4) = print-Kept frame.prompt 2 0x7 k3 (omega arith) in
        (k4, rw (e1, e2, e3) e4, Kept-trans kept1 (Kept-trans kept2 (Kept-trans kept3 kept4)))

    echo-Kept :
        (k : Kernel bus.Devices)
        → (k' : Kernel bus.Devices) × (user_syscall bus fuel frame 5 frame.buf 16 0xE k ≡ done k')
          × Kept k k'
    echo-Kept k =
        let (screen, ends, text) =
          print_line-PrintedAt bus fuel frame frame.buf 16 0xE k (omega arith) (omega arith) in
        let shown : Kernel bus.Devices = behind_text bus 16 screen k in
        let row : ℕ = (framebuffer_get_cursor bus k.machine.devices).0 in
        (
          next_row bus row shown,
          ends,
          Kept-trans (behind_text-Kept 16 screen k) (next_row-Kept row shown),
        )

    -- The line stays read when something is printed before and behind it.
    LineRead-Kept :
        (line rest : List ℕ) {k k1 k2 k3 : Kernel bus.Devices}
        → Kept k k1
        → LineRead bus ps2 line rest call_4 k1 k2
        → Kept k2 k3
        → LineRead bus ps2 line rest call_4 k k3
    LineRead-Kept line rest before read behind = record {
      text = λ a few inside.
          ap (λ (m : Buf). m (call_4.ebx + a)) behind.memory ∙ read.text a few inside;
      zero_behind = λ short.
          ap (λ (m : Buf). m (call_4.ebx + length (characters line))) behind.memory
          ∙ read.zero_behind short;
      outside = λ x out.
          ap (λ (m : Buf). m x) behind.memory
          ∙ read.outside x out
          ∙ ap (λ (m : Buf). m x) before.memory;
      files = behind.files ∙ read.files ∙ before.files;
      off = ap (λ (s : KeyboardDriverState). s.keyboard_input_on) behind.keyboard ∙ read.off;
      ready = ap (λ (s : KeyboardDriverState). s.buffer_index) behind.keyboard ∙ read.ready;
      left = behind.codes ∙ read.left;
    }

    shell_round-LineRead :
        (line rest : List ℕ) (k : Kernel bus.Devices)
        → AreCharacters line
        → length (characters line) < 256
        → 2 * length (characters line) + 2 ≤ fuel
        → pending k.machine.devices ≡ codes_of line ++ rest
        → k.machine.keyboard.buffer_index ≡ 0
        → (k' : Kernel bus.Devices) × (shell_round bus fuel frame k ≡ done k')
          × LineRead bus ps2 line rest call_4 k k'
    unfolding shell_round user_syscall main_interrupt_handler registers
    shell_round-LineRead line rest k keys short fuels codes empty =
        let (k1, e1, before) = show_prompt-Kept k in
        let (k2, e2, read) =
          syscall-LineRead bus ps2 fuel line rest call_4 k1 refl keys (before.codes ∙ codes)
            (ap (λ (s : KeyboardDriverState). s.buffer_index) before.keyboard ∙ empty) short fuels
            (omega arith) in
        let (k3, e3, behind) = echo-Kept k2 in
        (k3, rw (e1, e2) e3, LineRead-Kept line rest before read behind)

    -- The codes of the lines, and those behind them.
    abbrev pub codes_of_lines : List (List ℕ) → List ℕ → List ℕ
    codes_of_lines [] rest = rest
    codes_of_lines (line ∷ lines) rest = codes_of line ++ codes_of_lines lines rest

    -- Each line has only characters, fewer than 256, and the fuel is enough for its interrupts.
    abbrev pub AreLines : List (List ℕ) → Type 0
    AreLines [] = Unit {0}
    AreLines (line ∷ lines) =
        AreCharacters line
        × (length (characters line) < 256)
        × (2 * length (characters line) + 2 ≤ fuel)
        × AreLines lines

    -- One round after the other reads one line after the other.
    abbrev pub Served : List (List ℕ) → List ℕ → Kernel bus.Devices → Kernel bus.Devices → Type 0
    Served [] rest k k' = k ≡ k'
    Served (line ∷ lines) rest k k' =
        (k1 : Kernel bus.Devices) × (shell_round bus fuel frame k ≡ done k1)
        × LineRead bus ps2 line (codes_of_lines lines rest) call_4 k k1
        × Served lines rest k1 k'

    -- If the keyboard will send lines, each of fewer than 256 characters, the driver's line is empty, and
    -- the fuel is more than 16 and enough for each line's interrupts, then as many rounds of the shell's loop return. Each round reads its line into `buf`, cut or with
    -- a zero behind it, leaves the rest of the memory and the file system, and takes the
    -- line's codes only.
    pub shell_rounds-Served :
        (lines : List (List ℕ)) (rest : List ℕ) (k : Kernel bus.Devices)
        → AreLines lines
        → pending k.machine.devices ≡ codes_of_lines lines rest
        → k.machine.keyboard.buffer_index ≡ 0
        → (k' : Kernel bus.Devices) × (shell_rounds bus fuel frame (length lines) k ≡ done k')
          × Served lines rest k k'
    unfolding shell_rounds
    shell_rounds-Served [] rest k keys codes empty = (k, refl, refl)
    shell_rounds-Served (line ∷ lines) rest k (keys, short, fuels, more) codes empty =
        let (k1, e1, read) =
          shell_round-LineRead line (codes_of_lines lines rest) k keys short fuels codes empty in
        let (k', ends, served) = shell_rounds-Served lines rest k1 more read.left read.ready in
        (k', rw e1 ends, (k1, e1, read, served))
