-- ===== src/Interrupt/Line.antt =====
-- interrupt.c: the system call that waits for a line, while the keyboard's interrupts come in.
use mathlib.Core.Path.{subst}
use if2230_2023_hexos.Prelude.{
  ℕ, zero, suc, ◌+◌, ◌*◌, ◌≤◌, ◌<◌, ◌≡◌, refl, sym, ap, ◌∙◌, true, false, ◌&&◌, ltb, leb, ◌==◌,
  List, [], ◌∷◌, ◌++◌, Buf, bytes_of, done, arith,
}
use if2230_2023_hexos.Stdmem.{memcpy}
use if2230_2023_hexos.Stdmem.Copy.{memcpy_lem}
use if2230_2023_hexos.Ports.{Bus}
use if2230_2023_hexos.Framebuffer.{framebuffer_get_cursor}
use if2230_2023_hexos.Keyboard.{
  KeyboardDriverState, Machine, keyboard_state_activate, get_keyboard_buffer, is_keyboard_blocking,
  keyboard_isr,
}
use if2230_2023_hexos.Keyboard.Map.{length}
use if2230_2023_hexos.Keyboard.Line.{scancode_effect, keyboard-keyboard_isr}
use if2230_2023_hexos.Keyboard.Ps2.{Ps2, pending-get_cursor, pending-keyboard_isr}
use if2230_2023_hexos.Keyboard.Typing.{AreCharacters, characters}
use if2230_2023_hexos.Keyboard.Enter.{get_keyboard_buffer-enter}
use if2230_2023_hexos.Keyboard.Codes.{
  codes_of, length-codes_of, run_codes, Ends, run_codes-codes_of, codes_of-Ends,
}
use if2230_2023_hexos.Interrupt.{CpuRegister, Kernel, wait_line, copy_line, call_get_line, syscall}

-- A line has been typed and ended, and `get_keyboard_buffer` delivers it.
abbrev Delivers : List ℕ → KeyboardDriverState → Type 0
Delivers scancodes k =
    (k.keyboard_input_on ≡ 0)
    × (k.buffer_index ≡ 0)
    × ((a : ℕ)
        → a < length (characters scancodes)
        → get_keyboard_buffer (λ i. 0) k a ≡ bytes_of (characters scancodes) a)
    × (get_keyboard_buffer (λ i. 0) k (length (characters scancodes)) ≡ 0)

module _ (bus : Bus) (ps2 : Ps2 bus) where
  open ps2 use {pending}

  isr-effect :
      (m : Machine bus.Devices) (c : ℕ) (cs : List ℕ)
      → pending m.devices ≡ c ∷ cs
      → (keyboard_isr bus m).keyboard ≡ scancode_effect c m.keyboard
  isr-effect m c cs codes =
      keyboard-keyboard_isr bus m
      ∙ ap (λ (code : ℕ). scancode_effect code m.keyboard) (ps2.next_code m.devices c cs codes).0

  wait_line-Ends :
      (fuel : ℕ) (cs rest : List ℕ) (m : Machine bus.Devices)
      → pending m.devices ≡ cs ++ rest
      → Ends cs m.keyboard
      → length cs ≤ fuel
      → (m' : Machine bus.Devices) × (wait_line bus fuel m ≡ done m')
        × (m'.keyboard ≡ run_codes cs m.keyboard)
        × (pending m'.devices ≡ rest)
  unfolding wait_line is_keyboard_blocking
  wait_line-Ends zero [] rest m codes off enough = (m, rw off refl, refl, codes)
  wait_line-Ends (suc fuel) [] rest m codes off enough = (m, rw off refl, refl, codes)
  wait_line-Ends zero (c ∷ cs) rest m codes ends enough = absurd (omega arith)
  wait_line-Ends (suc fuel) (c ∷ cs) rest m codes (on, ends) enough =
      let blocking : (m.keyboard.keyboard_input_on == 0) ≡ false = ground arith in
      let effect : (keyboard_isr bus m).keyboard ≡ scancode_effect c m.keyboard =
        isr-effect m c (cs ++ rest) codes in
      let (m', returns, state, left) =
        wait_line-Ends fuel cs rest (keyboard_isr bus m)
          (pending-keyboard_isr bus ps2 m c (cs ++ rest) on codes) (rw effect ends) (omega arith) in
      (m', rw blocking returns, state ∙ ap (run_codes cs) effect, left)

  -- What the call has done: the line is in the memory, cut or ended with a zero, and nothing else.
  pub record LineRead (scancodes rest : List ℕ) (cpu : CpuRegister) (k k' : Kernel bus.Devices)
      : Type 0 where
    pub text :
        (a : ℕ)
        → a < cpu.ecx
        → a < length (characters scancodes)
        → k'.memory (cpu.ebx + a) ≡ bytes_of (characters scancodes) a
    pub zero_behind :
        length (characters scancodes) < cpu.ecx
        → k'.memory (cpu.ebx + length (characters scancodes)) ≡ 0
    pub outside :
        (x : ℕ) → (leb cpu.ebx x && ltb x (cpu.ebx + cpu.ecx)) ≡ false → k'.memory x ≡ k.memory x
    pub files : k'.files ≡ k.files
    pub off : k'.machine.keyboard.keyboard_input_on ≡ 0
    pub ready : k'.machine.keyboard.buffer_index ≡ 0
    pub left : pending k'.machine.devices ≡ rest

  call_get_line-LineRead :
      (fuel : ℕ) (scancodes rest : List ℕ) (cpu : CpuRegister) (k : Kernel bus.Devices)
      → AreCharacters scancodes
      → pending k.machine.devices ≡ codes_of scancodes ++ rest
      → k.machine.keyboard.buffer_index ≡ 0
      → length (characters scancodes) < 256
      → 2 * length (characters scancodes) + 2 ≤ fuel
      → cpu.ecx ≤ 256
      → (k' : Kernel bus.Devices) × (call_get_line bus fuel cpu k ≡ done k')
        × LineRead scancodes rest cpu k k'
  unfolding call_get_line copy_line keyboard_state_activate
  call_get_line-LineRead fuel scancodes rest cpu k keys codes empty short enough few =
      let m : Machine bus.Devices = record (k.machine) {
        keyboard = keyboard_state_activate k.machine.keyboard;
      } in
      let (m', returns, state, left) =
        wait_line-Ends fuel (codes_of scancodes) rest m codes
          (codes_of-Ends bus scancodes m (omega arith) keys)
          (omega (arith, length-codes_of scancodes)) in
      let (off, ready, text, zero_behind) =
        subst (Delivers scancodes) (sym (state ∙ run_codes-codes_of bus scancodes m))
          (get_keyboard_buffer-enter bus scancodes m (λ i. 0) (omega arith) empty keys short) in
      let inside : ltb 256 cpu.ecx ≡ false = ground arith in
      let buf : Buf = get_keyboard_buffer (λ i. 0) m'.keyboard in
      (
        record k { machine = m'; memory = memcpy k.memory cpu.ebx buf 0 cpu.ecx },
        rw (returns, inside) refl,
        record {
          text = λ a la lt.
              ground (arith, memcpy_lem k.memory cpu.ebx buf 0 cpu.ecx (cpu.ebx + a), text a lt);
          zero_behind = λ lt. ground (
            arith,
            memcpy_lem k.memory cpu.ebx buf 0 cpu.ecx (cpu.ebx + length (characters scancodes)),
            zero_behind,
          );
          outside = λ x out. ground (arith, memcpy_lem k.memory cpu.ebx buf 0 cpu.ecx x);
          files = refl;
          off = off;
          ready = ready;
          left = left;
        },
      )

  -- If the keyboard will send the codes of fewer than 256 character keys and of the enter key, the
  -- driver's line is empty, and the fuel is enough for one interrupt for each code, then system call 4 for at most 256 bytes returns once these interrupts
  -- have come. The caller's memory then holds the characters typed, up to the number asked for, with a
  -- zero behind them if there is room; the rest of the memory and the file system are as before, the
  -- driver accepts no more input, and the controller has the codes behind those of the line.
  pub syscall-LineRead :
      (fuel : ℕ) (scancodes rest : List ℕ) (cpu : CpuRegister) (k : Kernel bus.Devices)
      → cpu.eax ≡ 4
      → AreCharacters scancodes
      → pending k.machine.devices ≡ codes_of scancodes ++ rest
      → k.machine.keyboard.buffer_index ≡ 0
      → length (characters scancodes) < 256
      → 2 * length (characters scancodes) + 2 ≤ fuel
      → cpu.ecx ≤ 256
      → (k' : Kernel bus.Devices) × (syscall bus fuel cpu k ≡ done k')
        × LineRead scancodes rest cpu k k'
  unfolding syscall
  syscall-LineRead fuel scancodes rest cpu k call keys codes empty short enough few =
      let d : bus.Devices = (framebuffer_get_cursor bus k.machine.devices).2 in
      let k1 : Kernel bus.Devices = record k { machine = record (k.machine) { devices = d } } in
      let (k', returns, line) =
        call_get_line-LineRead fuel scancodes rest cpu k1 keys
          (pending-get_cursor bus ps2 k.machine.devices ∙ codes) empty short enough few in
      let is_4 : (cpu.eax == 4) ≡ true = ground arith in
      let not_0 : (cpu.eax == 0) ≡ false = ground arith in
      (
        k',
        rw (not_0, is_4) returns,
        record {
          text = line.text;
          zero_behind = line.zero_behind;
          outside = line.outside;
          files = line.files;
          off = line.off;
          ready = line.ready;
          left = line.left;
        },
      )
