-- ===== src/UserShell/Prompt.antt =====
-- user-mode/user-shell.c: the prompt, which four system calls put onto the screen.
use Prim.Native.Nat.{bit_or}
use if2230_2023_hexos.Prelude.{
  ℕ, ◌+◌, ◌-◌, ◌*◌, ◌/◌, ◌%◌, ◌≤◌, ◌<◌, ◌≡◌, refl, ap, ◌∙◌, ◌&&◌, ltb, leb, ◌==◌, if◌then◌else◌, [],
  ◌∷◌, Buf, bytes_of, done, arith,
}
use if2230_2023_hexos.Ports.{Bus}
use if2230_2023_hexos.Ports.Crtc.{Crtc}
use if2230_2023_hexos.Framebuffer.{framebuffer_get_cursor}
use if2230_2023_hexos.Framebuffer.Cursor.{position, position-set_cursor, get_cursor-position}
use if2230_2023_hexos.Interrupt.{Kernel}
use if2230_2023_hexos.UserShell.{Frame, user_syscall, show_prompt}
use if2230_2023_hexos.UserShell.Printing.{behind_text, print-PrintedAt}

-- "hexOS@OS-IF2230:root$ "
abbrev pub prompt_text : Buf
prompt_text = bytes_of (
    b'h' ∷ b'e' ∷ b'x' ∷ b'O' ∷ b'S' ∷ b'@' ∷ b'O' ∷ b'S' ∷ b'-' ∷ b'I' ∷ b'F' ∷ b'2' ∷ b'2' ∷ b'3'
    ∷ b'0' ∷ b':' ∷ b'r' ∷ b'o' ∷ b'o' ∷ b't' ∷ b'$' ∷ b' ' ∷ [])

-- The colours of its parts: the host, the colon, the directory, and the sign.
abbrev pub prompt_color : ℕ → ℕ
prompt_color i = if ltb i 15 then 0x2 else if ltb i 16 then 0x7 else if ltb i 20 then 0x9 else 0x7

-- The literals of `main` are where the frame says.
pub record Literals (frame : Frame) (memory : Buf) : Type 0 where
  pub host : (a : ℕ) → a < 15 → memory (frame.host + a) ≡ prompt_text (0 + a)
  pub colon : (a : ℕ) → a < 1 → memory (frame.colon + a) ≡ prompt_text (15 + a)
  pub root : (a : ℕ) → a < 4 → memory (frame.root + a) ≡ prompt_text (16 + a)
  pub prompt : (a : ℕ) → a < 2 → memory (frame.prompt + a) ≡ prompt_text (20 + a)

module _ (bus : Bus) (card : Crtc bus) where
  -- `len` characters of `text` in one colour stand on the screen from cell `p` on, and the cursor behind
  -- them. The memory is as it was.
  record Shown (p len color : ℕ) (text : Buf) (k k' : Kernel bus.Devices) : Type 0 where
    pub cells :
        (x : ℕ)
        → k'.machine.screen x ≡ (
            if leb (2 * p) x && ltb x (2 * (p + len))
            then (if (x - 2 * p) % 2 == 0
                then text ((x - 2 * p) / 2) % 256
                else bit_or 0 (color % 256) % 256)
            else k.machine.screen x)
    pub cursor : position bus card k'.machine.devices ≡ p + len
    pub memory : k'.memory ≡ k.memory

  module _ (fuel : ℕ) (frame : Frame) where
    print-Shown :
        (ptr len color p : ℕ) (text : Buf) (k : Kernel bus.Devices)
        → len < fuel
        → len ≤ 176
        → p < 20000
        → position bus card k.machine.devices ≡ p
        → ((a : ℕ) → a < len → k.memory (ptr + a) ≡ text a)
        → (k' : Kernel bus.Devices) × (user_syscall bus fuel frame 6 ptr len color k ≡ done k')
          × Shown p len color text k k'
    print-Shown ptr len color p text k enough short low at same =
        let (screen, ends, shown) = print-PrintedAt bus fuel frame ptr len color k enough short in
        let (x, y, d) = framebuffer_get_cursor bus k.machine.devices in
        let (row, col, kept) = get_cursor-position bus card k.machine.devices in
        let place : 80 * x + y ≡ p = omega (arith, row, col, at) in
        (
          behind_text bus len screen k,
          ends,
          record {
            cells = λ c. ground (arith, shown.cells c, same ((c - 2 * p) / 2), place);
            cursor =
                position-set_cursor bus card x ((y + len) % 256) d (omega (arith, row))
                  (omega arith)
                ∙ omega (arith, col, place);
            memory = refl;
          },
        )

    -- Of a text whose characters have the colours `colors` the first `n` are shown, from cell `p` on.
    record ShownTo (p n : ℕ) (text : Buf) (colors : ℕ → ℕ) (k k' : Kernel bus.Devices)
        : Type 0 where
      pub cells :
          (x : ℕ)
          → k'.machine.screen x ≡ (
              if leb (2 * p) x && ltb x (2 * (p + n))
              then (if (x - 2 * p) % 2 == 0
                  then text ((x - 2 * p) / 2) % 256
                  else colors ((x - 2 * p) / 2))
              else k.machine.screen x)
      pub cursor : position bus card k'.machine.devices ≡ p + n
      pub memory : k'.memory ≡ k.memory

    -- A call that prints the next characters.
    print-ShownTo :
        (ptr len color p n : ℕ) (text : Buf) (colors : ℕ → ℕ) {k k1 : Kernel bus.Devices}
        → len < fuel
        → len ≤ 176
        → p + n < 20000
        → ((i : ℕ) → n ≤ i → i < n + len → colors i ≡ bit_or 0 (color % 256) % 256)
        → ((a : ℕ) → a < len → k.memory (ptr + a) ≡ text (n + a))
        → ShownTo p n text colors k k1
        → (k2 : Kernel bus.Devices) × (user_syscall bus fuel frame 6 ptr len color k1 ≡ done k2)
          × ShownTo p (n + len) text colors k k2
    print-ShownTo ptr len color p n text colors {k} {k1} enough short low tint texts up =
        let (k2, ends, shown) =
          print-Shown ptr len color (p + n) (λ a. text (n + a)) k1 enough short low up.cursor
            (λ a l. ap (λ (m : Buf). m (ptr + a)) up.memory ∙ texts a l) in
        (
          k2,
          ends,
          record {
            cells = λ x. ground (arith, shown.cells x, up.cells x, tint ((x - 2 * p) / 2));
            cursor = shown.cursor ∙ omega arith;
            memory = shown.memory ∙ up.memory;
          },
        )

    -- With the card behind the ports, the literals in the memory, more than 15 units of fuel and the
    -- cursor in one of the 2000 cells of the screen, the four calls return. The 22 characters
    -- of the prompt are then on the screen from the cursor on, each in its colour on black, no other
    -- cell has changed, the cursor is behind the prompt, and the memory is as before.
    pub show_prompt-Shown :
        (p : ℕ) (k : Kernel bus.Devices)
        → 15 < fuel
        → p < 2000
        → position bus card k.machine.devices ≡ p
        → Literals frame k.memory
        → (k' : Kernel bus.Devices) × (show_prompt bus fuel frame k ≡ done k')
          × ((x : ℕ)
              → k'.machine.screen x ≡ (
                  if leb (2 * p) x && ltb x (2 * (p + 22))
                  then (if (x - 2 * p) % 2 == 0
                      then prompt_text ((x - 2 * p) / 2) % 256
                      else prompt_color ((x - 2 * p) / 2))
                  else k.machine.screen x))
          × (position bus card k'.machine.devices ≡ p + 22)
          × (k'.memory ≡ k.memory)
    unfolding show_prompt
    show_prompt-Shown p k enough low at texts =
        let none : ShownTo p 0 prompt_text prompt_color k k = record {
          cells = λ x. ground arith;
          cursor = at ∙ omega arith;
          memory = refl;
        } in
        let (k1, e1, s1) =
          print-ShownTo frame.host 15 0x2 p 0 prompt_text prompt_color {k1 = k} enough (omega arith)
            (omega arith) (λ i low high. ground arith) texts.host none in
        let (k2, e2, s2) =
          print-ShownTo frame.colon 1 0x7 p 15 prompt_text prompt_color {k1 = k1} (omega arith)
            (omega arith) (omega arith) (λ i low high. ground arith) texts.colon s1 in
        let (k3, e3, s3) =
          print-ShownTo frame.root 4 0x9 p 16 prompt_text prompt_color {k1 = k2} (omega arith)
            (omega arith) (omega arith) (λ i low high. ground arith) texts.root s2 in
        let (k4, e4, s4) =
          print-ShownTo frame.prompt 2 0x7 p 20 prompt_text prompt_color {k1 = k3} (omega arith)
            (omega arith) (omega arith) (λ i low high. ground arith) texts.prompt s3 in
        (k4, rw (e1, e2, e3) e4, s4.cells, s4.cursor, s4.memory)
