-- ===== src/Interrupt/Puts.antt =====
-- interrupt.c: the text that `puts` leaves on the screen.
use Prim.Native.Nat.{bit_or}
use if2230_2023_hexos.Prelude.{
  ℕ, zero, suc, ◌+◌, ◌-◌, ◌*◌, ◌/◌, ◌%◌, ◌≤◌, ◌<◌, ◌≡◌, refl, ◌∙◌, inl, inr, ◌&&◌, ◌==◌, ltb, leb,
  if◌then◌else◌, Bool-cases, true, Buf, done, diverges, arith,
}
use if2230_2023_hexos.Ports.{Bus}
use if2230_2023_hexos.Ports.Crtc.{Crtc}
use if2230_2023_hexos.Framebuffer.{framebuffer_write, framebuffer_set_cursor}
use if2230_2023_hexos.Framebuffer.Cells.{framebuffer_write_lem}
use if2230_2023_hexos.Framebuffer.Cursor.{position, position-set_cursor}
use if2230_2023_hexos.Keyboard.{Machine}
use if2230_2023_hexos.Interrupt.{puts_loop, puts}

-- Byte `x` of a row's cells from the offset `base` on: a character of the text, or the colour.
abbrev pub text_byte : Buf → ℕ → ℕ → ℕ → ℕ
text_byte str color base x =
    if (x - base) % 2 == 0 then str ((x - base) / 2) % 256 else bit_or 0 (color % 256) % 256

-- The `len` characters of `str` from `i` on are on the screen, at `row` and from `col + i` on.
pub record Printed (str : Buf) (i len color row col : ℕ) (screen screen' : Buf) : Type 0 where
  pub cells :
      (x : ℕ)
      → screen' x ≡ (
          if leb (2 * (80 * row + col + i)) x && ltb x (2 * (80 * row + col + len))
          then text_byte str color (2 * (80 * row + col)) x
          else screen x)

module _ (bus : Bus) where
  puts_loop-step :
      (fuel : ℕ) (str : Buf) (i len color row col : ℕ) (screen : Buf)
      → i < len
      → len < 256
      → col + len ≤ 256
      → puts_loop bus (suc fuel) str i len color row col screen
        ≡ puts_loop bus fuel str
            (i + 1)
            len
            color
            row
            col
            (framebuffer_write row (col + i) (str i) (color % 256) 0 screen)
  unfolding puts_loop
  puts_loop-step fuel str i len color row col screen low short hc =
      let more : ltb i len ≡ true = ground arith in
      let next : (i + 1) % 256 ≡ i + 1 = omega arith in
      let column : (col + i) % 256 ≡ col + i = omega arith in rw (more, next, column) refl

  puts_loop-Printed :
      (fuel : ℕ) (str : Buf) (i len color row col : ℕ) (screen : Buf)
      → i ≤ len
      → len < i + fuel
      → len < 256
      → row < 256
      → col + len ≤ 256
      → (screen' : Buf) × (puts_loop bus fuel str i len color row col screen ≡ done (len, screen'))
        × Printed str i len color row col screen screen'
  unfolding puts_loop
  puts_loop-Printed zero str i len color row col screen low enough short hr hc =
      absurd (omega arith)
  puts_loop-Printed (suc fuel) str i len color row col screen low enough short hr hc =
      elim (Bool-cases (ltb i len)) [
        | inl more ↦
            let screen1 : Buf = framebuffer_write row (col + i) (str i) (color % 256) 0 screen in
            let (screen', ends, rest) =
              puts_loop-Printed fuel str (i + 1) len color row col screen1 (ground arith)
                (omega arith) short hr hc in
            (
              screen',
              puts_loop-step fuel str i len color row col screen (ground arith) short hc ∙ ends,
              record {
                cells = λ x. ground (
                  arith,
                  rest.cells x,
                  framebuffer_write_lem row (col + i) (str i) (color % 256) 0 screen x hr
                      (ground arith),
                );
              },
            )
        | inr end ↦
            let all : i ≡ len = ground arith in
            (screen, rw (end, all) refl, record { cells = λ x. ground arith })
      ]

  -- For a text of fewer than 256 characters that fits into 256 columns, in a row below 256, `puts` ends
  -- with more fuel than characters. The text is then on the screen in its colour on black, all other cells are as they
  -- were, the last call sets the cursor behind the text, or to column 0 if the text ends at column 256,
  -- and the keyboard's state has not changed.
  pub puts-Printed :
      (fuel : ℕ) (str : Buf) (len color row col : ℕ) (m : Machine bus.Devices)
      → len < fuel
      → len < 256
      → row < 256
      → col + len ≤ 256
      → (screen' : Buf) × (puts bus fuel str len color row col m
          ≡ done (record m {
            screen = screen';
            devices = framebuffer_set_cursor bus row ((col + len) % 256) m.devices;
          }))
        × Printed str 0 len color row col m.screen screen'
  unfolding puts
  puts-Printed fuel str len color row col m enough short hr hc =
      let (screen', ends, text) =
        puts_loop-Printed fuel str 0 len color row col m.screen (omega arith) (omega arith) short hr
          hc in
      (screen', rw ends refl, text)

  -- With the card behind the ports, a text of fewer than 256 characters that fits into 256 columns, in a
  -- row below 256, and more fuel than characters, `puts` ends. The text is then on the screen in its
  -- colour on black, all other cells and the keyboard's state are as they were, and the card's cursor is
  -- behind the text, or, if the text ends at column 256, at the beginning of the row.
  pub position-puts :
      (card : Crtc bus) (fuel : ℕ) (str : Buf) (len color row col : ℕ) (m : Machine bus.Devices)
      → len < fuel
      → len < 256
      → row < 256
      → col + len ≤ 256
      → (m' : Machine bus.Devices) × (puts bus fuel str len color row col m ≡ done m')
        × Printed str 0 len color row col m.screen m'.screen
        × (m'.keyboard ≡ m.keyboard)
        × (position bus card m'.devices
            ≡ (if col + len == 256 then 80 * row else 80 * row + col + len))
  position-puts card fuel str len color row col m enough short hr hc =
      let (screen', ends, text) = puts-Printed fuel str len color row col m enough short hr hc in
      (
        record m {
          screen = screen';
          devices = framebuffer_set_cursor bus row ((col + len) % 256) m.devices;
        },
        ends,
        text,
        refl,
        ground (
          arith,
          position-set_cursor bus card row ((col + len) % 256) m.devices hr (omega arith),
        ),
      )

  puts_loop-diverges :
      (fuel : ℕ) (str : Buf) (i len color row col : ℕ) (screen : Buf)
      → i < 256
      → 256 ≤ len
      → puts_loop bus fuel str i len color row col screen ≡ diverges
  unfolding puts_loop
  puts_loop-diverges zero str i len color row col screen low long = refl
  puts_loop-diverges (suc fuel) str i len color row col screen low long =
      let more : ltb i len ≡ true = ground arith in
      rw more (
        puts_loop-diverges fuel str ((i + 1) % 256) len color row col
          (framebuffer_write row ((col + i) % 256) (str i) (color % 256) 0 screen) (omega arith)
          long)

  -- For a text of 256 characters or more `puts` ends with no fuel: its counter has eight bits.
  pub puts-diverges :
      (fuel : ℕ) (str : Buf) (len color row col : ℕ) (m : Machine bus.Devices)
      → 256 ≤ len
      → puts bus fuel str len color row col m ≡ diverges
  unfolding puts
  puts-diverges fuel str len color row col m long =
      rw (puts_loop-diverges fuel str 0 len color row col m.screen (omega arith) long) refl
