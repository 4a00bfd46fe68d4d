-- ===== src/Keyboard/Codes.antt =====
-- keyboard.c: the scancodes of a whole line, as the interrupts deliver them one by one.
use if2230_2023_hexos.Prelude.{ℕ, ◌+◌, ◌*◌, ◌≡◌, ◌≢◌, refl, sym, ap, ◌∙◌, List, [], ◌∷◌, arith}
use if2230_2023_hexos.Ports.{Bus}
use if2230_2023_hexos.Keyboard.{KeyboardDriverState, Machine}
use if2230_2023_hexos.Keyboard.Map.{length}
use if2230_2023_hexos.Keyboard.Line.{scancode_effect}
use if2230_2023_hexos.Keyboard.Keystroke.{
  released, keystroke, keyboard-keystroke, scancode_effect-on, keystroke-on,
}
use if2230_2023_hexos.Keyboard.Typing.{type_keys, AreCharacters, characters}
use if2230_2023_hexos.Keyboard.Enter.{enter, map-enter, keystroke-off}

-- Make and break code of each key, and of the enter key.
abbrev pub codes_of : List ℕ → List ℕ
codes_of [] = enter ∷ released enter ∷ []
codes_of (scancode ∷ scancodes) = scancode ∷ released scancode ∷ codes_of scancodes

pub length-codes_of :
    (scancodes : List ℕ) → length (codes_of scancodes) ≡ 2 * length (characters scancodes) + 2
length-codes_of [] = refl
length-codes_of (scancode ∷ scancodes) = omega (arith, length-codes_of scancodes)

-- One call of the service routine for each code.
abbrev pub run_codes : List ℕ → KeyboardDriverState → KeyboardDriverState
run_codes [] k = k
run_codes (c ∷ cs) k = run_codes cs (scancode_effect c k)

-- The driver accepts input until all codes have come, and no more after them.
abbrev pub Ends : List ℕ → KeyboardDriverState → Type 0
Ends [] k = k.keyboard_input_on ≡ 0
Ends (c ∷ cs) k = (k.keyboard_input_on ≢ 0) × Ends cs (scancode_effect c k)

module _ (bus : Bus) where
  pub run_codes-codes_of :
      (scancodes : List ℕ) (m : Machine bus.Devices)
      → run_codes (codes_of scancodes) m.keyboard
        ≡ (keystroke bus enter (type_keys bus scancodes m)).keyboard
  unfolding type_keys
  run_codes-codes_of [] m = sym (keyboard-keystroke bus enter m)
  run_codes-codes_of (scancode ∷ scancodes) m =
      ap (run_codes (codes_of scancodes)) (sym (keyboard-keystroke bus scancode m))
      ∙ run_codes-codes_of scancodes (keystroke bus scancode m)

  pub codes_of-Ends :
      (scancodes : List ℕ) (m : Machine bus.Devices)
      → m.keyboard.keyboard_input_on ≢ 0
      → AreCharacters scancodes
      → Ends (codes_of scancodes) m.keyboard
  codes_of-Ends [] m on keys =
      let pressed = scancode_effect-on enter m.keyboard on (ground (arith, map-enter)) in
      (on, (ground arith, rw (← keyboard-keystroke bus enter m) (keystroke-off bus m on)))
  codes_of-Ends (scancode ∷ scancodes) m on (key, keys) =
      let pressed = scancode_effect-on scancode m.keyboard on key.some_character in
      (
        on,
        (
          ground arith,
          rw (← keyboard-keystroke bus scancode m) (
              codes_of-Ends scancodes (keystroke bus scancode m)
                (ground (arith, keystroke-on bus scancode m on key)) keys),
        ),
      )
