-- ===== src/Keyboard/Typing.antt =====
-- keyboard.c: keys that are pressed and released one after the other.
use if2230_2023_hexos.Keyboard.Keystroke.{
  IsCharacter, keystroke, Appended, scancode_effect-Appended, keyboard-keystroke,
}
use if2230_2023_hexos.Prelude.{
  ℕ, zero, suc, ◌+◌, ◌<◌, ◌≡◌, ◌≢◌, refl, ◌∙◌, List, [], ◌∷◌, bytes_of, arith,
}
use if2230_2023_hexos.Ports.{Bus}
use if2230_2023_hexos.Keyboard.Map.{keyboard_scancode_1_to_ascii_map, length}
use if2230_2023_hexos.Keyboard.{KeyboardDriverState, Machine}

-- The keys of a line, one after the other.
unfoldable pub type_keys : (bus : Bus) → List ℕ → Machine bus.Devices → Machine bus.Devices
type_keys bus [] m = m
type_keys bus (scancode ∷ scancodes) m = type_keys bus scancodes (keystroke bus scancode m)

abbrev pub AreCharacters : List ℕ → Type 0
AreCharacters [] = Unit {0}
AreCharacters (scancode ∷ scancodes) = IsCharacter scancode × AreCharacters scancodes

abbrev pub characters : List ℕ → List ℕ
characters [] = []
characters (scancode ∷ scancodes) = keyboard_scancode_1_to_ascii_map scancode ∷ characters scancodes

-- `cs` has been typed behind the first `n` characters of the line in `k`.
pub record Typed (cs : List ℕ) (k k' : KeyboardDriverState) : Type 0 where
  pub on : k'.keyboard_input_on ≡ k.keyboard_input_on
  pub index : k'.buffer_index ≡ k.buffer_index + length cs
  pub before : (a : ℕ) → a < k.buffer_index → k'.keyboard_buffer a ≡ k.keyboard_buffer a
  pub typed : (a : ℕ) → a < length cs → k'.keyboard_buffer (k.buffer_index + a) ≡ bytes_of cs a

Typed-step :
    (c : ℕ) (cs : List ℕ) (k k1 k2 : KeyboardDriverState)
    → k.buffer_index + suc (length cs) < 256
    → Appended c k k1
    → Typed cs k1 k2
    → Typed (c ∷ cs) k k2
unfolding bytes_of
Typed-step c cs k k1 k2 small one rest =
    let next : k1.buffer_index ≡ k.buffer_index + 1 = ground (arith, one.index) in
    record {
      on = rest.on ∙ one.on;
      index = ground (arith, rest.index);
      before = λ a l. ground (arith, rest.before a (omega arith), one.before a);
      typed = typed_at next;
    }
  where
    typed_at :
        k1.buffer_index ≡ k.buffer_index + 1
        → (a : ℕ) → a < suc (length cs)
        → k2.keyboard_buffer (k.buffer_index + a) ≡ bytes_of (c ∷ cs) a
    typed_at next zero l = ground (arith, rest.before k.buffer_index (omega arith), one.here)
    typed_at next (suc a) l = ground (arith, rest.typed a (omega arith))

-- Characters typed one after the other into a driver that accepts input stand in the buffer behind
-- those that were there, in order and as the map has them, if the line stays below 256 characters.
pub type_keys-Typed :
    (bus : Bus) (scancodes : List ℕ) (m : Machine bus.Devices)
    → m.keyboard.keyboard_input_on ≢ 0
    → AreCharacters scancodes
    → m.keyboard.buffer_index + length (characters scancodes) < 256
    → Typed (characters scancodes) m.keyboard (type_keys bus scancodes m).keyboard
unfolding type_keys
type_keys-Typed bus [] m on keys small = record {
  on = refl;
  index = ground arith;
  before = λ a l. refl;
  typed = λ a l. absurd (omega arith);
}
type_keys-Typed bus (scancode ∷ scancodes) m on (key, keys) small =
    let one : Appended (keyboard_scancode_1_to_ascii_map scancode) m.keyboard
        (keystroke bus scancode m).keyboard =
      rw (keyboard-keystroke bus scancode m)
        (scancode_effect-Appended scancode m.keyboard on key) in
    Typed-step (keyboard_scancode_1_to_ascii_map scancode) (characters scancodes) m.keyboard
      (keystroke bus scancode m).keyboard
      (type_keys bus scancodes (keystroke bus scancode m)).keyboard small one
      (type_keys-Typed bus scancodes (keystroke bus scancode m) (ground (arith, one.on)) keys
        (ground (arith, one.index)))
