-- ===== src/Keyboard/Map.antt =====
-- `keyboard_scancode_1_to_ascii_map` of keyboard.c: its first five rows; the other eleven are all zero.
pub use if2230_2023_hexos.Prelude.{length}
use if2230_2023_hexos.Prelude.{
  ℕ, List, [], ◌∷◌, ◌++◌, Buf, bytes_of, zero, suc, ◌≤◌, ◌≡◌, refl, arith,
}

abbrev row_0 : List ℕ
row_0 =
    0 ∷ 0x1B ∷ b'1' ∷ b'2' ∷ b'3' ∷ b'4' ∷ b'5' ∷ b'6' ∷ b'7' ∷ b'8' ∷ b'9' ∷ b'0' ∷ b'-' ∷ b'=' ∷ 8
    ∷ 9 ∷ []

abbrev row_1 : List ℕ
row_1 =
    b'q' ∷ b'w' ∷ b'e' ∷ b'r' ∷ b't' ∷ b'y' ∷ b'u' ∷ b'i' ∷ b'o' ∷ b'p' ∷ b'[' ∷ b']' ∷ 10 ∷ 0
    ∷ b'a' ∷ b's' ∷ []

abbrev row_2 : List ℕ
row_2 =
    b'd' ∷ b'f' ∷ b'g' ∷ b'h' ∷ b'j' ∷ b'k' ∷ b'l' ∷ b';' ∷ 39 ∷ b'`' ∷ 0 ∷ 92 ∷ b'z' ∷ b'x' ∷ b'c'
    ∷ b'v' ∷ []

abbrev row_3 : List ℕ
row_3 = b'b' ∷ b'n' ∷ b'm' ∷ b',' ∷ b'.' ∷ b'/' ∷ 0 ∷ b'*' ∷ 0 ∷ b' ' ∷ 0 ∷ 0 ∷ 0 ∷ 0 ∷ 0 ∷ 0 ∷ []

abbrev row_4 : List ℕ
row_4 = 0 ∷ 0 ∷ 0 ∷ 0 ∷ 0 ∷ 0 ∷ 0 ∷ 0 ∷ 0 ∷ 0 ∷ b'-' ∷ 0 ∷ 0 ∷ 0 ∷ b'+' ∷ 0 ∷ []

unfoldable pub keyboard_scancode_1_to_ascii_map : Buf
unfolding bytes_of
keyboard_scancode_1_to_ascii_map scancode =
    bytes_of (row_0 ++ row_1 ++ row_2 ++ row_3 ++ row_4) scancode

bytes_of-beyond : (cs : List ℕ) (i : ℕ) → length cs ≤ i → bytes_of cs i ≡ 0
unfolding bytes_of
bytes_of-beyond [] i h = refl
bytes_of-beyond (c ∷ cs) zero h = absurd (omega arith)
bytes_of-beyond (c ∷ cs) (suc i) h = bytes_of-beyond cs i (omega arith)

-- Beyond the five rows the map is zero.
pub map-beyond : (i : ℕ) → 80 ≤ i → keyboard_scancode_1_to_ascii_map i ≡ 0
unfolding keyboard_scancode_1_to_ascii_map
map-beyond i h = bytes_of-beyond (row_0 ++ row_1 ++ row_2 ++ row_3 ++ row_4) i h
