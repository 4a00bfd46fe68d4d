-- ===== src/Prelude/Buffers.antt =====
-- A region of memory: from the offset of a byte to its value. Multi-byte fields are little-endian.
use mathlib.Core.List.{List, [], ◌∷◌}
use Prim.Native.Nat.{ℕ, zero, suc, ◌+◌, ◌*◌, ◌/◌, ◌%◌, ◌^◌, ◌≤◌, ◌<◌}
use mathlib.Core.Path.{◌≡◌}
use native.Mathlib.Omega.{arith}
use if2230_2023_hexos.Prelude.Tests.{◌==◌, if◌then◌else◌}

abbrev pub Buf : Type 0
Buf = ℕ → ℕ

-- Every cell holds a byte.
abbrev pub IsBytes : Buf → Type 0
IsBytes b = (a : ℕ) → b a < 256

abbrev pub length {ℓ} : {A : Type ℓ} → List A → ℕ
length [] = 0
length (x ∷ xs) = suc (length xs)

-- The bytes of a list, and zeros behind it.
unfoldable pub bytes_of : List ℕ → Buf
bytes_of [] i = 0
bytes_of (x ∷ xs) zero = x
bytes_of (x ∷ xs) (suc i) = bytes_of xs i

-- `m[a] = v`
unfoldable pub store : Buf → ℕ → ℕ → Buf
store m a v x = if x == a then v else m x

-- `*(uint16_t*) (m + a)`
unfoldable pub load16 : Buf → ℕ → ℕ
load16 m a = m a + 256 * m (a + 1)

-- `*(uint32_t*) (m + a)`
unfoldable pub load32 : Buf → ℕ → ℕ
load32 m a = m a + 256 * m (a + 1) + 65_536 * m (a + 2) + 16_777_216 * m (a + 3)

-- `*(uint16_t*) (m + a) = v`
unfoldable pub store16 : Buf → ℕ → ℕ → Buf
unfolding store
store16 m a v = store (store m a (v % 256)) (a + 1) (v / 256 % 256)

-- `*(uint32_t*) (m + a) = v`
unfoldable pub store32 : Buf → ℕ → ℕ → Buf
unfolding store store16
store32 m a v = store16 (store16 m a (v % 65_536)) (a + 2) (v / 65_536 % 65_536)

pub store_lem : (m : Buf) (a v x : ℕ) → store m a v x ≡ (if x == a then v else m x)
unfolding store
store_lem m a v x = ground arith

pub load32-store32 : (m : Buf) (a v : ℕ) → load32 (store32 m a v) a ≡ v % 2 ^ 32
unfolding load32 store32
load32-store32 m a v = ground arith

-- A field depends on its own bytes only.
pub load32_eq :
    (m k : Buf) (a : ℕ) → ((x : ℕ) → a ≤ x → x < a + 4 → m x ≡ k x) → load32 m a ≡ load32 k a
unfolding load32
load32_eq m k a e = ground (arith, e a, e (a + 1), e (a + 2), e (a + 3))

pub load16_eq :
    (m k : Buf) (a : ℕ) → ((x : ℕ) → a ≤ x → x < a + 2 → m x ≡ k x) → load16 m a ≡ load16 k a
unfolding load16
load16_eq m k a e = ground (arith, e a, e (a + 1))
