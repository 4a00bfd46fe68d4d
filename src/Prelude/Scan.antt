-- ===== src/Prelude/Scan.antt =====
-- The loop `for (i = lo; i < n; i++) if (test(i)) return i;`
use Prim.Native.Nat.{ℕ, zero, suc, ◌+◌, ◌≤◌, ◌<◌}
use mathlib.Core.Path.{◌≡◌, refl}
use mathlib.Core.Logic.{inl, inr}
use mathlib.Core.Bool.{Bool, true, false}
use mathlib.Core.Option.{Option, none, some}
use native.Mathlib.Omega.{arith}
use if2230_2023_hexos.Prelude.Tests.{if◌then◌else◌, Bool-cases}

-- `k` rounds, from `i` on.
unfoldable pub first_index : (ℕ → Bool) → ℕ → ℕ → Option ℕ
first_index test zero i = none
first_index test (suc k) i =
    let rest = first_index test k (i + 1) in if test i then some i else rest

-- The index found, or the value that the C function returns behind its loop.
abbrev pub get_or : Option ℕ → ℕ → ℕ
get_or none d = d
get_or (some i) d = i

-- The outcome of the loop: the first index from `i` up to `n` that passes, or none passes.
pub data First (test : ℕ → Bool) (i n : ℕ) : Option ℕ → Type 0 where
  found :
      (j : ℕ)
      → i ≤ j
      → j < n
      → test j ≡ true
      → ((l : ℕ) → i ≤ l → l < j → test l ≡ false)
      → First test i n (some j)
  missing : ((l : ℕ) → i ≤ l → l < n → test l ≡ false) → First test i n none

skip :
    (test : ℕ → Bool) (i n : ℕ)
    → test i ≡ false
    → ((l : ℕ) → i + 1 ≤ l → l < n → test l ≡ false)
    → (l : ℕ) → i ≤ l
    → l < n
    → test l ≡ false
skip test i n h rest l low high = ground (arith, rest l)

First-extend :
    {test : ℕ → Bool} (i n : ℕ) {r : Option ℕ}
    → test i ≡ false
    → First test (i + 1) n r
    → First test i n r
First-extend {test} i n h (found j low high hit before) =
    found j (omega arith) high hit (skip test i j h before)
First-extend {test} i n h (missing all) = missing (skip test i n h all)

pub first_index-First :
    (test : ℕ → Bool) (k i n : ℕ) → i + k ≡ n → First test i n (first_index test k i)
unfolding first_index
first_index-First test zero i n e = missing (λ l low high. absurd (omega arith))
first_index-First test (suc k) i n e = elim (Bool-cases (test i)) [
  | inl hit ↦ rw hit (found i (omega arith) (omega arith) hit (λ l low high. absurd (omega arith)))
  | inr miss ↦ rw miss (First-extend i n miss (first_index-First test k (i + 1) n (omega arith)))
]

-- The loop finds the first index that passes.
pub first_index-eq :
    (test : ℕ → Bool) (n i : ℕ)
    → i < n
    → test i ≡ true
    → ((l : ℕ) → l < i → test l ≡ false)
    → first_index test n 0 ≡ some i
first_index-eq test n i bound hit before = unique (first_index-First test n 0 n (omega arith))
  where
    unique : {o : Option ℕ} → First test 0 n o → o ≡ some i
    unique (found j low high here first) = ground (arith, before j, first i)
    unique (missing all) = ground (arith, all i)

-- No index passes.
pub first_index-none :
    (test : ℕ → Bool) (k i : ℕ)
    → ((l : ℕ) → i ≤ l → l < i + k → test l ≡ false)
    → first_index test k i ≡ none
unfolding first_index
first_index-none test zero i none_hit = refl
first_index-none test (suc k) i none_hit = ground (
  arith,
  none_hit i,
  first_index-none test k (i + 1) (λ l low high. none_hit l (omega arith) (omega arith)),
)
