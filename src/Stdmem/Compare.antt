-- ===== src/Stdmem/Compare.antt =====
-- stdmem.c: the result of `memcmp` and the first difference of the regions.
use if2230_2023_hexos.Prelude.{
  ℕ, zero, suc, ◌+◌, ◌≤◌, ◌<◌, ◌≡◌, refl, inl, inr, true, Bool-cases, ltb, Buf, ℤ, pos, neg,
  is_zero, minus_one, arith,
}
use if2230_2023_hexos.Stdmem.{memcmp_loop, memcmp}

module _ (b1 : Buf) (s1 : ℕ) (b2 : Buf) (s2 : ℕ) where
  -- The cells from `i` up to `n`, which is not among them, agree.
  abbrev pub Agree : ℕ → ℕ → Type 0
  Agree i n = (j : ℕ) → i ≤ j → j < n → b1 (s1 + j) ≡ b2 (s2 + j)

  Agree-extend : (i n : ℕ) → b1 (s1 + i) ≡ b2 (s2 + i) → Agree (i + 1) n → Agree i n
  Agree-extend i n e rest j low high = ground (arith, rest j)

  -- From `i` on the regions agree before cell `j`, and differ there by `r`.
  pub data Differ (i n : ℕ) : ℤ → Type 0 where
    below : (j : ℕ) → j < n → b1 (s1 + j) < b2 (s2 + j) → Agree i j → Differ i n minus_one
    above : (j : ℕ) → j < n → b2 (s2 + j) < b1 (s1 + j) → Agree i j → Differ i n (pos 1)
    same : Agree i n → Differ i n (pos 0)

  Differ-extend : (i n : ℕ) {r : ℤ} → b1 (s1 + i) ≡ b2 (s2 + i) → Differ (i + 1) n r → Differ i n r
  Differ-extend i n e (below j l d a) = below j l d (Agree-extend i j e a)
  Differ-extend i n e (above j l d a) = above j l d (Agree-extend i j e a)
  Differ-extend i n e (same a) = same (Agree-extend i n e a)

memcmp_loop-Differ :
    (k : ℕ) (b1 : Buf) (s1 : ℕ) (b2 : Buf) (s2 i n : ℕ)
    → i + k ≡ n
    → Differ b1 s1 b2 s2 i n (memcmp_loop k b1 s1 b2 s2 i)
unfolding memcmp_loop
memcmp_loop-Differ zero b1 s1 b2 s2 i n e = same (λ j low high. absurd (omega arith))
memcmp_loop-Differ (suc k) b1 s1 b2 s2 i n e = elim (Bool-cases (ltb (b1 (s1 + i)) (b2 (s2 + i)))) [
  | inl lt ↦ rw lt (below i (omega arith) (ground arith) (λ j low high. absurd (omega arith)))
  | inr ge ↦ elim (Bool-cases (ltb (b2 (s2 + i)) (b1 (s1 + i)))) [
    | inl gt ↦
        rw (ge, gt) (above i (omega arith) (ground arith) (λ j low high. absurd (omega arith)))
    | inr le ↦
        rw (ge, le)
          (Differ-extend b1 s1 b2 s2 i n (ground arith)
            (memcmp_loop-Differ k b1 s1 b2 s2 (i + 1) n (omega arith)))
  ]
]

-- `memcmp` returns -1, 1 or 0 as the first differing cell among the first `n` is smaller in the
-- first region, is smaller in the second, or does not exist.
pub memcmp-Differ :
    (b1 : Buf) (s1 : ℕ) (b2 : Buf) (s2 n : ℕ) → Differ b1 s1 b2 s2 0 n (memcmp b1 s1 b2 s2 n)
unfolding memcmp
memcmp-Differ b1 s1 b2 s2 n = memcmp_loop-Differ n b1 s1 b2 s2 0 n (omega arith)

memcmp_loop-neg :
    (k : ℕ) (b1 : Buf) (s1 : ℕ) (b2 : Buf) (s2 i : ℕ)
    → memcmp_loop k b2 s2 b1 s1 i ≡ neg (memcmp_loop k b1 s1 b2 s2 i)
unfolding memcmp_loop
memcmp_loop-neg zero b1 s1 b2 s2 i = refl
memcmp_loop-neg (suc k) b1 s1 b2 s2 i = ground (arith, memcmp_loop-neg k b1 s1 b2 s2 (i + 1))

-- `memcmp` of the regions in the other order returns the opposite sign.
memcmp-neg :
    (b1 : Buf) (s1 : ℕ) (b2 : Buf) (s2 n : ℕ) → memcmp b2 s2 b1 s1 n ≡ neg (memcmp b1 s1 b2 s2 n)
unfolding memcmp
memcmp-neg b1 s1 b2 s2 n = memcmp_loop-neg n b1 s1 b2 s2 0

Agree-of_Differ :
    {b1 : Buf} {s1 : ℕ} {b2 : Buf} {s2 n : ℕ} {r : ℤ}
    → Differ b1 s1 b2 s2 0 n r
    → is_zero r ≡ true
    → Agree b1 s1 b2 s2 0 n
Agree-of_Differ (below j l d a) h = cc
Agree-of_Differ (above j l d a) h = cc
Agree-of_Differ (same a) h = a

is_zero_of_Differ :
    {b1 : Buf} {s1 : ℕ} {b2 : Buf} {s2 n : ℕ} {r : ℤ}
    → Differ b1 s1 b2 s2 0 n r
    → Agree b1 s1 b2 s2 0 n
    → is_zero r ≡ true
is_zero_of_Differ (below j l d a) h = absurd (omega (arith, h j (omega arith) l))
is_zero_of_Differ (above j l d a) h = absurd (omega (arith, h j (omega arith) l))
is_zero_of_Differ (same a) h = refl

-- `memcmp(...) == 0` means that the cells agree.
pub Agree-of_memcmp :
    (b1 : Buf) (s1 : ℕ) (b2 : Buf) (s2 n : ℕ)
    → is_zero (memcmp b1 s1 b2 s2 n) ≡ true
    → Agree b1 s1 b2 s2 0 n
Agree-of_memcmp b1 s1 b2 s2 n = Agree-of_Differ (memcmp-Differ b1 s1 b2 s2 n)

pub memcmp_of_Agree :
    (b1 : Buf) (s1 : ℕ) (b2 : Buf) (s2 n : ℕ)
    → Agree b1 s1 b2 s2 0 n
    → is_zero (memcmp b1 s1 b2 s2 n) ≡ true
memcmp_of_Agree b1 s1 b2 s2 n = is_zero_of_Differ (memcmp-Differ b1 s1 b2 s2 n)

memcmp_loop_eq :
    (k : ℕ) (b c : Buf) (s : ℕ) (b2 : Buf) (s2 i : ℕ)
    → ((j : ℕ) → i ≤ j → j < i + k → b (s + j) ≡ c (s + j))
    → memcmp_loop k b s b2 s2 i ≡ memcmp_loop k c s b2 s2 i
unfolding memcmp_loop
memcmp_loop_eq zero b c s b2 s2 i e = refl
memcmp_loop_eq (suc k) b c s b2 s2 i e =
    let here : b (s + i) ≡ c (s + i) = e i (omega arith) (omega arith) in
    rw (here, memcmp_loop_eq k b c s b2 s2 (i + 1) (λ j low l. e j (omega arith) (omega arith)))

-- `memcmp` reads only the first `n` cells.
pub memcmp_eq :
    (b c : Buf) (s : ℕ) (b2 : Buf) (s2 n : ℕ)
    → ((j : ℕ) → j < n → b (s + j) ≡ c (s + j))
    → memcmp b s b2 s2 n ≡ memcmp c s b2 s2 n
unfolding memcmp
memcmp_eq b c s b2 s2 n e = memcmp_loop_eq n b c s b2 s2 0 (λ j _ l. e j (omega arith))
