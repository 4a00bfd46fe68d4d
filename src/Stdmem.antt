-- ===== src/Stdmem.antt =====
-- stdmem.c: `memset`, `memcpy`, `memcmp` and `memmove` (also those of user-mode/user-shell.c).
-- Each loop recurs on the rounds left, `i` is the loop's counter. `memcpy` is declared `restrict`,
-- so its two regions are separate buffers; `memmove` works inside one memory.
pub mod Copy
pub mod Compare
pub mod Move
use if2230_2023_hexos.Prelude.{
  ℕ, zero, suc, ◌+◌, ◌%◌, ltb, if◌then◌else◌, Buf, store, ℤ, pos, minus_one,
}

unfoldable pub memset_loop : ℕ → Buf → ℕ → ℕ → ℕ → Buf
memset_loop zero m s c i = m
memset_loop (suc k) m s c i = memset_loop k (store m (s + i) (c % 256)) s c (i + 1)

-- `memset(m + s, c, n)`
unfoldable pub memset : Buf → ℕ → ℕ → ℕ → Buf
memset m s c n = memset_loop n m s c 0

unfoldable pub memcpy_loop : ℕ → Buf → ℕ → Buf → ℕ → ℕ → Buf
memcpy_loop zero dst d src s i = dst
memcpy_loop (suc k) dst d src s i = memcpy_loop k (store dst (d + i) (src (s + i))) d src s (i + 1)

-- `memcpy(dst + d, src + s, n)`
unfoldable pub memcpy : Buf → ℕ → Buf → ℕ → ℕ → Buf
memcpy dst d src s n = memcpy_loop n dst d src s 0

unfoldable pub memcmp_loop : ℕ → Buf → ℕ → Buf → ℕ → ℕ → ℤ
memcmp_loop zero b1 s1 b2 s2 i = pos 0
memcmp_loop (suc k) b1 s1 b2 s2 i =
    let rest = memcmp_loop k b1 s1 b2 s2 (i + 1) in
    if ltb (b1 (s1 + i)) (b2 (s2 + i))
    then minus_one
    else if ltb (b2 (s2 + i)) (b1 (s1 + i))
    then pos 1
    else rest

-- `memcmp(b1 + s1, b2 + s2, n)`
unfoldable pub memcmp : Buf → ℕ → Buf → ℕ → ℕ → ℤ
unfolding memcmp_loop
memcmp b1 s1 b2 s2 n = memcmp_loop n b1 s1 b2 s2 0

-- The loop for `dest < src`, upwards.
move_up : ℕ → Buf → ℕ → ℕ → ℕ → Buf
move_up zero m d s i = m
move_up (suc k) m d s i = move_up k (store m (d + i) (m (s + i))) d s (i + 1)

-- The other loop, downwards from `i`.
move_down : ℕ → Buf → ℕ → ℕ → Buf
move_down zero m d s = m
move_down (suc i) m d s = move_down i (store m (d + i) (m (s + i))) d s

-- `memmove(m + d, m + s, n)`
pub memmove : Buf → ℕ → ℕ → ℕ → Buf
unfolding move_up move_down
memmove m d s n = if ltb d s then move_up n m d s 0 else move_down n m d s
