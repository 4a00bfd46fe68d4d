-- ===== src/Stdmem/Move.antt =====
-- stdmem.c: the memory after `memmove`.
use if2230_2023_hexos.Prelude.{
  ℕ, zero, suc, ◌+◌, ◌-◌, ◌≤◌, ◌<◌, ◌≡◌, ◌&&◌, leb, ltb, if◌then◌else◌, Buf, store, store_lem,
  arith,
}
use if2230_2023_hexos.Stdmem.{move_up, move_down, memmove}

move_up_lem :
    (k : ℕ) (m : Buf) (d s i x : ℕ)
    → d < s
    → move_up k m d s i x ≡ (if leb (d + i) x && ltb x (d + i + k) then m (s + (x - d)) else m x)
unfolding move_up
move_up_lem zero m d s i x h = ground arith
move_up_lem (suc k) m d s i x h = ground (
  arith,
  move_up_lem k (store m (d + i) (m (s + i))) d s (i + 1) x h,
  store_lem m (d + i) (m (s + i)) x,
  store_lem m (d + i) (m (s + i)) (s + (x - d)),
)

move_down_lem :
    (i : ℕ) (m : Buf) (d s x : ℕ)
    → s ≤ d
    → move_down i m d s x ≡ (if leb d x && ltb x (d + i) then m (s + (x - d)) else m x)
unfolding move_down
move_down_lem zero m d s x h = ground arith
move_down_lem (suc i) m d s x h = ground (
  arith,
  move_down_lem i (store m (d + i) (m (s + i))) d s x h,
  store_lem m (d + i) (m (s + i)) x,
  store_lem m (d + i) (m (s + i)) (s + (x - d)),
)

-- After `memmove(m + d, m + s, n)` the `n` cells from `d` hold what the `n` cells from `s` held
-- before the call, overlapping or not, and no other cell has changed.
pub memmove_lem :
    (m : Buf) (d s n x : ℕ)
    → memmove m d s n x ≡ (if leb d x && ltb x (d + n) then m (s + (x - d)) else m x)
unfolding memmove
memmove_lem m d s n x = ground (arith, move_up_lem n m d s 0 x, move_down_lem n m d s x)
