-- ===== src/Stdmem/Copy.antt =====
-- What `memset` and `memcpy` leave in memory.
use if2230_2023_hexos.Prelude.{
  ℕ, zero, suc, ◌+◌, ◌-◌, ◌%◌, ◌≡◌, ◌&&◌, leb, ltb, if◌then◌else◌, Buf, store, store_lem, arith,
}
use if2230_2023_hexos.Stdmem.{memset_loop, memset, memcpy_loop, memcpy}

memset_loop_lem :
    (k : ℕ) (m : Buf) (s c i x : ℕ)
    → memset_loop k m s c i x ≡ (if leb (s + i) x && ltb x (s + i + k) then c % 256 else m x)
unfolding memset_loop
memset_loop_lem zero m s c i x = ground arith
memset_loop_lem (suc k) m s c i x = ground (
  arith,
  memset_loop_lem k (store m (s + i) (c % 256)) s c (i + 1) x,
  store_lem m (s + i) (c % 256) x,
)

-- `memset` fills exactly the `n` cells from `s` with the low byte of `c`.
pub memset_lem :
    (m : Buf) (s c n x : ℕ) → memset m s c n x ≡ (if leb s x && ltb x (s + n) then c % 256 else m x)
unfolding memset
memset_lem m s c n x = ground (arith, memset_loop_lem n m s c 0 x)

memcpy_loop_lem :
    (k : ℕ) (dst : Buf) (d : ℕ) (src : Buf) (s i x : ℕ)
    → memcpy_loop k dst d src s i x
      ≡ (if leb (d + i) x && ltb x (d + i + k) then src (s + (x - d)) else dst x)
unfolding memcpy_loop
memcpy_loop_lem zero dst d src s i x = ground arith
memcpy_loop_lem (suc k) dst d src s i x = ground (
  arith,
  memcpy_loop_lem k (store dst (d + i) (src (s + i))) d src s (i + 1) x,
  store_lem dst (d + i) (src (s + i)) x,
)

-- From one buffer to another `memcpy` copies exactly `n` cells and leaves the others alone.
pub memcpy_lem :
    (dst : Buf) (d : ℕ) (src : Buf) (s n x : ℕ)
    → memcpy dst d src s n x ≡ (if leb d x && ltb x (d + n) then src (s + (x - d)) else dst x)
unfolding memcpy
memcpy_lem dst d src s n x = ground (arith, memcpy_loop_lem n dst d src s 0 x)
