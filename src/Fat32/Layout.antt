-- ===== src/Fat32/Layout.antt =====
-- `struct FAT32DirectoryEntry` and `FAT32FileAllocationTable`, packed: entry `i` of a directory
-- table begins at byte `32 * i`, entry `i` of the cluster map at byte `4 * i`.
use if2230_2023_hexos.Prelude.{
  ℕ, ◌+◌, ◌*◌, ◌%◌, ◌^◌, ◌<◌, ◌≡◌, ◌==◌, if◌then◌else◌, Buf, store, load16, load32, store16,
  store32, arith,
}

-- `sizeof(struct FAT32DirectoryEntry)`
abbrev pub entry_size : ℕ
entry_size = 32

abbrev pub name_at : ℕ → ℕ
name_at i = entry_size * i

abbrev pub ext_at : ℕ → ℕ
ext_at i = entry_size * i + 8

abbrev pub attribute : Buf → ℕ → ℕ
attribute t i = t (entry_size * i + 11)

abbrev pub user_attribute : Buf → ℕ → ℕ
user_attribute t i = t (entry_size * i + 12)

abbrev pub cluster_high : Buf → ℕ → ℕ
cluster_high t i = load16 t (entry_size * i + 20)

abbrev pub cluster_low : Buf → ℕ → ℕ
cluster_low t i = load16 t (entry_size * i + 26)

abbrev pub filesize : Buf → ℕ → ℕ
filesize t i = load32 t (entry_size * i + 28)

abbrev pub set_attribute : Buf → ℕ → ℕ → Buf
set_attribute t i v = store t (entry_size * i + 11) v

abbrev pub set_user_attribute : Buf → ℕ → ℕ → Buf
set_user_attribute t i v = store t (entry_size * i + 12) v

abbrev pub set_cluster_high : Buf → ℕ → ℕ → Buf
set_cluster_high t i v = store16 t (entry_size * i + 20) v

abbrev pub set_cluster_low : Buf → ℕ → ℕ → Buf
set_cluster_low t i v = store16 t (entry_size * i + 26) v

abbrev pub set_filesize : Buf → ℕ → ℕ → Buf
set_filesize t i v = store32 t (entry_size * i + 28) v

-- `cluster_map[i]`
unfoldable pub cluster_map : Buf → ℕ → ℕ
cluster_map f i = load32 f (4 * i)

-- `cluster_map[i] = v`
unfoldable pub set_cluster_map : Buf → ℕ → ℕ → Buf
set_cluster_map f i v = store32 f (4 * i) v

pub cluster_map-set :
    (f : Buf) (i v j : ℕ)
    → cluster_map (set_cluster_map f i v) j ≡ (if i == j then v % 2 ^ 32 else cluster_map f j)
unfolding cluster_map set_cluster_map load32 store32
cluster_map-set f i v j = ground arith

-- The cluster map lies in the first 2048 bytes.
pub cluster_map_eq :
    (f g : Buf) (j : ℕ)
    → j < 512
    → ((a : ℕ) → a < 2048 → f a ≡ g a)
    → cluster_map f j ≡ cluster_map g j
unfolding cluster_map load32
cluster_map_eq f g j h e = ground (arith, e (4 * j), e (4 * j + 1), e (4 * j + 2), e (4 * j + 3))
