-- ===== src/Fat32/Cluster.antt =====
-- `cluster_to_lba`, `read_clusters` and `write_clusters`, and their laws by cluster and offset.
use if2230_2023_hexos.Prelude.{
  ℕ, ◌+◌, ◌*◌, ◌%◌, ◌^◌, ◌<◌, ◌≡◌, ◌==◌, ltb, if◌then◌else◌, Buf, arith,
}
use if2230_2023_hexos.Image.{read_blocks, write_blocks}
use if2230_2023_hexos.Image.Laws.{read_blocks_lem, write_blocks_lem}
use if2230_2023_hexos.Fat32.{cluster_block_count}
use if2230_2023_hexos.Fat32.Layout.{cluster_map}

unfoldable pub cluster_to_lba : ℕ → ℕ
cluster_to_lba cluster = cluster * cluster_block_count % 2 ^ 32

-- The disk comes last. `block_count` is an `uint8_t`.
unfoldable pub read_clusters : Buf → ℕ → ℕ → Buf → Buf
unfolding cluster_to_lba
read_clusters ptr cluster_number cluster_count disk =
    read_blocks ptr disk (cluster_to_lba cluster_number) (cluster_count * 4 % 256)

unfoldable pub write_clusters : Buf → ℕ → ℕ → Buf → Buf
unfolding cluster_to_lba
write_clusters ptr cluster_number cluster_count disk =
    write_blocks ptr disk (cluster_to_lba cluster_number) (cluster_count * 4 % 256)

-- Byte `a` of cluster `c`.
abbrev pub byte_of : Buf → ℕ → ℕ → ℕ
byte_of disk c a = disk (2048 * c + a)

-- The FAT as the disk holds it, in cluster 1.
abbrev pub disk_fat : Buf → ℕ → ℕ
disk_fat disk j = cluster_map (byte_of disk 1) j

pub read_clusters_lem :
    (ptr : Buf) (c : ℕ) (disk : Buf) (a : ℕ)
    → c < 2 ^ 20
    → read_clusters ptr c 1 disk a ≡ (if ltb a 2048 then byte_of disk c a else ptr a)
unfolding read_clusters
read_clusters_lem ptr c disk a h =
    ground (arith, read_blocks_lem ptr disk (c * 4 % 2 ^ 32) 4 a (omega arith))

pub byte_of-write_clusters :
    (ptr : Buf) (c : ℕ) (disk : Buf) (e a : ℕ)
    → c < 2 ^ 20
    → a < 2048
    → byte_of (write_clusters ptr c 1 disk) e a ≡ (if c == e then ptr a else byte_of disk e a)
unfolding write_clusters
byte_of-write_clusters ptr c disk e a h l =
    ground (arith, write_blocks_lem ptr disk (c * 4 % 2 ^ 32) 4 (2048 * e + a) (omega arith))

-- For cluster numbers below 2 ^ 20, `read_clusters` after `write_clusters` delivers the bytes written
-- if the cluster is the same, and what it delivered before if it is another.
pub read_clusters-write_clusters :
    (to from : Buf) (c e : ℕ) (disk : Buf) (a : ℕ)
    → c < 2 ^ 20
    → e < 2 ^ 20
    → a < 2048
    → read_clusters to e 1 (write_clusters from c 1 disk) a
      ≡ (if c == e then from a else read_clusters to e 1 disk a)
read_clusters-write_clusters to from c e disk a hc he l = ground (
  arith,
  read_clusters_lem to e (write_clusters from c 1 disk) a he,
  read_clusters_lem to e disk a he,
  byte_of-write_clusters from c disk e a hc l,
)
