-- ===== src/Fat32/Write/Round.antt =====
-- One round of the loop of `write`: what it leaves on the disk and in the FAT.
use if2230_2023_hexos.Prelude.{
  ℕ, ◌+◌, ◌*◌, ◌%◌, ◌^◌, ◌≤◌, ◌<◌, ◌≡◌, ◌≢◌, ◌==◌, if◌then◌else◌, Buf, arith,
}
use if2230_2023_hexos.Stdmem.{memcpy}
use if2230_2023_hexos.Stdmem.Copy.{memcpy_lem}
use if2230_2023_hexos.Fat32.{DriverRequest, DriverState}
use if2230_2023_hexos.Fat32.Layout.{cluster_map, set_cluster_map, cluster_map-set, cluster_map_eq}
use if2230_2023_hexos.Fat32.Cluster.{
  read_clusters, write_clusters, byte_of, disk_fat, read_clusters_lem, byte_of-write_clusters,
}
use if2230_2023_hexos.Fat32.Write.{write_chunk, save_fat}

module _ (request : DriverRequest) (c n : ℕ) (s : DriverState) (low : 2 ≤ c) (high : c < 512) where
  -- The cluster buffer of the round.
  abbrev chunk : Buf
  chunk = memcpy (read_clusters s.cluster_buf c 1 s.disk) 0 request.buf (n * 2048 % 2 ^ 32) 2048

  pub byte_of-write_chunk :
      (e a : ℕ)
      → a < 2048
      → byte_of (write_chunk request c n s).disk e a
        ≡ (if c == e then request.buf (n * 2048 % 2 ^ 32 + a) else byte_of s.disk e a)
  unfolding write_chunk
  byte_of-write_chunk e a l = ground (
    arith,
    byte_of-write_clusters chunk c s.disk e a (omega arith) l,
    memcpy_lem (read_clusters s.cluster_buf c 1 s.disk) 0 request.buf (n * 2048 % 2 ^ 32) 2048 a,
  )

  -- The round reads the FAT back from the disk.
  pub cluster_map-write_chunk :
      (j : ℕ) → j < 512 → cluster_map (write_chunk request c n s).fat_table j ≡ disk_fat s.disk j
  unfolding write_chunk
  cluster_map-write_chunk j h = cluster_map_eq _ _ j h λ a l. ground (
    arith,
    read_clusters_lem s.fat_table 1 (write_clusters chunk c 1 s.disk) a (omega arith),
    byte_of-write_clusters chunk c s.disk 1 a (omega arith) l,
  )

  pub disk_fat-write_chunk :
      (j : ℕ) → j < 512 → disk_fat (write_chunk request c n s).disk j ≡ disk_fat s.disk j
  disk_fat-write_chunk j h = cluster_map_eq _ _ j h λ a l. ground (arith, byte_of-write_chunk 1 a l)

module _ (i v : ℕ) (s : DriverState) where
  pub cluster_map-save_fat :
      (j : ℕ)
      → cluster_map (save_fat i v s).fat_table j
        ≡ (if i == j then v % 2 ^ 32 else cluster_map s.fat_table j)
  unfolding save_fat
  cluster_map-save_fat j = cluster_map-set s.fat_table i v j

  pub disk_fat-save_fat :
      (j : ℕ)
      → j < 512
      → disk_fat (save_fat i v s).disk j ≡ cluster_map (save_fat i v s).fat_table j
  unfolding save_fat
  disk_fat-save_fat j h = cluster_map_eq _ _ j h λ a l.
      ground (
        arith,
        byte_of-write_clusters (set_cluster_map s.fat_table i v) 1 s.disk 1 a (omega arith) l,
      )

  pub byte_of-save_fat :
      (e a : ℕ) → a < 2048 → e ≢ 1 → byte_of (save_fat i v s).disk e a ≡ byte_of s.disk e a
  unfolding save_fat
  byte_of-save_fat e a l ne =
      ground (
        arith,
        byte_of-write_clusters (set_cluster_map s.fat_table i v) 1 s.disk e a (omega arith) l,
      )
