-- ===== src/Fat32/Delete/Absent.antt =====
-- What `delete` does if the first entry of the parent has another name, in particular if no entry
-- has the name that is asked for.
use if2230_2023_hexos.Prelude.{
  ℕ, ◌+◌, ◌*◌, ◌≤◌, ◌<◌, ◌≡◌, ◌∙◌, false, ◌==◌, leb, if◌then◌else◌, Buf, pos, arith,
}
use if2230_2023_hexos.Stdmem.{memset}
use if2230_2023_hexos.Stdmem.Copy.{memset_lem}
use if2230_2023_hexos.Fat32.{DriverRequest, DriverState, done}
use if2230_2023_hexos.Fat32.Layout.{
  cluster_map, set_cluster_map, set_user_attribute, cluster_map-set, cluster_map_eq,
}
use if2230_2023_hexos.Fat32.Cluster.{byte_of, disk_fat, write_clusters, byte_of-write_clusters}
use if2230_2023_hexos.Fat32.Search.{has_name, is_bad_parent}
use if2230_2023_hexos.Fat32.Read.{load_parent}
use if2230_2023_hexos.Fat32.Delete.{entry_cluster, remove_entry, delete_loop, delete}
use if2230_2023_hexos.Fat32.Delete.Effect.{loaded}

module _ (request : DriverRequest) (i : ℕ) (s : DriverState)
    (low : 2 ≤ request.parent_cluster_number) (high : request.parent_cluster_number ≤ 512)
    (bound : i < 64) (in_map : entry_cluster s.dir_table_buf i < 512) where
  abbrev table : Buf
  table = memset (set_user_attribute s.dir_table_buf i 0) (32 * i) 0 32

  abbrev fat : Buf
  fat = set_cluster_map s.fat_table (entry_cluster s.dir_table_buf i) 0

  -- The entry is cleared on the disk, and so is the FAT entry of its first cluster only.
  remove_entry_lem :
      (s' : DriverState) × (remove_entry request i s ≡ done (pos 0, s'))
      × ((a : ℕ) → a < 32 → byte_of s'.disk request.parent_cluster_number (32 * i + a) ≡ 0)
      × ((j : ℕ)
          → j < 512
          → disk_fat s'.disk j
            ≡ (if entry_cluster s.dir_table_buf i == j then 0 else cluster_map s.fat_table j))
  unfolding remove_entry
  remove_entry_lem =
      let inside : leb 512 (entry_cluster s.dir_table_buf i) ≡ false = ground arith in
      let disk : Buf = write_clusters fat 1 1 s.disk in
      (
        record s {
          dir_table_buf = table;
          fat_table = fat;
          disk = write_clusters table request.parent_cluster_number 1 disk;
        },
        rw inside,
        λ a l. ground (
          arith,
          byte_of-write_clusters table request.parent_cluster_number disk
              request.parent_cluster_number (32 * i + a) (omega arith) (omega arith),
          memset_lem (set_user_attribute s.dir_table_buf i 0) (32 * i) 0 32 (32 * i + a),
        ),
        λ j h.
            cluster_map_eq _ fat j h (λ a l. ground (
              arith,
              byte_of-write_clusters table request.parent_cluster_number disk 1 a (omega arith) l,
              byte_of-write_clusters fat 1 s.disk 1 a (omega arith) l,
            ))
            ∙ cluster_map-set s.fat_table (entry_cluster s.dir_table_buf i) 0 j,
      )

-- If entry 1 of the parent has another name than the one asked for, whether or not a later entry has
-- it, `delete` returns 0, and entry 1 is cleared on the disk, with the FAT entry of its first
-- cluster. (Its cluster number must lie in the map.)
pub delete_first_other :
    (fuel : ℕ) (request : DriverRequest) (stack : Buf) (s : DriverState)
    → is_bad_parent request (loaded request s) ≡ false
    → has_name request (loaded request s) 1 ≡ false
    → entry_cluster (loaded request s) 1 < 512
    → (s' : DriverState) × (delete fuel request stack s ≡ done (pos 0, s'))
      × ((a : ℕ) → a < 32 → byte_of s'.disk request.parent_cluster_number (32 + a) ≡ 0)
      × (disk_fat s'.disk (entry_cluster (loaded request s) 1) ≡ 0)
unfolding delete delete_loop
delete_first_other fuel request stack s fine miss in_map =
    let (s', e, cleared, fat) =
      remove_entry_lem request 1 (load_parent request s) (ground arith) (ground arith) (omega arith)
        in_map in
    (
      s',
      rw (fine, miss) e,
      cleared,
      ground (arith, fat (entry_cluster (loaded request s) 1) in_map),
    )
