-- ===== src/Fat32/Init/Boot.antt =====
-- fat32.c: the disk and the memory after the initialisation of the file system, and a restart.
use if2230_2023_hexos.Prelude.{
  ℕ, ◌<◌, ◌≡◌, refl, sym, ◌∙◌, inl, inr, false, ◌==◌, if◌then◌else◌, Bool-cases, Buf, arith,
}
use if2230_2023_hexos.Stdmem.{memcpy}
use if2230_2023_hexos.Stdmem.Copy.{memcpy_lem}
use if2230_2023_hexos.Stdmem.Compare.{Agree-of_memcmp, memcmp_of_Agree}
use if2230_2023_hexos.Image.{read_blocks}
use if2230_2023_hexos.Image.Laws.{read_blocks_lem}
use if2230_2023_hexos.Fat32.{DriverState}
use if2230_2023_hexos.Fat32.Layout.{cluster_map, set_cluster_map, cluster_map-set, cluster_map_eq}
use if2230_2023_hexos.Fat32.Cluster.{
  byte_of, disk_fat, read_clusters, write_clusters, read_clusters_lem, byte_of-write_clusters,
}
use if2230_2023_hexos.Fat32.Write.{init_directory_table}
use if2230_2023_hexos.Fat32.Write.Chain.{IsSynced}
use if2230_2023_hexos.Fat32.Write.Folder.{
  FolderHead, FolderHead-transfer, init_directory_table-FolderHead,
}
use if2230_2023_hexos.Fat32.Init.{
  fs_signature, is_empty_storage, root_name, create_fat32, initialize_filesystem_fat32,
}

-- The boot sector holds the signature.
abbrev pub IsSigned : Buf → Type 0
IsSigned disk = (j : ℕ) → j < 512 → disk j ≡ fs_signature j

not-empty_of_IsSigned : (buf disk : Buf) → IsSigned disk → is_empty_storage buf disk ≡ false
unfolding is_empty_storage
not-empty_of_IsSigned buf disk h = rw (
    memcmp_of_Agree (read_blocks buf disk 0 1) 0 fs_signature 0 512
      (λ j _ l. ground (arith, read_blocks_lem buf disk 0 1 j, h j)))

pub IsSigned-of_not-empty : (buf disk : Buf) → is_empty_storage buf disk ≡ false → IsSigned disk
unfolding is_empty_storage
IsSigned-of_not-empty buf disk h j l = ground (
  arith,
  Agree-of_memcmp (read_blocks buf disk 0 1) 0 fs_signature 0 512 (ground arith) j,
  read_blocks_lem buf disk 0 1 j,
)

module _ (s : DriverState) where
  abbrev new_fat : Buf
  new_fat =
      set_cluster_map (set_cluster_map (set_cluster_map s.fat_table 0 0x0FFF_FFF0) 1 0x0FFF_FFFF) 2
        0x0FFF_FFFF

  abbrev new_table : Buf
  new_table = init_directory_table s.dir_table_buf root_name 2

  abbrev new_boot : Buf
  new_boot = memcpy s.cluster_buf 0 fs_signature 0 512

  -- The three clusters that `create_fat32` writes.
  pub byte_of-create_fat32 :
      (e a : ℕ)
      → a < 2048
      → byte_of (create_fat32 s).disk e a ≡ (
          if 2 == e
          then new_table a
          else if 1 == e
          then new_fat a
          else if 0 == e
          then new_boot a
          else byte_of s.disk e a)
  unfolding create_fat32
  byte_of-create_fat32 e a l = ground (
    arith,
    byte_of-write_clusters new_table 2
        (write_clusters new_fat 1 1 (write_clusters new_boot 0 1 s.disk)) e a (omega arith) l,
    byte_of-write_clusters new_fat 1 (write_clusters new_boot 0 1 s.disk) e a (omega arith) l,
    byte_of-write_clusters new_boot 0 s.disk e a (omega arith) l,
  )

  pub create_fat32-IsSigned : IsSigned (create_fat32 s).disk
  create_fat32-IsSigned j l = ground (
    arith,
    byte_of-create_fat32 0 j (omega arith),
    memcpy_lem s.cluster_buf 0 fs_signature 0 512 j,
  )

  pub create_fat32-IsSynced : IsSynced (create_fat32 s)
  unfolding create_fat32
  create_fat32-IsSynced j h =
      cluster_map_eq _ _ j h λ a l. ground (arith, byte_of-create_fat32 1 a l)

  create_fat32-entries :
      (j : ℕ) → j < 512 → disk_fat (create_fat32 s).disk j ≡ cluster_map new_fat j
  create_fat32-entries j h =
      cluster_map_eq _ _ j h λ a l. ground (arith, byte_of-create_fat32 1 a l)

  -- `create_fat32` reserves clusters 0 and 1, marks the root folder in cluster 2 as a chain's end,
  -- leaves the other entries of the FAT, and makes the table of the root folder.
  pub create_fat32_lem :
      ((j : ℕ)
        → j < 512
        → disk_fat (create_fat32 s).disk j ≡ (
            if j == 0
            then 0x0FFF_FFF0
            else if j == 1
            then 0x0FFF_FFFF
            else if j == 2
            then 0x0FFF_FFFF
            else cluster_map s.fat_table j))
      × FolderHead root_name 2 (byte_of (create_fat32 s).disk 2)
  create_fat32_lem = (
    λ j h. ground (
      arith,
      create_fat32-entries j h,
      cluster_map-set s.fat_table 0 0x0FFF_FFF0 j,
      cluster_map-set (set_cluster_map s.fat_table 0 0x0FFF_FFF0) 1 0x0FFF_FFFF j,
      cluster_map-set (set_cluster_map (set_cluster_map s.fat_table 0 0x0FFF_FFF0) 1 0x0FFF_FFFF) 2
          0x0FFF_FFFF j,
    ),
    FolderHead-transfer (λ a l. ground (arith, byte_of-create_fat32 2 a l))
        (init_directory_table-FolderHead s.dir_table_buf root_name 2),
  )

module _ (buf : Buf) (s : DriverState) where
  -- After the initialisation, of an empty disk or a formatted one, the boot sector carries the
  -- signature and the FAT in memory is the one on the disk.
  pub initialize-IsSynced :
      IsSigned (initialize_filesystem_fat32 buf s).disk
      × IsSynced (initialize_filesystem_fat32 buf s)
  unfolding initialize_filesystem_fat32
  initialize-IsSynced = elim (Bool-cases (is_empty_storage buf s.disk)) [
    | inl empty ↦ rw empty (create_fat32-IsSigned s, create_fat32-IsSynced s)
    | inr formatted ↦ rw formatted (
      IsSigned-of_not-empty buf s.disk formatted,
      λ j h.
          cluster_map_eq _ _ j h
            λ a l. ground (arith, read_clusters_lem s.fat_table 1 s.disk a (omega arith)),
    )
  ]

  pub initialize-formatted :
      IsSigned s.disk
      → initialize_filesystem_fat32 buf s ≡ record s {
        fat_table = read_clusters s.fat_table 1 1 s.disk;
        dir_table_buf = read_clusters s.dir_table_buf 2 1 s.disk;
      }
  unfolding initialize_filesystem_fat32
  initialize-formatted signed = rw (not-empty_of_IsSigned buf s.disk signed)

-- A second start, with any memory, on the disk that a first one left keeps the disk as it is and
-- loads the same FAT and the root folder's table.
initialize_restart :
    (buf buf' : Buf) (s t : DriverState)
    → let s1 = initialize_filesystem_fat32 buf s in
      let s2 = initialize_filesystem_fat32 buf' (record t { disk = s1.disk }) in
      (s2.disk ≡ s1.disk)
      × ((j : ℕ) → j < 512 → cluster_map s2.fat_table j ≡ cluster_map s1.fat_table j)
      × ((a : ℕ) → a < 2048 → s2.dir_table_buf a ≡ byte_of s1.disk 2 a)
initialize_restart buf buf' s t =
    let s1 : DriverState = initialize_filesystem_fat32 buf s in
    let (signed, synced) = initialize-IsSynced buf s in
    rw (initialize-formatted buf' (record t { disk = s1.disk }) signed) (
      refl,
      λ j h.
          cluster_map_eq _ _ j h
            (λ a l. ground (arith, read_clusters_lem t.fat_table 1 s1.disk a (omega arith)))
          ∙ sym (synced j h),
      λ a l. ground (arith, read_clusters_lem t.dir_table_buf 2 s1.disk a (omega arith)),
    )
