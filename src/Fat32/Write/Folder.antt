-- ===== src/Fat32/Write/Folder.antt =====
-- `init_directory_table`, and the branch of `write` that makes a folder.
use if2230_2023_hexos.Prelude.{
  ℕ, ◌/◌, ◌%◌, ◌^◌, ◌≤◌, ◌<◌, ◌≡◌, ◌≢◌, sym, ◌∙◌, ◌==◌, ltb, true, if◌then◌else◌, [], ◌∷◌, Buf, pos,
  load16, store, store16, store32, load32_eq, load32-store32, arith,
}
use if2230_2023_hexos.Stdmem.{memcpy}
use if2230_2023_hexos.Stdmem.Copy.{memcpy_lem}
use if2230_2023_hexos.Fat32.{DriverRequest, DriverState, done, attr_subdirectory, uattr_not_empty}
use if2230_2023_hexos.Fat32.Layout.{
  name_at, attribute, user_attribute, cluster_low, cluster_high, filesize, set_user_attribute,
  set_cluster_low, set_cluster_high, set_attribute, cluster_map, set_cluster_map, cluster_map-set,
  cluster_map_eq,
}
use if2230_2023_hexos.Fat32.Cluster.{
  read_clusters, write_clusters, byte_of, disk_fat, read_clusters_lem, byte_of-write_clusters,
}
use if2230_2023_hexos.Fat32.Write.{init_directory_table, write_folder}
use if2230_2023_hexos.Fat32.Write.Chain.{Spares, IsSynced}

-- Entry 0 of a folder's table: its name and the mark of a folder. The halves of the parent's
-- number stand in each other's fields.
pub record FolderHead (name : Buf) (parent : ℕ) (table : Buf) : Type 0 where
  pub title : (a : ℕ) → a < 8 → table a ≡ name a
  pub kind : attribute table 0 ≡ 0b0001_0000
  pub in_use : user_attribute table 0 ≡ 0b1010_1010
  pub size : filesize table 0 ≡ 0
  pub low : cluster_low table 0 ≡ parent / 2 ^ 16 % 2 ^ 16
  pub high : cluster_high table 0 ≡ parent % 2 ^ 16

module _ (table name : Buf) (parent : ℕ) where
  abbrev before_size : Buf
  before_size =
      set_cluster_high
        (set_cluster_low
          (set_user_attribute
            (set_attribute (memcpy table (name_at 0) name 0 8) 0 attr_subdirectory) 0
            uattr_not_empty)
          0 (parent / 2 ^ 16 % 2 ^ 16))
        0 (parent % 2 ^ 16)

  init_size : filesize (init_directory_table table name parent) 0 ≡ 0
  unfolding init_directory_table
  init_size = load32-store32 before_size 28 0

  pub init_directory_table-FolderHead :
      FolderHead name parent (init_directory_table table name parent)
  unfolding init_directory_table store store16 store32 load16
  init_directory_table-FolderHead = record {
    title = λ a l. ground (arith, memcpy_lem table 0 name 0 8 a);
    kind = ground arith;
    in_use = ground arith;
    size = init_size;
    low = ground arith;
    high = ground arith;
  }

  -- Entries 1 to 63 keep whatever the table held.
  pub init_directory_table-outside :
      (x : ℕ) → 32 ≤ x → init_directory_table table name parent x ≡ table x
  unfolding init_directory_table store store16 store32
  init_directory_table-outside x h = ground (arith, memcpy_lem table 0 name 0 8 x)

-- What the making of a folder in cluster `c` leaves on the disk.
pub record FolderMade (request : DriverRequest) (c : ℕ) (s s' : DriverState) : Type 0 where
  pub head : FolderHead request.name request.parent_cluster_number (byte_of s'.disk c)
  pub marked : disk_fat s'.disk c ≡ 0x0FFF_FFFF
  pub stale : (a : ℕ) → 32 ≤ a → a < 2048 → byte_of s'.disk c a ≡ byte_of s.disk c a
  pub spares : Spares s s' (c ∷ [])

pub FolderHead-transfer :
    {name t t' : Buf} {parent : ℕ}
    → ((a : ℕ) → a < 2048 → t' a ≡ t a)
    → FolderHead name parent t
    → FolderHead name parent t'
unfolding load16
FolderHead-transfer {t} {t'} same h = record {
  title = λ a l. ground (arith, same a, h.title a);
  kind = ground (arith, same 11, h.kind);
  in_use = ground (arith, same 12, h.in_use);
  size = size_same;
  low = ground (arith, same 26, same 27, h.low);
  high = ground (arith, same 20, same 21, h.high);
}
  where
    size_same : filesize t' 0 ≡ 0
    size_same = load32_eq t' t 28 (λ x _ l. same x (omega arith)) ∙ h.size

module _ (request : DriverRequest) (c : ℕ) (s : DriverState) (low : 2 ≤ c) (high : c < 512)
    (synced : IsSynced s) where
  abbrev folder_table : Buf
  folder_table =
      init_directory_table (read_clusters s.dir_table_buf c 1 s.disk) request.name
        request.parent_cluster_number

  abbrev folder_fat : Buf
  folder_fat = set_cluster_map s.fat_table c 0x0FFF_FFFF

  abbrev folder_disk : Buf
  folder_disk = write_clusters folder_fat 1 1 (write_clusters folder_table c 1 s.disk)

  byte-folder :
      (e a : ℕ)
      → a < 2048
      → e ≢ 1
      → byte_of folder_disk e a ≡ (if c == e then folder_table a else byte_of s.disk e a)
  byte-folder e a l ne = ground (
    arith,
    byte_of-write_clusters folder_fat 1 (write_clusters folder_table c 1 s.disk) e a (omega arith)
        l,
    byte_of-write_clusters folder_table c s.disk e a (omega arith) l,
  )

  entry-folder : (j : ℕ) → j < 512 → disk_fat folder_disk j ≡ cluster_map folder_fat j
  entry-folder j h = cluster_map_eq _ _ j h λ a l. ground (
    arith,
    byte_of-write_clusters folder_fat 1 (write_clusters folder_table c 1 s.disk) 1 a (omega arith)
        l,
  )

  -- At a cluster of 2 to 511, with equal FATs in memory and on the disk, the branch for a folder
  -- returns 0. On the disk the first entry of the cluster then names the folder and its parent (with
  -- the two halves of the parent's number swapped), its other 63 entries are as they were, the
  -- cluster is marked as the end of a chain, and no other cluster or FAT entry has changed.
  pub write_folder-FolderMade :
      (s' : DriverState) × (write_folder request c s ≡ done (pos 0, s')) × FolderMade request c s s'
  unfolding write_folder
  write_folder-FolderMade =
      let in_map : ltb c 512 ≡ true = ground arith in
      (
        record s { dir_table_buf = folder_table; fat_table = folder_fat; disk = folder_disk },
        rw in_map,
        record {
          head =
              FolderHead-transfer (λ a l. ground (arith, byte-folder c a l))
                (init_directory_table-FolderHead (read_clusters s.dir_table_buf c 1 s.disk)
                  request.name request.parent_cluster_number);
          marked = ground (arith, entry-folder c high, cluster_map-set s.fat_table c 0x0FFF_FFFF c);
          stale = λ a low' l. ground (
            arith,
            byte-folder c a l,
            init_directory_table-outside (read_clusters s.dir_table_buf c 1 s.disk) request.name
                request.parent_cluster_number a low',
            read_clusters_lem s.dir_table_buf c s.disk a (omega arith),
          );
          spares = record {
            bytes = λ e a l ne out. ground (arith, byte-folder e a l ne);
            entries = λ j h out.
                ground (
                  arith,
                  entry-folder j h,
                  cluster_map-set s.fat_table c 0x0FFF_FFFF j,
                  synced j h,
                );
            synced = λ j h. sym (entry-folder j h);
          };
        },
      )
