-- ===== src/Fat32/Write.antt =====
-- `init_directory_table`, `writeEntry` and `write` of fat32.c. `write` runs its loop on fuel; one
-- round writes a cluster, and `buffer_size` is the number of rounds given.
pub mod Round
pub mod Chain
pub mod Loop
pub mod Ends
pub mod Entry
pub mod Folder
pub mod Outcomes
pub mod Parent
pub mod Call
use if2230_2023_hexos.Prelude.{
  ℕ, zero, suc, ◌+◌, ◌-◌, ◌*◌, ◌/◌, ◌%◌, ◌^◌, ◌||◌, not, ltb, leb, ◌==◌, if◌then◌else◌, Buf, ℤ, pos,
  minus_one,
}
use if2230_2023_hexos.Stdmem.{memcpy}
use if2230_2023_hexos.Fat32.{
  cluster_size, cluster_map_size, fat32_fat_end_of_file, fat_cluster_number, attr_subdirectory,
  uattr_not_empty, DriverRequest, DriverState, Run, done, fault, diverges,
}
use if2230_2023_hexos.Fat32.Layout.{
  name_at, ext_at, set_attribute, set_user_attribute, set_cluster_high, set_cluster_low,
  set_filesize, set_cluster_map,
}
use if2230_2023_hexos.Fat32.Cluster.{read_clusters, write_clusters}
use if2230_2023_hexos.Fat32.Search.{
  find_empty_cluster, find_next_empty_cluster, find_empty_entry, validate_write,
}

unfoldable pub init_directory_table : Buf → Buf → ℕ → Buf
init_directory_table dir_table name parent_dir_cluster =
    let t = memcpy dir_table (name_at 0) name 0 8 in
    let t = set_attribute t 0 attr_subdirectory in
    let t = set_user_attribute t 0 uattr_not_empty in
    let t = set_cluster_low t 0 (parent_dir_cluster / 2 ^ 16 % 2 ^ 16) in
    let t = set_cluster_high t 0 (parent_dir_cluster % 2 ^ 16) in set_filesize t 0 0

-- `writeEntry`
unfoldable pub write_entry : DriverRequest → Buf → ℕ → ℕ → Buf
write_entry request entry cluster_number i =
    let t = memcpy entry (name_at i) request.name 0 8 in
    let t = set_user_attribute t i uattr_not_empty in
    let t = set_cluster_low t i (cluster_number % 2 ^ 16) in
    let t = set_cluster_high t i (cluster_number / 2 ^ 16 % 2 ^ 16) in
    let t = set_filesize t i request.buffer_size in
    if request.buffer_size == 0
    then set_attribute t i attr_subdirectory
    else memcpy (set_attribute t i 0) (ext_at i) request.ext 0 3

-- The branch for a folder, behind the writing of the entry.
unfoldable pub write_folder : DriverRequest → ℕ → DriverState → Run (ℤ × DriverState)
write_folder request cluster_number s =
    let table =
      init_directory_table (read_clusters s.dir_table_buf cluster_number 1 s.disk) request.name
        request.parent_cluster_number in
    let fat = set_cluster_map s.fat_table cluster_number fat32_fat_end_of_file in
    let disk = write_clusters table cluster_number 1 s.disk in
    if ltb cluster_number cluster_map_size
    then done (
      pos 0,
      record s {
        dir_table_buf = table;
        fat_table = fat;
        disk = write_clusters fat fat_cluster_number 1 disk;
      },
    )
    else fault

-- The first half of a round: the cluster's bytes go to the disk, and the FAT is read back.
unfoldable pub write_chunk : DriverRequest → ℕ → ℕ → DriverState → DriverState
write_chunk request temp_cluster n s =
    let offset = n * cluster_size % 2 ^ 32 in
    let cluster_buf = read_clusters s.cluster_buf temp_cluster 1 s.disk in
    let cluster_buf = memcpy cluster_buf 0 request.buf offset cluster_size in
    let disk = write_clusters cluster_buf temp_cluster 1 s.disk in
    record s {
      cluster_buf = cluster_buf;
      disk = disk;
      fat_table = read_clusters s.fat_table fat_cluster_number 1 disk;
    }

-- `cluster_map[i] = v`, and the FAT goes to the disk.
unfoldable pub save_fat : ℕ → ℕ → DriverState → DriverState
save_fat i v s =
    let fat = set_cluster_map s.fat_table i v in
    record s { fat_table = fat; disk = write_clusters fat fat_cluster_number 1 s.disk }

-- The `while` loop and the write behind it.
unfoldable pub write_file : ℕ → DriverRequest → ℕ → ℕ → ℕ → DriverState → Run (ℤ × DriverState)
write_file zero request cluster_number remaining_bytes n s = diverges
write_file (suc fuel) request temp_cluster remaining_bytes n s =
    let t = write_chunk request temp_cluster n s in
    let cluster_number = find_next_empty_cluster t.fat_table temp_cluster in
    let rest =
      write_file fuel request cluster_number (remaining_bytes - cluster_size) (n + 1)
        (save_fat temp_cluster cluster_number t) in
    if remaining_bytes == 0
    then done (pos 0, record s { disk = write_clusters s.fat_table fat_cluster_number 1 s.disk })
    else if leb cluster_map_size temp_cluster
    then fault
    else if leb remaining_bytes cluster_size
    then done (pos 0, save_fat temp_cluster fat32_fat_end_of_file t)
    else if cluster_number == 0
    then done (minus_one, t)
    else rest

-- What follows the search for a free cluster and entry.
unfoldable pub write_found : DriverRequest → ℕ → ℕ → DriverState → Run (ℤ × DriverState)
write_found request cluster_number entry_number s =
    let table = write_entry request s.dir_table_buf cluster_number entry_number in
    let t = record s {
      dir_table_buf = table;
      disk = write_clusters table request.parent_cluster_number 1 s.disk;
    } in
    if request.buffer_size == 0
    then write_folder request cluster_number t
    else write_file request.buffer_size request cluster_number request.buffer_size 0 t

-- `write`
unfoldable pub write : DriverRequest → DriverState → Run (ℤ × DriverState)
write request s =
    let table = read_clusters s.dir_table_buf request.parent_cluster_number 1 s.disk in
    let t = record s { dir_table_buf = table } in
    let val = validate_write request table in
    let cluster_number = find_empty_cluster s.fat_table in
    let entry_number = find_empty_entry table in
    if not (val == 0)
    then done (pos val, t)
    else if (cluster_number == 0) || (entry_number == 0)
    then done (minus_one, t)
    else write_found request cluster_number entry_number t
