-- ===== src/Fat32/Init.antt =====
-- `fs_signature`, `is_empty_storage`, `create_fat32` and `initialize_filesystem_fat32` of fat32.c.
pub mod Boot
use if2230_2023_hexos.Prelude.{
  ℕ, Bool, not, ◌==◌, if◌then◌else◌, List, [], ◌∷◌, ◌++◌, Buf, bytes_of, is_zero,
}
use if2230_2023_hexos.Stdmem.{memcmp, memcpy}
use if2230_2023_hexos.Image.{block_size, read_blocks}
use if2230_2023_hexos.Fat32.{
  boot_sector, cluster_0_value, cluster_1_value, fat32_fat_end_of_file, fat_cluster_number,
  root_cluster_number, DriverState,
}
use if2230_2023_hexos.Fat32.Layout.{set_cluster_map}
use if2230_2023_hexos.Fat32.Cluster.{read_clusters, write_clusters}
use if2230_2023_hexos.Fat32.Write.{init_directory_table}

abbrev line_1 : List ℕ
line_1 =
    b'C' ∷ b'o' ∷ b'u' ∷ b'r' ∷ b's' ∷ b'e' ∷ 32 ∷ 32 ∷ 32 ∷ 32 ∷ 32 ∷ 32 ∷ 32 ∷ 32 ∷ 32 ∷ 32 ∷ []

abbrev line_2 : List ℕ
line_2 =
    b'D' ∷ b'e' ∷ b's' ∷ b'i' ∷ b'g' ∷ b'n' ∷ b'e' ∷ b'd' ∷ 32 ∷ b'b' ∷ b'y' ∷ 32 ∷ 32 ∷ 32 ∷ 32
    ∷ 32 ∷ []

abbrev line_3 : List ℕ
line_3 =
    b'L' ∷ b'a' ∷ b'b' ∷ 32 ∷ b'S' ∷ b'i' ∷ b's' ∷ b't' ∷ b'e' ∷ b'r' ∷ 32 ∷ b'I' ∷ b'T' ∷ b'B' ∷ 32
    ∷ 32 ∷ []

abbrev line_4 : List ℕ
line_4 =
    b'M' ∷ b'a' ∷ b'd' ∷ b'e' ∷ 32 ∷ b'w' ∷ b'i' ∷ b't' ∷ b'h' ∷ 32 ∷ b'<' ∷ b'3' ∷ 32 ∷ 32 ∷ 32
    ∷ 32 ∷ []

abbrev line_5 : List ℕ
line_5 =
    b'-' ∷ b'-' ∷ b'-' ∷ b'-' ∷ b'-' ∷ b'-' ∷ b'-' ∷ b'-' ∷ b'-' ∷ b'-' ∷ b'-' ∷ b'2' ∷ b'0' ∷ b'2'
    ∷ b'3' ∷ 10 ∷ []

unfoldable pub fs_signature : Buf
fs_signature x =
    if x == 510
    then b'O'
    else if x == 511
    then b'k'
    else bytes_of (line_1 ++ line_2 ++ line_3 ++ line_4 ++ line_5) x

-- `buf` is the uninitialised local array.
unfoldable pub is_empty_storage : Buf → Buf → Bool
is_empty_storage buf disk =
    not (is_zero (memcmp (read_blocks buf disk boot_sector 1) 0 fs_signature 0 block_size))

-- "root"
abbrev pub root_name : Buf
root_name = bytes_of (b'r' ∷ b'o' ∷ b'o' ∷ b't' ∷ [])

unfoldable pub create_fat32 : DriverState → DriverState
create_fat32 s =
    let cluster_buf = memcpy s.cluster_buf 0 fs_signature 0 block_size in
    let fat = set_cluster_map s.fat_table boot_sector cluster_0_value in
    let fat = set_cluster_map fat fat_cluster_number cluster_1_value in
    let fat = set_cluster_map fat root_cluster_number fat32_fat_end_of_file in
    let table = init_directory_table s.dir_table_buf root_name root_cluster_number in
    let disk = write_clusters cluster_buf boot_sector 1 s.disk in
    let disk = write_clusters fat fat_cluster_number 1 disk in
    let disk = write_clusters table root_cluster_number 1 disk in
    record s { cluster_buf = cluster_buf; fat_table = fat; dir_table_buf = table; disk = disk }

unfoldable pub initialize_filesystem_fat32 : Buf → DriverState → DriverState
initialize_filesystem_fat32 buf s =
    if is_empty_storage buf s.disk then create_fat32 s else record s {
      fat_table = read_clusters s.fat_table fat_cluster_number 1 s.disk;
      dir_table_buf = read_clusters s.dir_table_buf root_cluster_number 1 s.disk;
    }
