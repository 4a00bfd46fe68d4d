-- ===== src/Fat32.antt =====
-- filesystem/fat32.h and fat32.c: constants, the driver's state and requests. The directory tables,
-- the FAT and the cluster buffer are byte buffers, laid out as the packed structs (Fat32/Layout);
-- the disk is the byte image of Image.antt.
pub mod Layout
pub mod Cluster
pub mod Search
pub mod Write
pub mod Read
pub mod Delete
pub mod Init
pub mod Roundtrip
pub mod Sound
pub mod Restart
pub mod Directory
pub mod Small
mod Tests
pub use if2230_2023_hexos.Prelude.{Run, done, fault, diverges}
use if2230_2023_hexos.Prelude.{ℕ, ◌^◌, ◌<◌, Buf}

abbrev pub boot_sector : ℕ
boot_sector = 0

abbrev pub cluster_block_count : ℕ
cluster_block_count = 4

abbrev pub cluster_size : ℕ
cluster_size = 2048

abbrev pub cluster_map_size : ℕ
cluster_map_size = 512

-- `CLUSTER_SIZE / sizeof(struct FAT32DirectoryEntry)`
abbrev pub entry_count : ℕ
entry_count = 64

abbrev pub cluster_0_value : ℕ
cluster_0_value = 0x0FFF_FFF0

abbrev pub cluster_1_value : ℕ
cluster_1_value = 0x0FFF_FFFF

abbrev pub fat32_fat_end_of_file : ℕ
fat32_fat_end_of_file = 0x0FFF_FFFF

abbrev pub fat32_fat_empty_entry : ℕ
fat32_fat_empty_entry = 0

abbrev pub fat_cluster_number : ℕ
fat_cluster_number = 1

abbrev pub root_cluster_number : ℕ
root_cluster_number = 2

abbrev pub attr_subdirectory : ℕ
attr_subdirectory = 0b0001_0000

abbrev pub uattr_not_empty : ℕ
uattr_not_empty = 0b1010_1010

-- `struct FAT32DriverRequest`. `buf` is what the pointer leads to, `name` and `ext` the two arrays.
pub record DriverRequest : Type 0 where
  pub buf : Buf
  pub name : Buf
  pub ext : Buf
  pub parent_cluster_number : ℕ
  pub buffer_size : ℕ

-- `fat_state` (`struct FAT32DriverState`), the static table `test`, and the disk.
pub record DriverState : Type 0 where
  pub fat_table : Buf
  pub dir_table_buf : Buf
  pub cluster_buf : Buf
  pub test : Buf
  pub disk : Buf

-- The widths that the C types give to the numbers of a request.
pub record IsRequest (r : DriverRequest) : Type 0 where
  pub parent_width : r.parent_cluster_number < 2 ^ 32
  pub size_width : r.buffer_size < 2 ^ 32
