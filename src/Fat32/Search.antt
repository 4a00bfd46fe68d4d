-- ===== src/Fat32/Search.antt =====
-- The helpers of fat32.c that search the FAT and a directory table, and `validateWrite`.
pub mod Laws
use if2230_2023_hexos.Prelude.{
  ℕ, ◌+◌, ◌-◌, Bool, not, ◌&&◌, ◌||◌, ltb, leb, ◌==◌, if◌then◌else◌, Buf, is_zero,
}
use if2230_2023_hexos.Prelude.Scan.{first_index, get_or}
use if2230_2023_hexos.Stdmem.{memcmp}
use if2230_2023_hexos.Fat32.{
  cluster_map_size, entry_count, fat32_fat_empty_entry, uattr_not_empty, DriverRequest,
}
use if2230_2023_hexos.Fat32.Layout.{cluster_map, name_at, ext_at, user_attribute, filesize}

abbrev pub is_empty_cluster : Buf → ℕ → Bool
is_empty_cluster fat i = cluster_map fat i == fat32_fat_empty_entry

-- `findEmptyCluster`
unfoldable pub find_empty_cluster : Buf → ℕ
unfolding first_index
find_empty_cluster fat = get_or (first_index (is_empty_cluster fat) (cluster_map_size - 2) 2) 0

-- `findNextEmptyCluster`
unfoldable pub find_next_empty_cluster : Buf → ℕ → ℕ
unfolding first_index
find_next_empty_cluster fat i =
    if leb cluster_map_size i || ltb i 2
    then 0
    else get_or (first_index (is_empty_cluster fat) (cluster_map_size - (i + 1)) (i + 1)) 0

abbrev pub is_empty_entry : Buf → ℕ → Bool
is_empty_entry entry i = not (user_attribute entry i == uattr_not_empty)

-- `findEmptyEntry`
unfoldable pub find_empty_entry : Buf → ℕ
unfolding first_index
find_empty_entry entry = get_or (first_index (is_empty_entry entry) (entry_count - 1) 1) 0

-- `isDirectory`
unfoldable pub is_directory : Buf → ℕ
is_directory entry =
    if not (user_attribute entry 0 == uattr_not_empty) || not (filesize entry 0 == 0) then 0 else 1

-- `memcmp(entry[i].name, request.name, 8) == 0`
unfoldable pub has_name : DriverRequest → Buf → ℕ → Bool
has_name request entry i = is_zero (memcmp entry (name_at i) request.name 0 8)

-- `memcmp(entry[i].ext, request.ext, 3) == 0`
unfoldable pub has_ext : DriverRequest → Buf → ℕ → Bool
has_ext request entry i = is_zero (memcmp entry (ext_at i) request.ext 0 3)

-- The test in the loop of `isExist`.
unfoldable pub is_same_entry : DriverRequest → Buf → ℕ → Bool
is_same_entry request entry i =
    if request.buffer_size == 0
    then has_name request entry i
    else has_name request entry i && has_ext request entry i

-- `isExist`
unfoldable pub is_exist : DriverRequest → Buf → ℕ
unfolding first_index
is_exist request entry = get_or (first_index (is_same_entry request entry) entry_count 0) 0

-- The check of the parent that the four operations share.
abbrev pub is_bad_parent : DriverRequest → Buf → Bool
is_bad_parent request entry =
    ltb request.parent_cluster_number 2
    || ltb cluster_map_size request.parent_cluster_number
    || (is_directory entry == 0)

-- `validateWrite`
unfoldable pub validate_write : DriverRequest → Buf → ℕ
validate_write request entry =
    if is_bad_parent request entry then 2 else if ltb 0 (is_exist request entry) then 1 else 0
