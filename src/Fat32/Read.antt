-- ===== src/Fat32/Read.antt =====
-- `read_directory`, `read` and `get_dir_name` of fat32.c. The middle result is what the caller's
-- buffer holds afterwards.
pub mod Outcomes
pub mod Bounds
use if2230_2023_hexos.Prelude.{
  ℕ, ◌&&◌, Bool, ltb, if◌then◌else◌, Buf, ℤ, pos, minus_one, Option, none, some,
}
use if2230_2023_hexos.Prelude.Scan.{first_index}
use if2230_2023_hexos.Stdmem.{memcpy}
use if2230_2023_hexos.Image.{block_size}
use if2230_2023_hexos.Fat32.{
  cluster_size, entry_count, DriverRequest, DriverState, Run, done, fault,
}
use if2230_2023_hexos.Fat32.Layout.{cluster_low, filesize}
use if2230_2023_hexos.Fat32.Cluster.{read_clusters}
use if2230_2023_hexos.Fat32.Search.{has_name, has_ext, is_bad_parent}

-- `read_clusters(&fat_state.dir_table_buf, parent, 1)`, the first step of each operation.
unfoldable pub load_parent : DriverRequest → DriverState → DriverState
load_parent request s = record s {
  dir_table_buf = read_clusters s.dir_table_buf request.parent_cluster_number 1 s.disk;
}

-- The first cluster of entry `i`, of which `count` bytes go to the caller.
unfoldable pub copy_entry : DriverRequest → ℕ → ℕ → DriverState → Run (ℤ × Buf × DriverState)
copy_entry request i count s =
    let cluster_buf = read_clusters s.cluster_buf (cluster_low s.dir_table_buf i) 1 s.disk in
    if ltb cluster_size count
    then fault
    else done
        (pos 0, memcpy request.buf 0 cluster_buf 0 count, record s { cluster_buf = cluster_buf })

-- What follows the loop over the entries.
unfoldable pub read_found :
    DriverRequest → Option ℕ → (ℕ → ℕ) → DriverState → Run (ℤ × Buf × DriverState)
read_found request none count s = done (pos 3, request.buf, s)
read_found request (some i) count s =
    if ltb request.buffer_size (filesize s.dir_table_buf i)
    then done (pos 2, request.buf, s)
    else copy_entry request i (count i) s

unfoldable pub read_directory : DriverRequest → DriverState → Run (ℤ × Buf × DriverState)
read_directory request s =
    let t = load_parent request s in
    if is_bad_parent request t.dir_table_buf
    then done (minus_one, request.buf, t)
    else read_found request (first_index (has_name request t.dir_table_buf) entry_count 0)
        (λ i. filesize t.dir_table_buf i) t

-- The test in the loop of `read`.
abbrev pub is_file_entry : DriverRequest → Buf → ℕ → Bool
is_file_entry request entry i = has_name request entry i && has_ext request entry i

unfoldable pub read : DriverRequest → DriverState → Run (ℤ × Buf × DriverState)
read request s =
    let t = load_parent request s in
    if is_bad_parent request t.dir_table_buf
    then done (minus_one, request.buf, t)
    else read_found request (first_index (is_file_entry request t.dir_table_buf) entry_count 0)
        (λ i. block_size) t

-- The name is the first eight bytes of the table that is returned.
unfoldable pub get_dir_name : ℕ → DriverState → Buf × DriverState
get_dir_name cluster_number s =
    let table = read_clusters s.dir_table_buf cluster_number 1 s.disk in
    (table, record s { dir_table_buf = table })
