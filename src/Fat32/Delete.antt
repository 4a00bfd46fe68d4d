-- ===== src/Fat32/Delete.antt =====
-- `delete` of fat32.c. `stack` is what the memory from `&temp` on holds: the code writes a whole
-- cluster from there. The loop over the FAT has an `uint8_t` counter, so it runs on fuel.
pub mod Effect
pub mod Absent
pub mod Endless
mod Tests
use if2230_2023_hexos.Prelude.{
  ℕ, zero, suc, ◌+◌, ◌-◌, ◌*◌, ◌/◌, ◌%◌, ◌^◌, Bool, true, false, not, ltb, leb, ◌==◌, if◌then◌else◌,
  Option, none, some, Buf, store32, ℤ, pos, minus_one,
}
use if2230_2023_hexos.Prelude.Scan.{first_index}
use if2230_2023_hexos.Stdmem.{memset}
use if2230_2023_hexos.Fat32.{
  cluster_size, cluster_map_size, entry_count, fat_cluster_number, attr_subdirectory, DriverRequest,
  DriverState, Run, done, fault, diverges,
}
use if2230_2023_hexos.Fat32.Layout.{
  entry_size, attribute, user_attribute, cluster_low, cluster_high, set_user_attribute, cluster_map,
  set_cluster_map,
}
use if2230_2023_hexos.Fat32.Cluster.{read_clusters, write_clusters}
use if2230_2023_hexos.Fat32.Search.{has_name, is_bad_parent}
use if2230_2023_hexos.Fat32.Read.{load_parent}

-- `cluster_high << 16 | cluster_low`
abbrev pub entry_cluster : Buf → ℕ → ℕ
entry_cluster table i = cluster_high table i * 2 ^ 16 + cluster_low table i

-- One round of the loop over the FAT: `write_clusters(&temp, ...)` writes what `&temp` leads to.
unfoldable pub clear_round : DriverRequest → Buf → ℕ → DriverState → DriverState
clear_round request stack k s =
    let temp = cluster_map s.fat_table k in
    record s {
      fat_table = set_cluster_map s.fat_table k 0;
      disk = write_clusters (store32 stack 0 temp) request.parent_cluster_number 1 s.disk;
    }

-- `for (uint8_t k = 1; k < (request.buffer_size/CLUSTER_SIZE); k++)`
unfoldable pub clear_loop : ℕ → DriverRequest → Buf → ℕ → DriverState → Run DriverState
clear_loop zero request stack k s = diverges
clear_loop (suc fuel) request stack k s =
    let rest = clear_loop fuel request stack ((k + 1) % 256) (clear_round request stack k s) in
    if ltb k (request.buffer_size / cluster_size) then rest else done s

-- The loop over `j`: the first entry from 1 on whose `user_attribute` is not 0.
unfoldable pub first_child : Buf → Option ℕ
unfolding first_index
first_child table = first_index (λ j. not (user_attribute table j == 0)) (entry_count - 1) 1

-- What `continue` leads to, or the value returned.
pub data Next : Type 0 where
  go_on : DriverState → Next
  return : ℤ → DriverState → Next
  stuck : Next
  out_of_bounds : Next

abbrev pub continue_with : Run DriverState → Next
continue_with (done s) = go_on s
continue_with fault = out_of_bounds
continue_with diverges = stuck

abbrev pub return_if_child : Option ℕ → DriverState → Next
return_if_child none s = go_on s
return_if_child (some j) s = return (pos 2) s

abbrev pub proceed : Next → (DriverState → Run (ℤ × DriverState)) → Run (ℤ × DriverState)
proceed (go_on s) rest = rest s
proceed (return code s) rest = done (code, s)
proceed stuck rest = diverges
proceed out_of_bounds rest = fault

-- The body of `if (memcmp(...) == 0)`, which ends in `continue`.
unfoldable pub visit_named : ℕ → DriverRequest → Buf → ℕ → DriverState → Next
visit_named fuel request stack i s =
    if attribute s.dir_table_buf i == attr_subdirectory
    then (let children = read_clusters s.test (entry_cluster s.dir_table_buf i) 1 s.disk in
        return_if_child (first_child children) (record s { test = children }))
    else continue_with (clear_loop fuel request stack 1 s)

-- The statements behind that `if`, reached by an entry of another name.
unfoldable pub remove_entry : DriverRequest → ℕ → DriverState → Run (ℤ × DriverState)
remove_entry request i s =
    let cluster_number = entry_cluster s.dir_table_buf i in
    let table = set_user_attribute s.dir_table_buf i 0 in
    let table = memset table (entry_size * i) 0 entry_size in
    let fat = set_cluster_map s.fat_table cluster_number 0 in
    let disk = write_clusters fat fat_cluster_number 1 s.disk in
    if leb cluster_map_size cluster_number
    then fault
    else done (
      pos 0,
      record s {
        dir_table_buf = table;
        fat_table = fat;
        disk = write_clusters table request.parent_cluster_number 1 disk;
      },
    )

-- The loop over the entries, `k` rounds from `i` on.
unfoldable pub delete_loop : ℕ → ℕ → DriverRequest → Buf → ℕ → DriverState → Run (ℤ × DriverState)
delete_loop zero fuel request stack i s = done (pos 1, s)
delete_loop (suc k) fuel request stack i s =
    if has_name request s.dir_table_buf i
    then proceed (visit_named fuel request stack i s) (delete_loop k fuel request stack (i + 1))
    else remove_entry request i s

-- `delete`
unfoldable pub delete : ℕ → DriverRequest → Buf → DriverState → Run (ℤ × DriverState)
delete fuel request stack s =
    let t = load_parent request s in
    if is_bad_parent request t.dir_table_buf
    then done (minus_one, t)
    else delete_loop (entry_count - 1) fuel request stack 1 t
