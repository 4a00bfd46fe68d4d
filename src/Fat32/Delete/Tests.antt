-- ===== src/Fat32/Delete/Tests.antt =====
-- The theorems on `delete`, at a small disk.
use if2230_2023_hexos.Prelude.{
  ℕ, ◌+◌, ◌^◌, ◌<◌, ◌≡◌, ◌≢◌, true, false, load16, pos, arith, Bool-cases, inl, inr,
}
use if2230_2023_hexos.Stdmem.Compare.{Agree-of_memcmp, memcmp_of_Agree}
use if2230_2023_hexos.Fat32.{DriverState, done, diverges}
use if2230_2023_hexos.Fat32.Layout.{attribute}
use if2230_2023_hexos.Fat32.Cluster.{byte_of, disk_fat}
use if2230_2023_hexos.Fat32.Search.{has_name}
use if2230_2023_hexos.Fat32.Read.{load_parent}
use if2230_2023_hexos.Fat32.Delete.{delete, entry_cluster}
use if2230_2023_hexos.Fat32.Delete.Effect.{Spared, delete_spares_named}
use if2230_2023_hexos.Fat32.Delete.Absent.{delete_first_other}
use if2230_2023_hexos.Fat32.Delete.Endless.{delete-ends, delete-diverges}
use if2230_2023_hexos.Fat32.Small.{
  zeros, small_state, request_for, small_table, small_table_lem, small_table-fine,
}

entry_a-other : has_name (request_for b'b' 0) small_table 1 ≡ false
unfolding has_name
entry_a-other = elim (Bool-cases (has_name (request_for b'b' 0) small_table 1)) [
  | inr miss ↦ miss
  | inl hit ↦ absurd (
      ground (
        arith,
        Agree-of_memcmp small_table 32 (request_for b'b' 0).name 0 8 hit 0,
        small_table_lem 32 (omega arith),
      ))
]

cluster_of_a : entry_cluster small_table 1 < 512
unfolding load16
cluster_of_a = ground (
  arith,
  small_table_lem 52 (omega arith),
  small_table_lem 53 (omega arith),
  small_table_lem 58 (omega arith),
  small_table_lem 59 (omega arith),
)

-- The request is for `b`, which exists; `a` goes.
delete_first_other_example :
    (s' : DriverState) × (delete 256 (request_for b'b' 0) zeros small_state ≡ done (pos 0, s'))
    × ((a : ℕ) → a < 32 → byte_of s'.disk 2 (32 + a) ≡ 0)
    × (disk_fat s'.disk (entry_cluster small_table 1) ≡ 0)
unfolding load_parent
delete_first_other_example =
    delete_first_other 256 (request_for b'b' 0) zeros small_state (small_table-fine b'b' 0)
      entry_a-other cluster_of_a

abbrev state_without_a : DriverState
unfolding load_parent
state_without_a =
    (delete_first_other 256 (request_for b'b' 0) zeros small_state (small_table-fine b'b' 0)
      entry_a-other cluster_of_a).0

without_a : delete 256 (request_for b'b' 0) zeros small_state ≡ done (pos 0, state_without_a)
unfolding load_parent
without_a =
    (delete_first_other 256 (request_for b'b' 0) zeros small_state (small_table-fine b'b' 0)
      entry_a-other cluster_of_a).1

delete_spares_named_example : Spared (request_for b'b' 0) small_state state_without_a
delete_spares_named_example =
    delete_spares_named 256 (request_for b'b' 0) zeros small_state without_a

delete-ends_example : delete 256 (request_for b'a' 4096) zeros small_state ≢ diverges
delete-ends_example =
    delete-ends 256 (request_for b'a' 4096) zeros small_state (omega arith) (omega arith)

entry_a-named : has_name (request_for b'a' (2 ^ 19)) small_table 1 ≡ true
unfolding has_name
entry_a-named =
    memcmp_of_Agree small_table 32 (request_for b'a' (2 ^ 19)).name 0 8
      (λ j _ l. ground (arith, small_table_lem (32 + j) (omega arith)))

entry_a-file : attribute small_table 1 ≢ 0b0001_0000
entry_a-file = ground (arith, small_table_lem 43 (omega arith))

delete-diverges_example : delete 1000 (request_for b'a' (2 ^ 19)) zeros small_state ≡ diverges
unfolding load_parent
delete-diverges_example =
    delete-diverges 1000 (request_for b'a' (2 ^ 19)) zeros small_state
      (small_table-fine b'a' (2 ^ 19)) entry_a-named entry_a-file (omega arith)
