-- ===== src/Fat32/Tests.antt =====
-- The theorems on writing and reading, at a small disk.
use if2230_2023_hexos.Prelude.{
  ℕ, ◌*◌, ◌<◌, ◌≡◌, refl, false, ◌==◌, ltb, leb, Buf, load32, ℤ, pos, arith, Bool-cases, inl, inr,
  lt_of_ltb,
}
use if2230_2023_hexos.Stdmem.Compare.{Agree-of_memcmp}
use if2230_2023_hexos.Fat32.{DriverRequest, DriverState, Run, done, fault, diverges}
use if2230_2023_hexos.Fat32.Layout.{cluster_map}
use if2230_2023_hexos.Fat32.Cluster.{byte_of}
use if2230_2023_hexos.Fat32.Search.{
  has_name, is_exist, is_same_entry, find_empty_cluster, find_empty_entry, validate_write,
}
use if2230_2023_hexos.Fat32.Search.Laws.{
  first_empty, none_left, FirstFree, first_free, is_exist-match, find_empty_cluster-FirstEmpty,
  find_empty_entry-FirstFree,
}
use if2230_2023_hexos.Fat32.Roundtrip.{read-write_again}
use if2230_2023_hexos.Fat32.Roundtrip.Table.{SameFile}
use if2230_2023_hexos.Fat32.Read.{is_file_entry, read}
use if2230_2023_hexos.Fat32.Read.Outcomes.{loaded, Unchanged, ReadResult, read-ReadResult}
use if2230_2023_hexos.Fat32.Write.{write, write_found, write_file}
use if2230_2023_hexos.Fat32.Write.Outcomes.{Written}
use if2230_2023_hexos.Fat32.Write.Call.{write-Written}
use if2230_2023_hexos.Fat32.Layout.{filesize}
use if2230_2023_hexos.Fat32.Read.{read_directory}
use if2230_2023_hexos.Fat32.Cluster.{disk_fat}
use if2230_2023_hexos.Fat32.Search.Laws.{FirstFree}
use if2230_2023_hexos.Fat32.Read.Outcomes.{read_directory-ReadResult}
use if2230_2023_hexos.Fat32.Sound.Refused.{write-Unchanged}
use if2230_2023_hexos.Fat32.Write.Ends.{write_file-Outcome}
use if2230_2023_hexos.Fat32.Write.Loop.{Outcome}
use if2230_2023_hexos.Fat32.Small.{
  zeros, small_disk, small_state, request_for, request_for-IsRequest, small_state-ParentInUse,
  small_state-IsSynced, small_state-IsBytes, small_table, small_table_lem, small_table-fine,
}

write-Written_example :
    Written (request_for b'c' 3) small_state (write (request_for b'c' 3) small_state)
write-Written_example =
    write-Written (request_for b'c' 3) small_state (request_for-IsRequest b'c')
      (small_state-ParentInUse b'c') small_state-IsSynced

read-ReadResult_example :
    ReadResult
      (request_for b'b' 512)
      small_state
      (is_file_entry (request_for b'b' 512) (loaded (request_for b'b' 512) small_state))
      (λ i. 512)
      (read (request_for b'b' 512) small_state)
read-ReadResult_example =
    read-ReadResult (request_for b'b' 512) small_state (small_state-IsBytes b'b' 512)

no_c : (i : ℕ) → i < 64 → has_name (request_for b'c' 3) small_table i ≡ false
unfolding has_name
no_c i l = elim (Bool-cases (has_name (request_for b'c' 3) small_table i)) [
  | inr miss ↦ miss
  | inl hit ↦ absurd (
      ground (
        arith,
        Agree-of_memcmp small_table (32 * i) (request_for b'c' 3).name 0 8 hit 0,
        small_table_lem (32 * i) (omega arith),
      ))
]

new_c : ltb 0 (is_exist (request_for b'c' 3) small_table) ≡ false
unfolding is_same_entry
new_c = elim (Bool-cases (ltb 0 (is_exist (request_for b'c' 3) small_table))) [
  | inr new ↦ new
  | inl old ↦
      let (bound, same) = is_exist-match (request_for b'c' 3) small_table (lt_of_ltb _ _ old) in
      absurd (ground (arith, no_c (is_exist (request_for b'c' 3) small_table) bound, same))
]

room : (find_empty_cluster (byte_of small_disk 1) == 0) ≡ false
unfolding cluster_map load32
room = elim (find_empty_cluster-FirstEmpty (byte_of small_disk 1)) [
  | first_empty low high empty before ↦ ground arith
  | none_left e used ↦ absurd (used 5 (omega arith) (omega arith) refl)
]

in_map : leb 512 (find_empty_cluster (byte_of small_disk 1)) ≡ false
in_map = elim (find_empty_cluster-FirstEmpty (byte_of small_disk 1)) [
  | first_empty low high empty before ↦ ground arith
  | none_left e used ↦ ground arith
]

place : (find_empty_entry small_table == 0) ≡ false
place = elim (find_empty_entry-FirstFree small_table) [
  | first_free low high free before ↦ ground arith
  | FirstFree.none_left e used ↦
      absurd (ground (arith, used 3 (omega arith) (omega arith), small_table_lem 108 (omega arith)))
]

not_root : is_file_entry (request_for b'c' 3) small_table 0 ≡ false
not_root = ground (arith, no_c 0 (omega arith))

abbrev state_of : Run (ℤ × DriverState) → DriverState
state_of (done (code, s)) = s
state_of fault = small_state
state_of diverges = small_state

abbrev state_with_c : DriverState
state_with_c = state_of (write (request_for b'c' 3) small_state)

written : write (request_for b'c' 3) small_state ≡ done (pos 0, state_with_c)
unfolding write validate_write write_found write_file
written = rw (small_table-fine b'c' 3, new_c, room, place, in_map) refl

-- A request for the same file, with zeros in its buffer.
abbrev empty_handed : DriverRequest
empty_handed = record (request_for b'c' 512) { buf = zeros }

same_file : SameFile (request_for b'c' 3) empty_handed
same_file = record { parent = refl; name = λ a l. refl; ext = λ a l. refl; enough = omega arith }

-- The driver has forgotten its buffers.
abbrev restarted : DriverState
restarted = record state_with_c { cluster_buf = zeros; dir_table_buf = zeros }

read-write_again_example :
    (out : Buf) × (t' : DriverState) × (read empty_handed restarted ≡ done (pos 0, out, t'))
    × ((a : ℕ) → a < 512 → out a ≡ (request_for b'c' 3).buf a)
read-write_again_example =
    read-write_again (request_for b'c' 3) empty_handed small_state restarted
      (request_for-IsRequest b'c') (small_state-ParentInUse b'c') small_state-IsSynced (omega arith)
      not_root written same_file refl

read_directory-ReadResult_example :
    ReadResult
      (request_for b'a' 2048)
      small_state
      (has_name (request_for b'a' 2048) (loaded (request_for b'a' 2048) small_state))
      (λ i. filesize (loaded (request_for b'a' 2048) small_state) i)
      (read_directory (request_for b'a' 2048) small_state)
read_directory-ReadResult_example =
    read_directory-ReadResult (request_for b'a' 2048) small_state (small_state-IsBytes b'a' 2048)

empty_5 : disk_fat small_disk 5 ≡ 0
unfolding cluster_map load32
empty_5 = refl

write_file-Outcome_example :
    Outcome
      (request_for b'c' 3000)
      5
      3000
      0
      small_state
      (write_file 3000 (request_for b'c' 3000) 5 3000 0 small_state)
write_file-Outcome_example =
    write_file-Outcome 3000 (request_for b'c' 3000) 5 3000 0 small_state (omega arith) (omega arith)
      (omega arith) (omega arith) empty_5 (omega arith)

-- A folder in a cluster that no directory has.
abbrev nowhere : DriverRequest
nowhere = record (request_for b'c' 0) { parent_cluster_number = 0 }

abbrev state_refused : DriverState
state_refused = state_of (write nowhere small_state)

refused : write nowhere small_state ≡ done (pos 2, state_refused)
unfolding write validate_write
refused = refl

write-Unchanged_example : Unchanged small_state state_refused
write-Unchanged_example = write-Unchanged nowhere small_state refused
