-- ===== src/Inserter/Tests.antt =====
-- The inserter with a small file and a blank disk, and a start from the disk that it leaves.
mod Root
mod Folder
mod Program
use if2230_2023_hexos.Prelude.{
  ℕ, ◌*◌, ◌≤◌, ◌<◌, ◌≡◌, refl, inl, inr, true, false, Bool-cases, [], ◌∷◌, some, Buf, bytes_of,
  load32, ℤ, pos, Run, done, arith,
}
use if2230_2023_hexos.Stdmem.Compare.{Agree-of_memcmp}
use if2230_2023_hexos.Fat32.{DriverRequest, DriverState}
use if2230_2023_hexos.Fat32.Layout.{cluster_map}
use if2230_2023_hexos.Fat32.Cluster.{byte_of, disk_fat, read_clusters_lem}
use if2230_2023_hexos.Fat32.Search.{has_name, is_same_entry, is_bad_parent, is_directory}
use if2230_2023_hexos.Fat32.Small.{zeros, small_state}
use if2230_2023_hexos.Fat32.Init.{
  fs_signature, is_empty_storage, create_fat32, root_name, initialize_filesystem_fat32,
}
use if2230_2023_hexos.Fat32.Init.Boot.{
  IsSigned-of_not-empty, byte_of-create_fat32, create_fat32_lem, create_fat32-IsSynced,
}
use if2230_2023_hexos.Fat32.Sound.{IsSound}
use if2230_2023_hexos.Fat32.Restart.{Reachable, here, after, writes, restarts, restart-Reachable}
use if2230_2023_hexos.Fat32.Write.{write}
use if2230_2023_hexos.Fat32.Write.Folder.{
  FolderHead, FolderHead-transfer, init_directory_table-outside,
}
use if2230_2023_hexos.Fat32.Write.Outcomes.{
  parent_table, Written, bad_parent, exists, no_room, cut_short, file, folder,
}
use if2230_2023_hexos.Fat32.Write.Call.{write-Written}
use if2230_2023_hexos.Interrupt.{shell_request}
use if2230_2023_hexos.Setup.{System, kernel_setup}
use if2230_2023_hexos.Inserter.{success, insert_request, insert}
use if2230_2023_hexos.Inserter.Boot.{request-IsRequest, root-ParentInUse, kernel_setup-insert}
use if2230_2023_hexos.Tests.{Vga, vga_bus, stubs}
use if2230_2023_hexos.Setup.Tests.{reset}

abbrev pub blank_state : DriverState
blank_state = record {
  fat_table = zeros;
  dir_table_buf = zeros;
  cluster_buf = zeros;
  test = zeros;
  disk = zeros;
}

abbrev pub content : Buf
content = bytes_of (b'h' ∷ b'i' ∷ b'!' ∷ [])

abbrev pub request : DriverRequest
request = insert_request zeros (some (content, 3)) shell_request.name 2

abbrev pub formatted : DriverState
formatted = create_fat32 blank_state

blank_disk : is_empty_storage zeros zeros ≡ true
unfolding fs_signature bytes_of
blank_disk = elim (Bool-cases (is_empty_storage zeros zeros)) [
  | inl blank ↦ blank
  | inr signed ↦ absurd (ground (arith, IsSigned-of_not-empty zeros zeros signed 0))
]

-- The table of the new root folder, behind its own entry.
pub root_free : (x : ℕ) → 32 ≤ x → x < 2048 → parent_table request formatted x ≡ 0
unfolding insert_request
root_free x high l = ground (
  arith,
  read_clusters_lem formatted.dir_table_buf 2 formatted.disk x (omega arith),
  byte_of-create_fat32 blank_state 2 x l,
  init_directory_table-outside zeros root_name 2 x high,
)

pub root_unnamed :
    (i : ℕ) → 0 < i → i < 64 → has_name request (parent_table request formatted) i ≡ false
unfolding insert_request has_name bytes_of
root_unnamed i low l = elim (Bool-cases (has_name request (parent_table request formatted) i)) [
  | inr other ↦ other
  | inl hit ↦ absurd (
      ground (
        arith,
        Agree-of_memcmp (parent_table request formatted) (32 * i) shell_request.name 0 8 hit 0,
        root_free (32 * i) (omega arith) (omega arith),
      ))
]

pub root_head : FolderHead root_name 2 (parent_table request formatted)
unfolding insert_request
root_head =
    FolderHead-transfer
      (λ a l.
        ground (arith, read_clusters_lem formatted.dir_table_buf 2 formatted.disk a (omega arith)))
      (create_fat32_lem blank_state).1

pub root_fine : is_bad_parent request (parent_table request formatted) ≡ false
unfolding insert_request is_directory
root_fine = ground (arith, root_head.in_use, root_head.size)

new_request :
    (i : ℕ) → 0 < i → i < 64 → is_same_entry request (parent_table request formatted) i ≡ false
unfolding is_same_entry insert_request
new_request i low l = rw (root_unnamed i low l) refl

pub cluster_3 : disk_fat formatted.disk 3 ≡ 0
unfolding cluster_map load32
cluster_3 = (create_fat32_lem blank_state).0 3 (omega arith)

-- With all that only the outcome of a stored file is left.
stored_of_Written :
    {r : Run (ℤ × DriverState)}
    → Written request formatted r
    → (s' : DriverState) × (r ≡ done (pos 0, s'))
unfolding insert_request
stored_of_Written (bad_parent bad disk fat) = absurd (cc (bad, root_fine))
stored_of_Written (exists i low high same disk fat) = absurd (cc (same, new_request i low high))
stored_of_Written (no_room (inl used) disk fat _) =
    absurd (used 3 (omega arith) (omega arith) cluster_3)
stored_of_Written (no_room (inr used) disk fat _) =
    absurd
      (ground (arith, used 1 (omega arith) (omega arith), root_free 44 (omega arith) (omega arith)))
stored_of_Written (cut_short c i [] low entry empty few used frame _ _) =
    absurd (used 3 (omega arith) (omega arith) refl cluster_3)
stored_of_Written (cut_short c i (c' ∷ cs) low entry empty few used frame _ _) =
    absurd (omega arith)
stored_of_Written (file {s'} c i cs size entry chain holds empty enough tight frame _) = (s', refl)
stored_of_Written (folder c i size entry head marked stale empty frame _) = absurd (omega arith)

pub stored : (s' : DriverState) × (write request formatted ≡ done (pos 0, s'))
stored = stored_of_Written (
    write-Written request formatted
      (request-IsRequest zeros content shell_request.name 3 (omega arith) (λ a l. refl))
      (root-ParentInUse zeros content shell_request.name 3 (omega arith) (λ a l. refl) blank_state)
      (create_fat32-IsSynced blank_state))

inserted : insert zeros request blank_state ≡ done (success, stored.0)
unfolding insert initialize_filesystem_fat32
inserted = rw (blank_disk, stored.1) refl

-- The kernel behind its reset, with the inserter's image in the drive.
abbrev drive : System Vga
drive = record reset {
  kernel = record (reset.kernel) { files = record small_state { disk = stored.0.disk } };
}

kernel_setup-insert_example :
    (sys' : System Vga) × (kernel_setup vga_bus stubs 0xC012_3456 0xC060_0000 zeros drive
      ≡ done sys')
    × ((a : ℕ) → a < 512 → sys'.kernel.memory a ≡ content a)
kernel_setup-insert_example =
    kernel_setup-insert vga_bus stubs 0xC012_3456 0xC060_0000 zeros zeros zeros content
      shell_request.name 3 blank_state drive blank_disk (omega arith) (omega arith) (λ a l. refl)
      inserted refl

-- The inserter's call, and one more start.
inserter_calls :
    Reachable
      (initialize_filesystem_fat32 zeros blank_state)
      (initialize_filesystem_fat32 content stored.0)
unfolding initialize_filesystem_fat32
inserter_calls =
    after
      (rw blank_disk (
        after here (
          writes request
            (request-IsRequest zeros content shell_request.name 3 (omega arith) (λ a l. refl))
            (root-ParentInUse zeros content shell_request.name 3 (omega arith) (λ a l. refl)
              blank_state)
            stored.1)))
      (restarts content)

restart-Reachable_example :
    let s' = initialize_filesystem_fat32 content stored.0 in
    let t' = initialize_filesystem_fat32 zeros (record blank_state { disk = s'.disk }) in
    IsSound s'
    × (t'.disk ≡ s'.disk)
    × ((j : ℕ) → j < 512 → cluster_map t'.fat_table j ≡ cluster_map s'.fat_table j)
    × ((a : ℕ) → a < 2048 → t'.dir_table_buf a ≡ byte_of s'.disk 2 a)
restart-Reachable_example = restart-Reachable zeros zeros blank_state blank_state inserter_calls
