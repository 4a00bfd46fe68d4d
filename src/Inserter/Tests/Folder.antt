-- ===== src/Inserter/Tests/Folder.antt =====
-- A folder in the root folder of a new disk.
use if2230_2023_hexos.Prelude.{
  ℕ, ◌≤◌, ◌<◌, ◌≡◌, refl, inl, inr, false, Bool-cases, bytes_of, ℤ, pos, Run, done, arith,
}
use if2230_2023_hexos.Stdmem.Compare.{Agree-of_memcmp}
use if2230_2023_hexos.Fat32.{DriverRequest, DriverState, IsRequest}
use if2230_2023_hexos.Fat32.Cluster.{byte_of, disk_fat}
use if2230_2023_hexos.Fat32.Small.{zeros}
use if2230_2023_hexos.Fat32.Search.{has_name, is_same_entry}
use if2230_2023_hexos.Fat32.Init.Boot.{
  byte_of-create_fat32, create_fat32-IsSigned, create_fat32-IsSynced, create_fat32_lem,
}
use if2230_2023_hexos.Fat32.Read.{read_directory}
use if2230_2023_hexos.Fat32.Read.Outcomes.{Unchanged}
use if2230_2023_hexos.Fat32.Sound.{IsSound}
use if2230_2023_hexos.Fat32.Init.{root_name}
use if2230_2023_hexos.Fat32.Write.Folder.{init_directory_table-outside}
use if2230_2023_hexos.Fat32.Write.{write}
use if2230_2023_hexos.Fat32.Write.Outcomes.{
  parent_table, ParentInUse, EntryAdded, Written, bad_parent, exists, no_room, cut_short, file,
  folder,
}
use if2230_2023_hexos.Fat32.Write.Call.{write-Written}
use if2230_2023_hexos.Fat32.Roundtrip.Table.{SameFile-refl}
use if2230_2023_hexos.Fat32.Directory.Blank.{IsBlank}
use if2230_2023_hexos.Fat32.Directory.Folders.{write-IsBlank, read_directory-write}
use if2230_2023_hexos.Interrupt.{shell_request}
use if2230_2023_hexos.Inserter.{insert_request}
use if2230_2023_hexos.Inserter.Tests.{
  blank_state, request, formatted, root_free, root_fine, root_unnamed, root_head, cluster_3,
}

-- A folder of the shell's name.
abbrev folder_request : DriverRequest
folder_request = record request { buffer_size = 0 }

folder_request-IsRequest : IsRequest folder_request
unfolding insert_request
folder_request-IsRequest = record { parent_width = omega arith; size_width = omega arith }

formatted-IsSound : IsSound formatted
formatted-IsSound = record {
  signed = create_fat32-IsSigned blank_state;
  synced = create_fat32-IsSynced blank_state;
}

root_in_use : ParentInUse folder_request formatted
unfolding insert_request
root_in_use l e = ground (arith, (create_fat32_lem blank_state).0 2)

new_folder :
    (i : ℕ)
    → 0 < i
    → i < 64
    → is_same_entry folder_request (parent_table request formatted) i ≡ false
unfolding is_same_entry insert_request has_name
new_folder i low l = root_unnamed i low l

made_of_Written :
    {r : Run (ℤ × DriverState)}
    → Written folder_request formatted r
    → (s' : DriverState) × (r ≡ done (pos 0, s'))
unfolding insert_request
made_of_Written (bad_parent bad disk fat) = absurd (cc (bad, root_fine))
made_of_Written (exists i low high same disk fat) = absurd (cc (same, new_folder i low high))
made_of_Written (no_room (inl used) disk fat _) =
    absurd (used 3 (omega arith) (omega arith) cluster_3)
made_of_Written (no_room (inr used) disk fat _) =
    absurd
      (ground (arith, used 1 (omega arith) (omega arith), root_free 44 (omega arith) (omega arith)))
made_of_Written (cut_short c i cs low entry empty few used frame _ _) = absurd (omega arith)
made_of_Written (file c i cs size entry chain holds empty enough tight frame _) =
    absurd (omega arith)
made_of_Written (folder {s'} c i size entry head marked stale empty frame _) = (s', refl)

made : (s' : DriverState) × (write folder_request formatted ≡ done (pos 0, s'))
made = made_of_Written (
    write-Written folder_request formatted folder_request-IsRequest root_in_use
      formatted-IsSound.synced)

-- The rest of the disk is as blank as it was.
clean_disk :
    (e a : ℕ)
    → 2 ≤ e
    → e < 512
    → disk_fat formatted.disk e ≡ 0
    → 32 ≤ a
    → a < 2048
    → byte_of formatted.disk e a ≡ 0
clean_disk e a low high empty behind l = ground (
  arith,
  byte_of-create_fat32 blank_state e a l,
  init_directory_table-outside zeros root_name 2 a behind,
)

write-IsBlank_example :
    (c i : ℕ) × (disk_fat formatted.disk c ≡ 0)
    × EntryAdded folder_request c i formatted made.0
    × IsBlank c made.0
write-IsBlank_example =
    write-IsBlank folder_request formatted folder_request-IsRequest root_in_use formatted-IsSound
      refl clean_disk made.1

folder_other : has_name folder_request (parent_table folder_request formatted) 0 ≡ false
unfolding insert_request has_name bytes_of
folder_other = elim (Bool-cases (has_name folder_request (parent_table request formatted) 0)) [
  | inr other ↦ other
  | inl hit ↦ absurd (
      ground (
        arith,
        Agree-of_memcmp (parent_table request formatted) 0 shell_request.name 0 8 hit 0,
        root_head.title 0 (omega arith),
      ))
]

read_directory-write_example :
    (t' : DriverState) × (read_directory folder_request made.0
      ≡ done (pos 0, folder_request.buf, t'))
    × Unchanged made.0 t'
read_directory-write_example =
    read_directory-write folder_request folder_request formatted made.0 folder_request-IsRequest
      root_in_use formatted-IsSound refl folder_other made.1 (SameFile-refl folder_request) refl
