-- ===== src/Inserter/Tests/Root.antt =====
-- A root folder that has just been made, with the shell's file stored in it.
use if2230_2023_hexos.Stdmem.Compare.{Agree-of_memcmp}
use if2230_2023_hexos.Fat32.Small.{zeros}
use if2230_2023_hexos.Fat32.Init.{root_name, initialize_filesystem_fat32}
use if2230_2023_hexos.Fat32.Search.{has_name}
use if2230_2023_hexos.Fat32.Write.Folder.{FolderHead, init_directory_table-outside}
use if2230_2023_hexos.Inserter.Boot.{request-IsRequest}
use if2230_2023_hexos.Prelude.{
  bytes_of, ◌<◌, ◌≡◌, refl, inl, inr, false, Bool-cases, [], ◌∷◌, arith,
}
use if2230_2023_hexos.Fat32.{DriverState}
use if2230_2023_hexos.Fat32.Cluster.{byte_of}
use if2230_2023_hexos.Fat32.Search.{is_directory}
use if2230_2023_hexos.Fat32.Read.{is_file_entry, read}
use if2230_2023_hexos.Fat32.Write.{write}
use if2230_2023_hexos.Fat32.Init.Boot.{
  create_fat32_lem, create_fat32-IsSigned, create_fat32-IsSynced, byte_of-create_fat32,
}
use if2230_2023_hexos.Fat32.Directory.{find, Asks}
use if2230_2023_hexos.Fat32.Directory.Answers.{Answer}
use if2230_2023_hexos.Fat32.Directory.Blank.{IsBlank}
use if2230_2023_hexos.Fat32.Directory.Sessions.{
  Session, begin, stores, restarts, read-Session, write-Session,
}
use if2230_2023_hexos.Fat32.Directory.Insertions.{Inserted}
use if2230_2023_hexos.Interrupt.{shell_request}
use if2230_2023_hexos.Inserter.{insert_request}
use if2230_2023_hexos.Inserter.Tests.{blank_state, content, request, formatted, stored}

pub root-IsBlank : IsBlank 2 formatted
unfolding is_directory
root-IsBlank =
    let root : FolderHead root_name 2 (byte_of formatted.disk 2) =
      (create_fat32_lem blank_state).1 in
    record {
      sound = record {
        signed = create_fat32-IsSigned blank_state;
        synced = create_fat32-IsSynced blank_state;
      };
      low = omega arith;
      high = omega arith;
      in_use = λ e. ground (arith, (create_fat32_lem blank_state).0 2);
      folder = ground (arith, root.in_use, root.size);
      zeros = λ x low high. ground (
        arith,
        byte_of-create_fat32 blank_state 2 x high,
        init_directory_table-outside zeros root_name 2 x low,
      );
    }

request_other : is_file_entry request (byte_of formatted.disk 2) 0 ≡ false
unfolding insert_request has_name bytes_of
request_other = elim (Bool-cases (has_name request (byte_of formatted.disk 2) 0)) [
  | inr other ↦ rw other refl
  | inl hit ↦ absurd (
      ground (
        arith,
        Agree-of_memcmp (byte_of formatted.disk 2) 0 shell_request.name 0 8 hit 0,
        (create_fat32_lem blank_state).1.title 0 (omega arith),
      ))
]

request-Asks : Asks 2 formatted.disk request
unfolding insert_request bytes_of
request-Asks = record { parent = refl; named = λ e. ground arith; other = request_other }

request_size : 0 < request.buffer_size
unfolding insert_request
request_size = omega arith

shell_stored : Session 2 formatted stored.0 (request ∷ [])
shell_stored =
    stores request begin
      (request-IsRequest zeros content shell_request.name 3 (omega arith) (λ a l. refl))
      request-Asks request_size stored.1

-- And the next start, with other bytes on the stack.
abbrev pub restarted : DriverState
restarted = initialize_filesystem_fat32 content stored.0

pub shell_restarted : Session 2 formatted restarted (request ∷ [])
shell_restarted = restarts content stored.0 shell_stored refl

read-Session_example :
    Answer request restarted (find request (request ∷ [])) (read request restarted)
unfolding insert_request
read-Session_example =
    read-Session request formatted restarted root-IsBlank shell_restarted request-Asks

write-Session_example :
    Inserted request restarted (find request (request ∷ [])) (write request restarted)
unfolding insert_request
write-Session_example =
    write-Session request formatted restarted root-IsBlank shell_restarted request-Asks
      (request-IsRequest zeros content shell_request.name 3 (omega arith) (λ a l. refl))
      (omega arith)
