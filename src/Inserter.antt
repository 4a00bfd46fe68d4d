-- ===== src/Inserter.antt =====
-- external-inserter.c: `main`. The files of the host and the parsed arguments are parameters: the
-- image is the disk of the driver's state, and what `sscanf` gives are `name` and `parent`.
pub mod Boot
mod Tests
use if2230_2023_hexos.Prelude.{
  ℕ, zero, suc, ◌%◌, ◌^◌, Option, none, some, Buf, ℤ, pos, negsuc, Run, done, ◌>>=◌,
}
use if2230_2023_hexos.Fat32.{DriverRequest, DriverState}
use if2230_2023_hexos.Fat32.Init.{initialize_filesystem_fat32}
use if2230_2023_hexos.Fat32.Write.{write}

-- The four texts that `main` ends with.
pub data Message : Type 0 where
  success name_exists invalid_parent unknown_error : Message

abbrev pub message_of : ℤ → Message
message_of (pos zero) = success
message_of (pos (suc zero)) = name_exists
message_of (pos (suc (suc zero))) = invalid_parent
message_of (pos (suc (suc (suc n)))) = unknown_error
message_of (negsuc n) = unknown_error

-- The target file, if it could be opened, as the content of `file_buffer` and its length.
abbrev pub filesize_of : Option (Buf × ℕ) → ℕ
filesize_of none = 0
filesize_of (some (bytes, size)) = size

abbrev pub file_buffer_of : Buf → Option (Buf × ℕ) → Buf
file_buffer_of file_buffer none = file_buffer
file_buffer_of file_buffer (some (bytes, size)) = bytes

-- The request of `main`; `file_buffer` is what `malloc` returned. `buffer_size` is an `uint32_t`.
unfoldable pub insert_request : Buf → Option (Buf × ℕ) → Buf → ℕ → DriverRequest
insert_request file_buffer target name parent = record {
  buf = file_buffer_of file_buffer target;
  name = name;
  ext = λ a. 0;
  parent_cluster_number = parent;
  buffer_size = filesize_of target % 2 ^ 32;
}

-- `main` behind the opening of the files; `buf` is the uninitialised array of `is_empty_storage`.
unfoldable pub insert : Buf → DriverRequest → DriverState → Run (Message × DriverState)
insert buf request s = do
  (code, s') ← write request (initialize_filesystem_fat32 buf s)
  done (message_of code, s')
