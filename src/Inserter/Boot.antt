-- ===== src/Inserter/Boot.antt =====
-- external-inserter.c and kernel.c: a file that the inserter puts on a new disk, and the kernel's start.
use if2230_2023_hexos.Prelude.{
  ℕ, zero, suc, ◌^◌, ◌≤◌, ◌<◌, ◌≡◌, refl, sym, ap, ◌∙◌, inl, inr, true, false, Bool-cases, some,
  Buf, bytes_of, ℤ, pos, negsuc, Run, done, fault, diverges, ◌>>=◌, arith,
}
use mathlib.Core.Path.{subst}
use if2230_2023_hexos.Stdmem.Compare.{Agree-of_memcmp}
use if2230_2023_hexos.Ports.{Bus}
use if2230_2023_hexos.Fat32.{DriverRequest, DriverState, IsRequest}
use if2230_2023_hexos.Fat32.Cluster.{read_clusters_lem}
use if2230_2023_hexos.Fat32.Search.{has_name}
use if2230_2023_hexos.Fat32.Init.{is_empty_storage, create_fat32, initialize_filesystem_fat32}
use if2230_2023_hexos.Fat32.Init.Boot.{
  IsSigned, create_fat32_lem, create_fat32-IsSigned, create_fat32-IsSynced, initialize-formatted,
}
use if2230_2023_hexos.Fat32.Read.{is_file_entry, read}
use if2230_2023_hexos.Fat32.Write.{write}
use if2230_2023_hexos.Fat32.Write.Outcomes.{parent_table, ParentInUse}
use if2230_2023_hexos.Fat32.Sound.{IsSound}
use if2230_2023_hexos.Fat32.Sound.Writing.{write-IsSound}
use if2230_2023_hexos.Fat32.Roundtrip.Table.{SameFile}
use if2230_2023_hexos.Fat32.Roundtrip.{read-write_again}
use if2230_2023_hexos.Interrupt.{set_tss_kernel_current_stack, shell_request}
use if2230_2023_hexos.Setup.{System, initialize_all, load_shell, kernel_setup}
use if2230_2023_hexos.Inserter.{Message, success, message_of, insert_request, insert}

-- Only the code 0 makes `main` end with its first text.
code_of_success :
    {r : Run (ℤ × DriverState)} {s' : DriverState}
    → ◌>>=◌ {B = Message × DriverState} r (λ (code, s'). done (message_of code, s'))
      ≡ done (success, s')
    → r ≡ done (pos 0, s')
code_of_success {r = done (pos zero, u)} e = cc
code_of_success {r = done (pos (suc zero), u)} e = cc
code_of_success {r = done (pos (suc (suc zero)), u)} e = cc
code_of_success {r = done (pos (suc (suc (suc n))), u)} e = cc
code_of_success {r = done (negsuc n, u)} e = cc
code_of_success {r = fault} e = cc
code_of_success {r = diverges} e = cc

module _ (file_buffer bytes name : Buf) (size : ℕ) (small : size ≤ 2 ^ 20)
    (shell : (a : ℕ) → a < 8 → name a ≡ shell_request.name a) where
  abbrev request : DriverRequest
  request = insert_request file_buffer (some (bytes, size)) name 2

  pub request-IsRequest : IsRequest request
  unfolding insert_request
  request-IsRequest = record { parent_width = omega arith; size_width = omega arith }

  request-SameFile : (memory : Buf) → SameFile request (record shell_request { buf = memory })
  unfolding insert_request
  request-SameFile memory = record {
    parent = refl;
    name = λ a l. sym (shell a l);
    ext = λ a l. refl;
    enough = omega arith;
  }

  module _ (s : DriverState) where
    -- The root folder that `create_fat32` makes is in use, and it is no file `shell`.
    pub root-ParentInUse : ParentInUse request (create_fat32 s)
    unfolding insert_request
    root-ParentInUse l p = ground (arith, (create_fat32_lem s).0 2)

    root-named : has_name request (parent_table request (create_fat32 s)) 0 ≡ false
    unfolding insert_request has_name bytes_of
    root-named = elim (Bool-cases (has_name request (parent_table request (create_fat32 s)) 0)) [
      | inr other ↦ other
      | inl hit ↦ absurd (
          ground (
            arith,
            Agree-of_memcmp (parent_table request (create_fat32 s)) 0 name 0 8 hit 0,
            shell 0,
            read_clusters_lem (create_fat32 s).dir_table_buf 2 (create_fat32 s).disk 0
                (omega arith),
            (create_fat32_lem s).1.title 0 (omega arith),
          ))
    ]

    root-other : is_file_entry request (parent_table request (create_fat32 s)) 0 ≡ false
    root-other = rw root-named refl

    -- The image that the inserter leaves carries the signature, and any start reads the file from it.
    read-inserted :
        (buf buf' : Buf) (t : DriverState) {s' : DriverState} (memory : Buf)
        → is_empty_storage buf s.disk ≡ true
        → 0 < size
        → insert buf request s ≡ done (success, s')
        → t.disk ≡ s'.disk
        → (out : Buf) × (t' : DriverState) × (read
              (record shell_request { buf = memory })
              (initialize_filesystem_fat32 buf' t)
            ≡ done (pos 0, out, t'))
          × ((a : ℕ) → a < 512 → out a ≡ bytes a)
    unfolding insert insert_request initialize_filesystem_fat32
    read-inserted buf buf' t {s'} memory fresh some_bytes e on_disk =
        let stored : write request (create_fat32 s) ≡ done (pos 0, s') =
          code_of_success (rw fresh at e) in
        let sound : IsSound (create_fat32 s) = record {
          signed = create_fat32-IsSigned s;
          synced = create_fat32-IsSynced s;
        } in
        let signed : IsSigned s'.disk =
          (write-IsSound request (create_fat32 s) request-IsRequest root-ParentInUse sound
            stored).signed in
        let kept : (initialize_filesystem_fat32 buf' t).disk ≡ s'.disk =
          ap (λ (u : DriverState). u.disk)
            (initialize-formatted buf' t (subst IsSigned (sym on_disk) signed))
          ∙ on_disk in
        read-write_again request (record shell_request { buf = memory }) (create_fat32 s)
          (initialize_filesystem_fat32 buf' t) request-IsRequest root-ParentInUse
          (create_fat32-IsSynced s) (omega arith) root-other stored (request-SameFile memory) kept

-- If the inserter puts a file of at most 1 MiB, which is not empty, as `shell` into the root folder of
-- a disk without a signature and reports success, then `kernel_setup` on that disk, whatever the
-- kernel's memory holds, reaches the shell with the first 512 bytes of that file at address 0.
pub kernel_setup-insert :
    (bus : Bus) (stubs : ℕ → ℕ) (tss_address ebp : ℕ) (buf buf' file_buffer bytes name : Buf)
    (size : ℕ) (s : DriverState) {s' : DriverState} (sys : System bus.Devices)
    → is_empty_storage buf s.disk ≡ true
    → 0 < size
    → size ≤ 2 ^ 20
    → ((a : ℕ) → a < 8 → name a ≡ shell_request.name a)
    → insert buf (insert_request file_buffer (some (bytes, size)) name 2) s ≡ done (success, s')
    → sys.kernel.files.disk ≡ s'.disk
    → (sys' : System bus.Devices) × (kernel_setup bus stubs tss_address ebp buf' sys ≡ done sys')
      × ((a : ℕ) → a < 512 → sys'.kernel.memory a ≡ bytes a)
unfolding kernel_setup load_shell initialize_all
kernel_setup-insert bus stubs tss_address ebp buf buf' file_buffer bytes name size s {s'} sys fresh
      some_bytes small shell e on_disk =
    let (out, files, loads, holds) =
      read-inserted file_buffer bytes name size small shell s buf buf' sys.kernel.files
        sys.kernel.memory fresh some_bytes e on_disk in
    let sys1 = initialize_all bus stubs tss_address ebp buf' sys in
    (
      record sys1 {
        kernel = record (sys1.kernel) { files = files; memory = out };
        tss = set_tss_kernel_current_stack ebp sys.tss;
      },
      rw loads refl,
      holds,
    )
