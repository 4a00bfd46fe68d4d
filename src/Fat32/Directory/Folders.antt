-- ===== src/Fat32/Directory/Folders.antt =====
-- fat32.c: a folder that `write` has made.
use if2230_2023_hexos.Prelude.{
  ℕ, ◌+◌, ◌*◌, ◌≤◌, ◌<◌, ◌≡◌, refl, ◌∙◌, inl, true, false, ltb, some, Buf, ℤ, pos, arith,
}
use mathlib.Core.Path.{subst}
use if2230_2023_hexos.Prelude.Scan.{first_index, first_index-eq}
use if2230_2023_hexos.Stdmem.{memcpy, memcpy_loop}
use if2230_2023_hexos.Stdmem.Compare.{memcmp_of_Agree}
use if2230_2023_hexos.Fat32.{DriverRequest, DriverState, IsRequest, Run, done}
use if2230_2023_hexos.Fat32.Layout.{cluster_low, filesize}
use if2230_2023_hexos.Fat32.Cluster.{byte_of, disk_fat, read_clusters}
use if2230_2023_hexos.Fat32.Search.{has_name, is_directory, is_bad_parent}
use if2230_2023_hexos.Fat32.Read.{load_parent, read_found, copy_entry, read_directory}
use if2230_2023_hexos.Fat32.Read.Outcomes.{loaded, Unchanged}
use if2230_2023_hexos.Fat32.Write.{write}
use if2230_2023_hexos.Fat32.Write.Folder.{FolderHead}
use if2230_2023_hexos.Fat32.Write.Outcomes.{
  parent_table, ParentInUse, EntryAdded, Written, bad_parent, exists, no_room, cut_short, file,
  folder,
}
use if2230_2023_hexos.Fat32.Write.Call.{write-Written}
use if2230_2023_hexos.Fat32.Sound.{IsSound}
use if2230_2023_hexos.Fat32.Sound.Writing.{write-IsSound}
use if2230_2023_hexos.Fat32.Roundtrip.Table.{
  has_name_eq, has_name-SameFile, write-valid, validate_write-zero, no_other_name, SameFile,
}
use if2230_2023_hexos.Fat32.Roundtrip.{reloaded, entry_loaded, still_fine}
use if2230_2023_hexos.Fat32.Directory.Blank.{IsBlank}

-- What `write` promises of a folder that it has made, with the entry's index and the cluster.
data FolderStored (request : DriverRequest) (s s' : DriverState) : Type 0 where
  folder_stored :
      (c i : ℕ)
      → 2 ≤ c
      → c < 512
      → disk_fat s.disk c ≡ 0
      → EntryAdded request c i s s'
      → FolderHead request.name request.parent_cluster_number (byte_of s'.disk c)
      → disk_fat s'.disk c ≡ 0x0FFF_FFFF
      → ((a : ℕ) → 32 ≤ a → a < 2048 → byte_of s'.disk c a ≡ byte_of s.disk c a)
      → FolderStored request s s'

FolderStored-of_Written :
    {request : DriverRequest} {s s' : DriverState} {r : Run (ℤ × DriverState)}
    → request.buffer_size ≡ 0
    → Written request s r
    → r ≡ done (pos 0, s')
    → FolderStored request s s'
FolderStored-of_Written none (bad_parent b d f) e = cc
FolderStored-of_Written none (exists i a b m d f) e = cc
FolderStored-of_Written none (no_room why d f _) e = cc
FolderStored-of_Written none (cut_short c i cs low entry e1 few rest frame _ _) e = cc
FolderStored-of_Written none (file c i cs size entry chain holds empty _ _ frame _) e =
    absurd (omega arith)
FolderStored-of_Written {request} {s} {s'} none
      (folder {s' = u} c i _ entry head marked stale empty frame _) e =
    let same : u ≡ s' = ground arith in
    subst (FolderStored request s) same
      (folder_stored c i empty.0 empty.1 empty.2 entry head marked stale)

-- A new folder in a cluster that was zero is blank.
IsBlank-folder :
    (c : ℕ) {name : Buf} {parent : ℕ} {s : DriverState}
    → 2 ≤ c
    → c < 512
    → IsSound s
    → FolderHead name parent (byte_of s.disk c)
    → disk_fat s.disk c ≡ 0x0FFF_FFFF
    → ((a : ℕ) → 32 ≤ a → a < 2048 → byte_of s.disk c a ≡ 0)
    → IsBlank c s
unfolding is_directory
IsBlank-folder c low high sound head marked zeros = record {
  sound = sound;
  low = low;
  high = high;
  in_use = λ e. omega arith;
  folder = ground (arith, head.in_use, head.size);
  zeros = zeros;
}

-- If `write` makes a folder and returns 0, on a sound disk whose empty clusters are zero behind their
-- first 32 bytes, with 32-bit numbers in the request and a parent in use, then the parent's table has an
-- entry for a cluster that was empty, and the directory in that cluster is blank.
pub write-IsBlank :
    (request : DriverRequest) (s : DriverState) {s' : DriverState}
    → IsRequest request
    → ParentInUse request s
    → IsSound s
    → request.buffer_size ≡ 0
    → ((e a : ℕ)
        → 2 ≤ e
        → e < 512
        → disk_fat s.disk e ≡ 0
        → 32 ≤ a
        → a < 2048
        → byte_of s.disk e a ≡ 0)
    → write request s ≡ done (pos 0, s')
    → (c i : ℕ) × (disk_fat s.disk c ≡ 0) × EntryAdded request c i s s' × IsBlank c s'
write-IsBlank request s {s'} valid used sound none clean e =
    blank (FolderStored-of_Written none (write-Written request s valid used sound.synced) e)
  where
    blank :
        FolderStored request s s'
        → (c i : ℕ) × (disk_fat s.disk c ≡ 0) × EntryAdded request c i s s' × IsBlank c s'
    blank (folder_stored c i low high was_empty entry head marked stale) = (
      c,
      i,
      was_empty,
      entry,
      IsBlank-folder c low high (write-IsSound request s valid used sound e) head marked
          (λ a behind l. stale a behind l ∙ clean c a low high was_empty behind l),
    )

-- `q` asks for the folder that `request` has made, and `t` has the disk that it has left.
module _ (request q : DriverRequest) (s t : DriverState) {s' : DriverState} {c i : ℕ}
    (asks : SameFile request q) (on_disk : t.disk ≡ s'.disk) (added : EntryAdded request c i s s')
    (fine : is_bad_parent request (parent_table request s) ≡ false)
    (old : (l : ℕ) → l < 64 → has_name request (parent_table request s) l ≡ false) where
  new_name : has_name q (loaded q t) i ≡ true
  unfolding has_name
  new_name =
      let entry = entry_loaded request q s t asks on_disk added fine in
      ground (
        arith,
        memcmp_of_Agree (loaded q t) (32 * i) q.name 0 8
            (λ j _ h. ground (arith, entry.name j h, asks.name j h)),
      )

  old_name : (l : ℕ) → l < i → has_name q (loaded q t) l ≡ false
  old_name l before =
      has_name-SameFile asks (loaded q t) l
      ∙ has_name_eq request (parent_table request s) (loaded q t) l (λ a la.
        reloaded request q s t asks on_disk added fine (32 * l + a)
          (omega (arith, added.index_high)) (inl (omega arith)))
      ∙ old l (omega (arith, added.index_high))

  -- The entry of a folder has the size 0, so nothing is copied.
  read_folder :
      request.buffer_size ≡ 0
      → (t' : DriverState) × (read_directory q t ≡ done (pos 0, q.buf, t')) × Unchanged t t'
  unfolding read_directory read_found copy_entry load_parent memcpy memcpy_loop
  read_folder none =
      let entry = entry_loaded request q s t asks on_disk added fine in
      let size : filesize (loaded q t) i ≡ 0 = entry.size ∙ none in
      let fits : ltb q.buffer_size 0 ≡ false = ground arith in
      let finds : first_index (has_name q (loaded q t)) 64 0 ≡ some i =
        first_index-eq (has_name q (loaded q t)) 64 i added.index_high new_name old_name in
      (
        record (load_parent q t) {
          cluster_buf =
              read_clusters (load_parent q t).cluster_buf (cluster_low (loaded q t) i) 1
                (load_parent q t).disk;
        },
        rw (still_fine request q s t asks on_disk added fine, finds, size, fits) refl,
        (refl, refl),
      )

-- If `write` makes a folder and returns 0, in a parent in use whose own entry has another name, then,
-- with 32-bit numbers in the request and a sound file system, `read_directory` of that folder, from any state of the driver with the same disk, returns 0 and
-- leaves the caller's buffer as it is.
pub read_directory-write :
    (request q : DriverRequest) (s t : DriverState) {s' : DriverState}
    → IsRequest request
    → ParentInUse request s
    → IsSound s
    → request.buffer_size ≡ 0
    → has_name request (parent_table request s) 0 ≡ false
    → write request s ≡ done (pos 0, s')
    → SameFile request q
    → t.disk ≡ s'.disk
    → (t' : DriverState) × (read_directory q t ≡ done (pos 0, q.buf, t')) × Unchanged t t'
read_directory-write request q s t {s'} valid used sound none own e asks on_disk =
    let (fine, new) =
      validate_write-zero request (parent_table request s) (write-valid request s e) in
    let old : (l : ℕ) → l < 64 → has_name request (parent_table request s) l ≡ false =
      no_other_name request (parent_table request s) none own new in
    finish fine old
      (FolderStored-of_Written none (write-Written request s valid used sound.synced) e)
  where
    finish :
        is_bad_parent request (parent_table request s) ≡ false
        → ((l : ℕ) → l < 64 → has_name request (parent_table request s) l ≡ false)
        → FolderStored request s s'
        → (t' : DriverState) × (read_directory q t ≡ done (pos 0, q.buf, t')) × Unchanged t t'
    finish fine old (folder_stored c i low high was_empty added head marked stale) =
        read_folder request q s t asks on_disk added fine old none
