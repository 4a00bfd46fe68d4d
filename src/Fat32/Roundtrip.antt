-- ===== src/Fat32/Roundtrip.antt =====
-- fat32.c: `read` after `write`.
pub mod Table
pub mod Stored
use if2230_2023_hexos.Prelude.{
  ℕ, ◌+◌, ◌*◌, ◌≤◌, ◌<◌, ◌≡◌, ◌≢◌, refl, sym, ap, ◌∙◌, ◌⊎◌, inl, inr, true, false, ltb, ◌==◌,
  if◌then◌else◌, Bool-cases, List, Option, some, Buf, load32_eq, is_zero, ℤ, pos, arith,
}
use mathlib.Core.Path.{subst}
use if2230_2023_hexos.Prelude.Scan.{
  first_index, get_or, first_index-eq, First, found, missing, first_index-First,
}
use if2230_2023_hexos.Stdmem.Compare.{memcmp_eq, memcmp_of_Agree}
use if2230_2023_hexos.Fat32.{DriverRequest, DriverState, IsRequest, Run, done}
use if2230_2023_hexos.Fat32.Layout.{cluster_low, filesize}
use if2230_2023_hexos.Fat32.Cluster.{byte_of, read_clusters, read_clusters_lem}
use if2230_2023_hexos.Fat32.Search.{
  has_name, has_ext, is_same_entry, is_exist, is_directory, is_bad_parent, validate_write,
}
use if2230_2023_hexos.Fat32.Read.{load_parent, read_found, copy_entry, is_file_entry, read}
use if2230_2023_hexos.Fat32.Read.Outcomes.{loaded, copy_of, copied}
use if2230_2023_hexos.Fat32.Write.{write}
use if2230_2023_hexos.Fat32.Write.Entry.{Describes, Describes-transfer}
use if2230_2023_hexos.Fat32.Write.Chain.{Chain, last, link, Holds, Empty, IsSynced}
use if2230_2023_hexos.Fat32.Write.Outcomes.{
  parent_table, ParentInUse, EntryAdded, Written, bad_parent, exists, no_room, cut_short, file,
  folder,
}
use if2230_2023_hexos.Fat32.Write.Call.{write-Written}
use if2230_2023_hexos.Fat32.Roundtrip.Table.{
  is_file_entry_eq, is_bad_parent_eq, Describes-match, write-valid, validate_write-zero, no_other,
  SameFile, is_file_entry-SameFile, is_bad_parent-SameFile,
}
use if2230_2023_hexos.Fat32.Roundtrip.Stored.{FileStored, file_stored, FileStored-of_Written}

-- `q` asks for the file that `request` has written, and `t` has the disk that it has left.
module _ (request q : DriverRequest) (s t : DriverState) {s' : DriverState} {c i : ℕ}
    (asks : SameFile request q) (on_disk : t.disk ≡ s'.disk) (added : EntryAdded request c i s s')
    (fine : is_bad_parent request (parent_table request s) ≡ false) where
  -- The table that `read` loads is the old one beside the new entry.
  pub reloaded :
      (x : ℕ)
      → x < 2048
      → (x < 32 * i) ⊎ (32 * i + 32 ≤ x)
      → loaded q t x ≡ parent_table request s x
  unfolding load_parent
  reloaded x l out = ground (
    arith,
    read_clusters_lem t.dir_table_buf q.parent_cluster_number t.disk x (ground arith),
    read_clusters_lem s.dir_table_buf request.parent_cluster_number s.disk x (ground arith),
    added.others x l out,
  )

  pub entry_loaded : Describes request (loaded q t) c i
  unfolding load_parent
  entry_loaded =
      Describes-transfer added.index_high
        (λ x l. ground (
          arith,
          read_clusters_lem t.dir_table_buf q.parent_cluster_number t.disk x (ground arith),
        ))
        added.entry

  pub still_fine : is_bad_parent q (loaded q t) ≡ false
  still_fine =
      is_bad_parent-SameFile asks (loaded q t)
      ∙ is_bad_parent_eq request
          (λ a l. reloaded a (omega arith) (inl (omega (arith, added.index_low))))
      ∙ fine

  -- The new entry is the first one that matches.
  first_match :
      request.buffer_size ≢ 0
      → ((l : ℕ) → l < 64 → is_file_entry request (parent_table request s) l ≡ false)
      → first_index (is_file_entry q (loaded q t)) 64 0 ≡ some i
  first_match ne old =
      first_index-eq (is_file_entry q (loaded q t)) 64 i added.index_high
        (is_file_entry-SameFile asks (loaded q t) i ∙ Describes-match ne entry_loaded)
        (λ l h.
          is_file_entry-SameFile asks (loaded q t) l
          ∙ is_file_entry_eq request (parent_table request s) (loaded q t) l
              (λ a la. reloaded (32 * l + a) (omega (arith, added.index_high)) (inl (omega arith)))
          ∙ old l (omega (arith, added.index_high)))

  read_stored :
      c < 512
      → 0 < request.buffer_size
      → ((l : ℕ) → l < 64 → is_file_entry request (parent_table request s) l ≡ false)
      → ((a : ℕ) → a < 2048 → byte_of s'.disk c a ≡ request.buf a)
      → (out : Buf) × (s'' : DriverState) × (read q t ≡ done (pos 0, out, s''))
        × ((a : ℕ) → a < 512 → out a ≡ request.buf a)
  unfolding read read_found copy_entry
  read_stored small size old holds =
      let e : filesize (loaded q t) i ≡ request.buffer_size = entry_loaded.size in
      let low : cluster_low (loaded q t) i ≡ c = omega (arith, entry_loaded.low) in
      let fits : ltb q.buffer_size (filesize (loaded q t) i) ≡ false =
        ground (arith, asks.enough) in
      (
        copy_of q t (λ _. 512) i,
        record (load_parent q t) {
          cluster_buf =
              read_clusters (load_parent q t).cluster_buf (cluster_low (loaded q t) i) 1
                (load_parent q t).disk;
        },
        rw (still_fine, first_match (omega arith) old, fits),
        λ a l.
            ground
              (arith, copied q t (λ _. 512) i a (omega arith) (omega arith), holds a (omega arith)),
      )

-- If `write` of a file returns 0, in a parent in use whose own entry 0 has another name or extension,
-- with 32-bit numbers in the request and a FAT in memory that is the one on the disk, then `read` of any
-- request for that parent, name and extension whose buffer is at least as large, whatever the buffer
-- holds and from any state of the driver with the disk that `write` has left, returns 0 and delivers the
-- first 512 bytes that were written.
pub read-write_again :
    (request q : DriverRequest) (s t : DriverState) {s' : DriverState}
    → IsRequest request
    → ParentInUse request s
    → IsSynced s
    → 0 < request.buffer_size
    → is_file_entry request (parent_table request s) 0 ≡ false
    → write request s ≡ done (pos 0, s')
    → SameFile request q
    → t.disk ≡ s'.disk
    → (out : Buf) × (t' : DriverState) × (read q t ≡ done (pos 0, out, t'))
      × ((a : ℕ) → a < 512 → out a ≡ request.buf a)
read-write_again request q s t {s'} r used synced size own e asks on_disk =
    let (fine, new) =
      validate_write-zero request (parent_table request s) (write-valid request s e) in
    let old : (l : ℕ) → l < 64 → is_file_entry request (parent_table request s) l ≡ false =
      no_other request (parent_table request s) (omega arith) own new in
    finish fine old (FileStored-of_Written size (write-Written request s r used synced) e)
  where
    finish :
        is_bad_parent request (parent_table request s) ≡ false
        → ((l : ℕ) → l < 64 → is_file_entry request (parent_table request s) l ≡ false)
        → FileStored request s s'
        → (out : Buf) × (t' : DriverState) × (read q t ≡ done (pos 0, out, t'))
          × ((a : ℕ) → a < 512 → out a ≡ request.buf a)
    finish fine old (file_stored c i small added holds) =
        read_stored request q s t asks on_disk added fine small size old holds
