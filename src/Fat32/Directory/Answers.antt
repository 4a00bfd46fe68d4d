-- ===== src/Fat32/Directory/Answers.antt =====
-- fat32.c: `read` as the lookup of a directory's map.
use if2230_2023_hexos.Prelude.{
  ℕ, ◌+◌, ◌*◌, ◌≤◌, ◌<◌, ◌≡◌, ◌∙◌, inl, inr, false, ltb, if◌then◌else◌, Bool-cases, Option, none,
  some, Buf, load16_eq, load32_eq, ℤ, pos, arith,
}
use if2230_2023_hexos.Prelude.Scan.{first_index}
use if2230_2023_hexos.Fat32.{DriverRequest, DriverState, Run, done}
use if2230_2023_hexos.Fat32.Layout.{cluster_low, filesize}
use if2230_2023_hexos.Fat32.Cluster.{byte_of, read_clusters, read_clusters_lem}
use if2230_2023_hexos.Fat32.Search.{is_directory, is_bad_parent}
use if2230_2023_hexos.Fat32.Read.{load_parent, copy_entry, read_found, is_file_entry, read}
use if2230_2023_hexos.Fat32.Read.Outcomes.{
  loaded, copy_of, copied, Unchanged, load_parent-Unchanged,
}
use if2230_2023_hexos.Fat32.Roundtrip.Table.{is_file_entry_eq}
use if2230_2023_hexos.Fat32.Directory.{entry_for, Shows, Tidy}
use if2230_2023_hexos.Fat32.Directory.Entries.{first_index-congr, is_directory_eq, entry_for-match}

-- What a call of `read` for `q` gives, by what the map has for it.
pub data Answer (q : DriverRequest) (s : DriverState)
    : Option DriverRequest → Run (ℤ × Buf × DriverState) → Type 0 where
  absent : {s' : DriverState} → Unchanged s s' → Answer q s none (done (pos 3, q.buf, s'))
  small :
      {s' : DriverState} {r : DriverRequest}
      → q.buffer_size < r.buffer_size
      → Unchanged s s'
      → Answer q s (some r) (done (pos 2, q.buf, s'))
  delivered :
      {s' : DriverState} {r : DriverRequest} {out : Buf}
      → r.buffer_size ≤ q.buffer_size
      → ((a : ℕ) → out a ≡ (if ltb a 512 then r.buf a else q.buf a))
      → Unchanged s s'
      → Answer q s (some r) (done (pos 0, out, s'))

module _ (q : DriverRequest) (s : DriverState) (tidy : Tidy q.parent_cluster_number s) where
  abbrev table : Buf
  table = byte_of s.disk q.parent_cluster_number

  pub loaded-table : (a : ℕ) → a < 2048 → loaded q s a ≡ table a
  unfolding load_parent
  loaded-table a l = ground (
    arith,
    tidy.high,
    read_clusters_lem s.dir_table_buf q.parent_cluster_number s.disk a (omega (arith, tidy.high)),
  )

  pub fine : is_bad_parent q (loaded q s) ≡ false
  fine =
      let same : is_directory (loaded q s) ≡ is_directory table =
        is_directory_eq (λ a l. loaded-table a (omega arith)) in
      ground (arith, tidy.low, tidy.high, tidy.folder)

  entry_loaded : first_index (is_file_entry q (loaded q s)) 64 0 ≡ entry_for q table
  entry_loaded =
      first_index-congr (is_file_entry q table) (is_file_entry q (loaded q s)) 64 0 (λ l _ bound.
        is_file_entry_eq q table (loaded q s) l
          (λ a inside. loaded-table (32 * l + a) (omega arith)))

  filesize-loaded : (i : ℕ) → i < 64 → filesize (loaded q s) i ≡ filesize table i
  filesize-loaded i bound =
      load32_eq (loaded q s) table (32 * i + 28) (λ x low high. loaded-table x (omega arith))

  cluster_low-loaded : (i : ℕ) → i < 64 → cluster_low (loaded q s) i ≡ cluster_low table i
  cluster_low-loaded i bound =
      load16_eq (loaded q s) table (32 * i + 26) (λ x low high. loaded-table x (omega arith))

  found-Answer :
      (r : DriverRequest) (i : ℕ)
      → filesize (loaded q s) i ≡ r.buffer_size
      → cluster_low (loaded q s) i < 512
      → ((a : ℕ) → a < 2048 → byte_of s.disk (cluster_low (loaded q s) i) a ≡ r.buf a)
      → Answer q s (some r) (read_found q (some i) (λ _. 512) (load_parent q s))
  unfolding read_found copy_entry
  found-Answer r i size high bytes =
      elim (Bool-cases (ltb q.buffer_size (filesize (loaded q s) i))) [
        | inl over ↦ rw over (small (ground arith) (load_parent-Unchanged q s))
        | inr fits ↦ rw fits (
            delivered
              {s' = record (load_parent q s) {
                cluster_buf =
                    read_clusters (load_parent q s).cluster_buf (cluster_low (loaded q s) i) 1
                      (load_parent q s).disk;
              }}
              {out = copy_of q s (λ _. 512) i} (ground arith)
              (λ a. ground (arith, copied q s (λ _. 512) i a (omega arith) (omega arith), bytes a))
              (load_parent-Unchanged q s))
      ]

  pub read-Answer :
      (o : Option DriverRequest)
      → Shows q.parent_cluster_number s.disk q o
      → Answer q s o (read q s)
  unfolding read read_found
  read-Answer none missing = rw (fine, entry_loaded ∙ missing) (absent (load_parent-Unchanged q s))
  read-Answer (some r) (i, finds, size, high, bytes) =
      let (bound, hit) = entry_for-match q table finds in
      let low : cluster_low (loaded q s) i ≡ cluster_low table i = cluster_low-loaded i bound in
      rw (fine, entry_loaded ∙ finds)
        (found-Answer r i (filesize-loaded i bound ∙ size) (rw low high) (rw low bytes))
