-- ===== src/Fat32/Read/Outcomes.antt =====
-- All outcomes of `read` and `read_directory`.
use if2230_2023_hexos.Prelude.{
  ℕ, ◌+◌, ◌*◌, ◌^◌, ◌≤◌, ◌<◌, ◌≡◌, refl, inl, inr, true, false, Bool, ltb, if◌then◌else◌,
  Bool-cases, Option, Buf, IsBytes, load16, ℤ, pos, minus_one, arith,
}
use if2230_2023_hexos.Prelude.Scan.{First, found, missing, first_index-First}
use if2230_2023_hexos.Stdmem.{memcpy}
use if2230_2023_hexos.Stdmem.Copy.{memcpy_lem}
use if2230_2023_hexos.Fat32.{DriverRequest, DriverState, Run, done, fault}
use if2230_2023_hexos.Fat32.Layout.{cluster_low, filesize}
use if2230_2023_hexos.Fat32.Cluster.{byte_of, read_clusters, read_clusters_lem}
use if2230_2023_hexos.Fat32.Search.{has_name, is_bad_parent}
use if2230_2023_hexos.Fat32.Read.{
  load_parent, copy_entry, read_found, read_directory, is_file_entry, read,
}

-- The parent's directory table, as the call reads it.
abbrev pub loaded : DriverRequest → DriverState → Buf
loaded request s = (load_parent request s).dir_table_buf

-- The disk and the FAT stay as they are.
abbrev pub Unchanged : DriverState → DriverState → Type 0
Unchanged s s' = (s'.disk ≡ s.disk) × (s'.fat_table ≡ s.fat_table)

-- `test` is the match that the loop looks for, `count i` the number of bytes copied from entry `i`.
pub data ReadResult (request : DriverRequest) (s : DriverState) (test : ℕ → Bool) (count : ℕ → ℕ)
    : Run (ℤ × Buf × DriverState) → Type 0 where
  bad_parent :
      {s' : DriverState}
      → is_bad_parent request (loaded request s) ≡ true
      → Unchanged s s'
      → ReadResult request s test count (done (minus_one, request.buf, s'))
  not_found :
      {s' : DriverState}
      → is_bad_parent request (loaded request s) ≡ false
      → ((l : ℕ) → l < 64 → test l ≡ false)
      → Unchanged s s'
      → ReadResult request s test count (done (pos 3, request.buf, s'))
  too_small :
      {s' : DriverState} (i : ℕ)
      → is_bad_parent request (loaded request s) ≡ false
      → i < 64
      → test i ≡ true
      → ((l : ℕ) → l < i → test l ≡ false)
      → request.buffer_size < filesize (loaded request s) i
      → Unchanged s s'
      → ReadResult request s test count (done (pos 2, request.buf, s'))
  overrun :
      (i : ℕ)
      → is_bad_parent request (loaded request s) ≡ false
      → i < 64
      → test i ≡ true
      → ((l : ℕ) → l < i → test l ≡ false)
      → filesize (loaded request s) i ≤ request.buffer_size
      → 2048 < count i
      → ReadResult request s test count fault
  success :
      {s' : DriverState} {out : Buf} (i : ℕ)
      → is_bad_parent request (loaded request s) ≡ false
      → i < 64
      → test i ≡ true
      → ((l : ℕ) → l < i → test l ≡ false)
      → filesize (loaded request s) i ≤ request.buffer_size
      → count i ≤ 2048
      → ((a : ℕ)
          → out a ≡ (
              if ltb a (count i)
              then byte_of s.disk (cluster_low (loaded request s) i) a
              else request.buf a))
      → Unchanged s s'
      → ReadResult request s test count (done (pos 0, out, s'))

pub load_parent-Unchanged :
    (request : DriverRequest) (s : DriverState) → Unchanged s (load_parent request s)
unfolding load_parent
load_parent-Unchanged request s = (refl, refl)

-- Fields of bytes are in range.
load16-lt : (m : Buf) (a : ℕ) → IsBytes m → load16 m a < 2 ^ 16
unfolding load16
load16-lt m a h = omega (arith, h a, h (a + 1))

module _ (request : DriverRequest) (s : DriverState) (count : ℕ → ℕ) where
  -- What the caller's buffer holds behind the copy.
  abbrev pub copy_of : ℕ → Buf
  copy_of i =
      memcpy request.buf 0
        (read_clusters (load_parent request s).cluster_buf (cluster_low (loaded request s) i) 1
          (load_parent request s).disk)
        0 (count i)

  pub copied :
      (i a : ℕ)
      → cluster_low (loaded request s) i < 2 ^ 20
      → count i ≤ 2048
      → copy_of i a ≡ (
          if ltb a (count i)
          then byte_of s.disk (cluster_low (loaded request s) i) a
          else request.buf a)
  unfolding load_parent
  copied i a small inside =
      let low : ℕ = cluster_low (loaded request s) i in
      ground (
        arith,
        memcpy_lem request.buf 0 (read_clusters s.cluster_buf low 1 s.disk) 0 (count i) a,
        read_clusters_lem s.cluster_buf low s.disk a small,
      )

module _ (request : DriverRequest) (s : DriverState) (test : ℕ → Bool) (count : ℕ → ℕ)
    (bytes : IsBytes (loaded request s))
    (fine : is_bad_parent request (loaded request s) ≡ false) where
  copy_entry-ReadResult :
      (i : ℕ)
      → i < 64
      → test i ≡ true
      → ((l : ℕ) → 0 ≤ l → l < i → test l ≡ false)
      → ltb request.buffer_size (filesize (loaded request s) i) ≡ false
      → ReadResult request s test count (copy_entry request i (count i) (load_parent request s))
  unfolding copy_entry
  copy_entry-ReadResult i bound hit before fits = elim (Bool-cases (ltb 2048 (count i))) [
    | inl over ↦
        rw over
          (overrun i fine bound hit (λ l h. before l (omega arith) h) (ground arith) (ground arith))
    | inr inside ↦ rw inside (
        success
          {s' = record (load_parent request s) {
            cluster_buf =
                read_clusters (load_parent request s).cluster_buf (cluster_low (loaded request s) i)
                  1 (load_parent request s).disk;
          }}
          {out = copy_of request s count i} i fine bound hit (λ l h. before l (omega arith) h)
          (ground arith) (ground arith)
          (λ a.
            copied request s count i a
              (omega (arith, load16-lt (loaded request s) (32 * i + 26) bytes)) (ground arith))
          (load_parent-Unchanged request s))
  ]

  read_found-ReadResult :
      {o : Option ℕ}
      → First test 0 64 o
      → ReadResult request s test count (read_found request o count (load_parent request s))
  unfolding read_found
  read_found-ReadResult (missing all) =
      not_found fine (λ l h. all l (omega arith) h) (load_parent-Unchanged request s)
  read_found-ReadResult (found i low high hit before) =
      elim (Bool-cases (ltb request.buffer_size (filesize (loaded request s) i))) [
        | inl small ↦ rw small (
            too_small i fine high hit (λ l h. before l (omega arith) h) (ground arith)
              (load_parent-Unchanged request s))
        | inr fits ↦ rw fits (copy_entry-ReadResult i high hit before fits)
      ]

-- If the loaded table holds bytes, `read` always returns: -1 for a parent that is no directory, and for
-- any other one 3 if no entry has the name and extension, 2 if the first such entry's size exceeds `buffer_size`, and otherwise
-- 0 with the first 512 bytes of that entry's first cluster, whatever its size. The disk and the FAT
-- do not change.
pub read-ReadResult :
    (request : DriverRequest) (s : DriverState)
    → IsBytes (loaded request s)
    → ReadResult request s (is_file_entry request (loaded request s)) (λ i. 512) (read request s)
unfolding read
read-ReadResult request s bytes = elim (Bool-cases (is_bad_parent request (loaded request s))) [
  | inl bad ↦ rw bad (bad_parent bad (load_parent-Unchanged request s))
  | inr fine ↦ rw fine (
      read_found-ReadResult request s _ _ bytes fine
        (first_index-First (is_file_entry request (loaded request s)) 64 0 64 refl))
]

-- If the loaded table holds bytes, `read_directory` has these results: -1 for a parent that is no directory, and
-- for any other one 3 if no entry has the name, 2 if the first such entry's size exceeds `buffer_size`, an overrun of the
-- cluster buffer if it exceeds a cluster, and otherwise 0 with that many bytes of the entry's first
-- cluster. The disk and the FAT do not change.
pub read_directory-ReadResult :
    (request : DriverRequest) (s : DriverState)
    → IsBytes (loaded request s)
    → ReadResult request s
        (has_name request (loaded request s))
        (λ i. filesize (loaded request s) i)
        (read_directory request s)
unfolding read_directory
read_directory-ReadResult request s bytes =
    elim (Bool-cases (is_bad_parent request (loaded request s))) [
      | inl bad ↦ rw bad (bad_parent bad (load_parent-Unchanged request s))
      | inr fine ↦ rw fine (
          read_found-ReadResult request s _ _ bytes fine
            (first_index-First (has_name request (loaded request s)) 64 0 64 refl))
    ]
