-- ===== src/Fat32/Read/Bounds.antt =====
-- fat32.c: what `read` leaves alone, whatever the memory and the disk hold.
use if2230_2023_hexos.Prelude.{
  ℕ, ◌≤◌, ◌≡◌, refl, inl, inr, ltb, Bool-cases, Option, none, some, Buf, ℤ, pos, minus_one, arith,
}
use if2230_2023_hexos.Stdmem.Copy.{memcpy_lem}
use if2230_2023_hexos.Fat32.{DriverRequest, DriverState, Run, done}
use if2230_2023_hexos.Fat32.Layout.{cluster_low, filesize}
use if2230_2023_hexos.Fat32.Cluster.{read_clusters}
use if2230_2023_hexos.Fat32.Search.{is_bad_parent}
use if2230_2023_hexos.Fat32.Read.{load_parent, copy_entry, read_found, read}
use if2230_2023_hexos.Fat32.Read.Outcomes.{Unchanged, load_parent-Unchanged}

-- The call has returned, without a change behind byte 512 of the buffer, and, if it has failed, without
-- any change of it.
pub data Bounded (request : DriverRequest) (s : DriverState)
    : Run (ℤ × Buf × DriverState) → Type 0 where
  bounded :
      (code : ℤ) (out : Buf) (s' : DriverState)
      → ((a : ℕ) → 512 ≤ a → out a ≡ request.buf a)
      → Unchanged s s'
      → Bounded request s (done (code, out, s'))

read_found-Bounded :
    (request : DriverRequest) (s : DriverState) (o : Option ℕ)
    → Bounded request s (read_found request o (λ i. 512) (load_parent request s))
unfolding read_found copy_entry load_parent
read_found-Bounded request s none = bounded (pos 3) _ _ (λ a l. refl) (refl, refl)
read_found-Bounded request s (some i) =
    elim (Bool-cases (ltb request.buffer_size (filesize (load_parent request s).dir_table_buf i))) [
      | inl over ↦
          rw over (bounded (pos 2) request.buf (load_parent request s) (λ a l. refl) (refl, refl))
      | inr fits ↦
          let low : ℕ = cluster_low (load_parent request s).dir_table_buf i in
          let cluster_buf : Buf = read_clusters s.cluster_buf low 1 s.disk in
          rw fits (
            bounded (pos 0) _ _
              (λ a l. ground (arith, memcpy_lem request.buf 0 cluster_buf 0 512 a)) (refl, refl))
    ]

-- Whatever the memory and the disk hold, `read` returns, leaves the disk and the FAT, and does not
-- touch the caller's buffer behind its first 512 bytes.
pub read-Bounded : (request : DriverRequest) (s : DriverState) → Bounded request s (read request s)
unfolding read
read-Bounded request s =
    elim (Bool-cases (is_bad_parent request (load_parent request s).dir_table_buf)) [
      | inl bad ↦ rw bad (
          bounded minus_one request.buf (load_parent request s) (λ a l. refl)
            (load_parent-Unchanged request s))
      | inr fine ↦ rw fine (read_found-Bounded request s _)
    ]
