-- ===== src/Fat32/Delete/Effect.antt =====
-- fat32.c: what a call of `delete` leaves of the parent's directory table.
use if2230_2023_hexos.Prelude.{
  ℕ, zero, suc, ◌+◌, ◌*◌, ◌/◌, ◌%◌, ◌≤◌, ◌<◌, ◌≡◌, ◌≢◌, refl, inl, inr, true, false, ◌==◌, ltb, leb,
  ◌&&◌, if◌then◌else◌, Bool-cases, Option, none, some, Buf, store_lem, ℤ, pos, minus_one, arith,
}
use if2230_2023_hexos.Stdmem.{memset}
use if2230_2023_hexos.Stdmem.Copy.{memset_lem}
use if2230_2023_hexos.Fat32.{DriverRequest, DriverState, Run, done, fault, diverges}
use if2230_2023_hexos.Fat32.Layout.{attribute, set_cluster_map, set_user_attribute}
use if2230_2023_hexos.Fat32.Cluster.{
  byte_of, write_clusters, read_clusters_lem, byte_of-write_clusters,
}
use if2230_2023_hexos.Fat32.Search.{has_name, is_bad_parent}
use if2230_2023_hexos.Fat32.Read.{load_parent}
use if2230_2023_hexos.Fat32.Delete.{
  entry_cluster, clear_round, clear_loop, Next, go_on, return, stuck, out_of_bounds, continue_with,
  proceed, return_if_child, visit_named, remove_entry, delete_loop, delete,
}

-- The state keeps the loaded table.
abbrev Keeps : Buf → Next → Type 0
Keeps table (go_on s) = s.dir_table_buf ≡ table
Keeps table (return code s) = (s.dir_table_buf ≡ table) × (code ≡ pos 2)
Keeps table stuck = Unit {0}
Keeps table out_of_bounds = Unit {0}

clear_loop-Keeps :
    (fuel : ℕ) (request : DriverRequest) (stack : Buf) (k : ℕ) (s : DriverState)
    → Keeps s.dir_table_buf (continue_with (clear_loop fuel request stack k s))
unfolding clear_loop clear_round
clear_loop-Keeps zero request stack k s = tt
clear_loop-Keeps (suc fuel) request stack k s =
    elim (Bool-cases (ltb k (request.buffer_size / 2048))) [
      | inl more ↦
          rw more
            (clear_loop-Keeps fuel request stack ((k + 1) % 256) (clear_round request stack k s))
      | inr end ↦ rw end refl
    ]

return_if_child-Keeps :
    (o : Option ℕ) (s : DriverState) → Keeps s.dir_table_buf (return_if_child o s)
return_if_child-Keeps none s = refl
return_if_child-Keeps (some j) s = (refl, refl)

visit_named-Keeps :
    (fuel : ℕ) (request : DriverRequest) (stack : Buf) (i : ℕ) (s : DriverState)
    → Keeps s.dir_table_buf (visit_named fuel request stack i s)
unfolding visit_named
visit_named-Keeps fuel request stack i s =
    elim (Bool-cases (attribute s.dir_table_buf i == 0b0001_0000)) [
      | inl dir ↦ rw dir (return_if_child-Keeps _ _)
      | inr other ↦ rw other (clear_loop-Keeps fuel request stack 1 s)
    ]

-- What a finished call has done to the loaded table: nothing, or it has cleared one entry of
-- another name and saved the table.
data Removed (request : DriverRequest) (table : Buf) : Run (ℤ × DriverState) → Type 0 where
  nothing : {code : ℤ} {s : DriverState} → code ≢ pos 0 → Removed request table (done (code, s))
  other :
      {s : DriverState} (i : ℕ)
      → has_name request table i ≡ false
      → ((a : ℕ)
          → a < 2048
          → byte_of s.disk request.parent_cluster_number a
            ≡ (if leb (32 * i) a && ltb a (32 * i + 32) then 0 else table a))
      → Removed request table (done (pos 0, s))
  failed : Removed request table fault
  endless : Removed request table diverges

proceed-Removed :
    {request : DriverRequest} {table : Buf} (n : Next) (rest : DriverState → Run (ℤ × DriverState))
    → Keeps table n
    → ((s : DriverState) → s.dir_table_buf ≡ table → Removed request table (rest s))
    → Removed request table (proceed n rest)
proceed-Removed (go_on s) rest kept next = next s kept
proceed-Removed (return code s) rest (kept, e) next = nothing (λ p. cc)
proceed-Removed stuck rest kept next = endless
proceed-Removed out_of_bounds rest kept next = failed

module _ (request : DriverRequest) (low : 2 ≤ request.parent_cluster_number)
    (high : request.parent_cluster_number ≤ 512) where
  remove_entry-Removed :
      (i : ℕ) (s : DriverState)
      → has_name request s.dir_table_buf i ≡ false
      → Removed request s.dir_table_buf (remove_entry request i s)
  unfolding remove_entry
  remove_entry-Removed i s miss =
      let cluster : ℕ = entry_cluster s.dir_table_buf i in
      let table : Buf = set_user_attribute s.dir_table_buf i 0 in
      let fat : Buf = set_cluster_map s.fat_table cluster 0 in
      elim (Bool-cases (leb 512 cluster)) [
        | inl bad ↦ rw bad failed
        | inr fine ↦ rw fine (
            other i miss λ a l. ground (
              arith,
              byte_of-write_clusters (memset table (32 * i) 0 32) request.parent_cluster_number
                  (write_clusters fat 1 1 s.disk) request.parent_cluster_number a (omega arith) l,
              memset_lem table (32 * i) 0 32 a,
              store_lem s.dir_table_buf (32 * i + 12) 0 a,
            ))
      ]

  delete_loop-Removed :
      (k fuel : ℕ) (stack : Buf) (i : ℕ) (s : DriverState) (table : Buf)
      → s.dir_table_buf ≡ table
      → Removed request table (delete_loop k fuel request stack i s)
  unfolding delete_loop
  delete_loop-Removed zero fuel stack i s table e = nothing (λ p. cc)
  delete_loop-Removed (suc k) fuel stack i s table e =
      elim (Bool-cases (has_name request s.dir_table_buf i)) [
        | inl hit ↦ rw hit (
            proceed-Removed (visit_named fuel request stack i s)
              (delete_loop k fuel request stack (i + 1))
              (rw (← e) (visit_named-Keeps fuel request stack i s))
              (λ s' kept. delete_loop-Removed k fuel stack (i + 1) s' table kept))
        | inr miss ↦ rw (miss, ← e) (remove_entry-Removed i s miss)
      ]

-- The parent's table as it is on the disk.
abbrev pub loaded : DriverRequest → DriverState → Buf
loaded request s = (load_parent request s).dir_table_buf

pub loaded-byte :
    (request : DriverRequest) (s : DriverState) (a : ℕ)
    → request.parent_cluster_number ≤ 512
    → a < 2048
    → loaded request s a ≡ byte_of s.disk request.parent_cluster_number a
unfolding load_parent
loaded-byte request s a high l =
    ground (
      arith,
      read_clusters_lem s.dir_table_buf request.parent_cluster_number s.disk a (omega arith),
    )

delete-Removed :
    (fuel : ℕ) (request : DriverRequest) (stack : Buf) (s : DriverState)
    → is_bad_parent request (loaded request s) ≡ false
    → Removed request (loaded request s) (delete fuel request stack s)
unfolding delete
delete-Removed fuel request stack s fine = rw fine (
    delete_loop-Removed request (ground arith) (ground arith) 63 fuel stack 1
      (load_parent request s) (loaded request s) refl)

delete-refused :
    (fuel : ℕ) (request : DriverRequest) (stack : Buf) (s : DriverState)
    → is_bad_parent request (loaded request s) ≡ true
    → delete fuel request stack s ≡ done (minus_one, load_parent request s)
unfolding delete
delete-refused fuel request stack s bad = rw bad

abbrev pub Spared : DriverRequest → DriverState → DriverState → Type 0
Spared request s s' =
    (i a : ℕ)
    → i < 64
    → has_name request (loaded request s) i ≡ true
    → a < 32
    → byte_of s'.disk request.parent_cluster_number (32 * i + a)
      ≡ byte_of s.disk request.parent_cluster_number (32 * i + a)

Spared-of_Removed :
    {request : DriverRequest} (s : DriverState) {s' : DriverState} {r : Run (ℤ × DriverState)}
    → request.parent_cluster_number ≤ 512
    → Removed request (loaded request s) r
    → r ≡ done (pos 0, s')
    → Spared request s s'
Spared-of_Removed s high (nothing ne) e = absurd (ne (ground arith))
Spared-of_Removed {request} s {s'} high (other {s = u} j miss saved) e = λ i a l hit la.
    let u_eq : u ≡ s' = ground arith in
    let apart : (i == j) ≡ false = ground arith in
    rw (← u_eq)
      (ground (arith, saved (32 * i + a), loaded-byte request s (32 * i + a) high (omega arith)))
Spared-of_Removed s high failed e = cc
Spared-of_Removed s high endless e = cc

-- When `delete` returns 0 for success, every entry of the parent that has the requested name is
-- byte for byte on the disk as before the call.
pub delete_spares_named :
    (fuel : ℕ) (request : DriverRequest) (stack : Buf) (s : DriverState) {s' : DriverState}
    → delete fuel request stack s ≡ done (pos 0, s')
    → Spared request s s'
delete_spares_named fuel request stack s {s'} e =
    elim (Bool-cases (is_bad_parent request (loaded request s))) [
      | inl bad ↦ absurd (cc (delete-refused fuel request stack s bad))
      | inr fine ↦ Spared-of_Removed s (ground arith) (delete-Removed fuel request stack s fine) e
    ]
