-- ===== src/Fat32/Sound/Deleting.antt =====
-- fat32.c: the invariant of the driver after a `delete` that returns 0.
use if2230_2023_hexos.Prelude.{
  ℕ, zero, suc, ◌+◌, ◌*◌, ◌/◌, ◌%◌, ◌≤◌, ◌≡◌, refl, inl, inr, ltb, leb, ◌==◌, Bool-cases, Option,
  none, some, Buf, ℤ, pos, arith,
}
use mathlib.Core.Path.{subst}
use if2230_2023_hexos.Stdmem.{memset}
use if2230_2023_hexos.Fat32.{DriverRequest, DriverState, Run, done, fault, diverges}
use if2230_2023_hexos.Fat32.Layout.{attribute, cluster_map_eq, set_cluster_map, set_user_attribute}
use if2230_2023_hexos.Fat32.Cluster.{write_clusters, byte_of-write_clusters}
use if2230_2023_hexos.Fat32.Search.{has_name, is_bad_parent}
use if2230_2023_hexos.Fat32.Init.Boot.{IsSigned}
use if2230_2023_hexos.Fat32.Read.{load_parent}
use if2230_2023_hexos.Fat32.Delete.{
  entry_cluster, clear_round, clear_loop, Next, go_on, return, stuck, out_of_bounds, continue_with,
  proceed, return_if_child, visit_named, remove_entry, delete_loop, delete,
}
use if2230_2023_hexos.Fat32.Sound.{IsSound}

-- The boot sector is kept, and no code but 2 is returned.
abbrev KeepsBoot : Next → Type 0
KeepsBoot (go_on s) = IsSigned s.disk
KeepsBoot (return code s) = code ≡ pos 2
KeepsBoot stuck = Unit {0}
KeepsBoot out_of_bounds = Unit {0}

-- The state of a call that returns 0.
abbrev SoundAtZero : Run (ℤ × DriverState) → Type 0
SoundAtZero (done (code, s)) = code ≡ pos 0 → IsSound s
SoundAtZero fault = Unit {0}
SoundAtZero diverges = Unit {0}

proceed-SoundAtZero :
    (n : Next) (rest : DriverState → Run (ℤ × DriverState))
    → KeepsBoot n
    → ((s : DriverState) → IsSigned s.disk → SoundAtZero (rest s))
    → SoundAtZero (proceed n rest)
proceed-SoundAtZero (go_on s) rest kept next = next s kept
proceed-SoundAtZero (return code s) rest two next = λ zero. cc
proceed-SoundAtZero stuck rest kept next = tt
proceed-SoundAtZero out_of_bounds rest kept next = tt

return_if_child-KeepsBoot :
    (o : Option ℕ) (s : DriverState) → IsSigned s.disk → KeepsBoot (return_if_child o s)
return_if_child-KeepsBoot none s signed = signed
return_if_child-KeepsBoot (some j) s signed = refl

module _ (request : DriverRequest) (low : 2 ≤ request.parent_cluster_number)
    (high : request.parent_cluster_number ≤ 512) where
  -- The parent's cluster is not the boot sector's.
  IsSigned-parent :
      (ptr disk : Buf)
      → IsSigned disk
      → IsSigned (write_clusters ptr request.parent_cluster_number 1 disk)
  IsSigned-parent ptr disk signed j l = ground (
    arith,
    byte_of-write_clusters ptr request.parent_cluster_number disk 0 j (omega arith) (omega arith),
    signed j l,
  )

  clear_loop-KeepsBoot :
      (fuel : ℕ) (stack : Buf) (k : ℕ) (s : DriverState)
      → IsSigned s.disk
      → KeepsBoot (continue_with (clear_loop fuel request stack k s))
  unfolding clear_loop clear_round
  clear_loop-KeepsBoot zero stack k s signed = tt
  clear_loop-KeepsBoot (suc fuel) stack k s signed =
      elim (Bool-cases (ltb k (request.buffer_size / 2048))) [
        | inl more ↦ rw more (
            clear_loop-KeepsBoot fuel stack ((k + 1) % 256) (clear_round request stack k s)
              (IsSigned-parent _ s.disk signed))
        | inr end ↦ rw end signed
      ]

  visit_named-KeepsBoot :
      (fuel : ℕ) (stack : Buf) (i : ℕ) (s : DriverState)
      → IsSigned s.disk
      → KeepsBoot (visit_named fuel request stack i s)
  unfolding visit_named
  visit_named-KeepsBoot fuel stack i s signed =
      elim (Bool-cases (attribute s.dir_table_buf i == 0b0001_0000)) [
        | inl dir ↦ rw dir (return_if_child-KeepsBoot _ _ signed)
        | inr other ↦ rw other (clear_loop-KeepsBoot fuel stack 1 s signed)
      ]

  remove_entry-SoundAtZero :
      (i : ℕ) (s : DriverState) → IsSigned s.disk → SoundAtZero (remove_entry request i s)
  unfolding remove_entry
  remove_entry-SoundAtZero i s signed =
      let cluster : ℕ = entry_cluster s.dir_table_buf i in
      let table : Buf = memset (set_user_attribute s.dir_table_buf i 0) (32 * i) 0 32 in
      let fat : Buf = set_cluster_map s.fat_table cluster 0 in
      let disk : Buf = write_clusters fat 1 1 s.disk in
      elim (Bool-cases (leb 512 cluster)) [
        | inl bad ↦ rw bad tt
        | inr fine ↦ rw fine (λ zero. record {
          signed = IsSigned-parent table disk (λ j l. ground (
            arith,
            byte_of-write_clusters fat 1 s.disk 0 j (omega arith) (omega arith),
            signed j l,
          ));
          synced = λ j h. cluster_map_eq _ _ j h λ a l. ground (
            arith,
            byte_of-write_clusters table request.parent_cluster_number disk 1 a (omega arith) l,
            byte_of-write_clusters fat 1 s.disk 1 a (omega arith) l,
          );
        })
      ]

  delete_loop-SoundAtZero :
      (k fuel : ℕ) (stack : Buf) (i : ℕ) (s : DriverState)
      → IsSigned s.disk
      → SoundAtZero (delete_loop k fuel request stack i s)
  unfolding delete_loop
  delete_loop-SoundAtZero zero fuel stack i s signed = λ zero. cc
  delete_loop-SoundAtZero (suc k) fuel stack i s signed =
      elim (Bool-cases (has_name request s.dir_table_buf i)) [
        | inl hit ↦ rw hit (
            proceed-SoundAtZero (visit_named fuel request stack i s)
              (delete_loop k fuel request stack (i + 1))
              (visit_named-KeepsBoot fuel stack i s signed)
              (λ s' kept. delete_loop-SoundAtZero k fuel stack (i + 1) s' kept))
        | inr miss ↦ rw miss (remove_entry-SoundAtZero i s signed)
      ]

delete-SoundAtZero :
    (fuel : ℕ) (request : DriverRequest) (stack : Buf) (s : DriverState)
    → IsSigned s.disk
    → SoundAtZero (delete fuel request stack s)
unfolding delete load_parent
delete-SoundAtZero fuel request stack s signed =
    elim (Bool-cases (is_bad_parent request (load_parent request s).dir_table_buf)) [
      | inl bad ↦ rw bad (λ zero. cc)
      | inr fine ↦ rw fine (
          delete_loop-SoundAtZero request (ground arith) (ground arith) 63 fuel stack 1
            (load_parent request s) signed)
    ]

pub delete-IsSound :
    (fuel : ℕ) (request : DriverRequest) (stack : Buf) (s : DriverState) {s' : DriverState}
    → IsSound s
    → delete fuel request stack s ≡ done (pos 0, s')
    → IsSound s'
delete-IsSound fuel request stack s sound e =
    subst SoundAtZero e (delete-SoundAtZero fuel request stack s sound.signed) refl
