-- ===== src/Fat32/Sound.antt =====
-- fat32.c: the invariant of the driver, with each of its operations.
pub mod Writing
pub mod Refused
pub mod Deleting
use if2230_2023_hexos.Prelude.{
  ℕ, ◌*◌, ◌≤◌, ◌<◌, ◌≡◌, ◌≢◌, refl, sym, ap, ◌∙◌, inl, inr, true, false, ltb, leb, ◌==◌, ◌||◌, not,
  if◌then◌else◌, Bool-cases, List, Option, none, some, Buf, ℤ, pos, minus_one, arith,
}
use mathlib.Core.Path.{subst}
use if2230_2023_hexos.Prelude.Scan.{first_index}
use if2230_2023_hexos.Fat32.{DriverRequest, DriverState, IsRequest, Run, done, fault, diverges}
use if2230_2023_hexos.Fat32.Layout.{cluster_map, cluster_low, filesize}
use if2230_2023_hexos.Fat32.Cluster.{disk_fat, byte_of}
use if2230_2023_hexos.Fat32.Search.{is_bad_parent, validate_write}
use if2230_2023_hexos.Fat32.Init.{fs_signature, initialize_filesystem_fat32}
use if2230_2023_hexos.Fat32.Init.Boot.{IsSigned, initialize-IsSynced}
use if2230_2023_hexos.Fat32.Read.{load_parent, copy_entry, read_found, read, read_directory}
use if2230_2023_hexos.Fat32.Read.Outcomes.{Unchanged}
use if2230_2023_hexos.Fat32.Write.{write}
use if2230_2023_hexos.Fat32.Write.Chain.{Empty, IsSynced, not-mem-Empty, Empty-mono}
use if2230_2023_hexos.Fat32.Write.Outcomes.{
  parent_table, ParentInUse, Framed, Written, bad_parent, exists, no_room, cut_short, file, folder,
}
use if2230_2023_hexos.Fat32.Write.Call.{write-Written}

-- The disk carries the signature, and the FAT in memory is the one on the disk.
pub record IsSound (s : DriverState) : Type 0 where
  pub signed : IsSigned s.disk
  pub synced : IsSynced s

pub IsSound-Unchanged : {s s' : DriverState} → Unchanged s s' → IsSound s → IsSound s'
IsSound-Unchanged (disk, fat) sound = record {
  signed = λ j l. ap (λ (d : Buf). d j) disk ∙ sound.signed j l;
  synced = λ j h.
      ap (λ (f : Buf). cluster_map f j) fat
      ∙ sound.synced j h
      ∙ ap (λ (d : Buf). disk_fat d j) (sym disk);
}

pub initialize-IsSound : (buf : Buf) (s : DriverState) → IsSound (initialize_filesystem_fat32 buf s)
initialize-IsSound buf s =
    let (signed, synced) = initialize-IsSynced buf s in record { signed = signed; synced = synced }

-- A reading call that returns has changed neither the disk nor the FAT.
abbrev Leaves : DriverState → Run (ℤ × Buf × DriverState) → Type 0
Leaves s (done (code, out, s')) = Unchanged s s'
Leaves s fault = Unit {0}
Leaves s diverges = Unit {0}

copy_entry-Leaves :
    (request : DriverRequest) (i count : ℕ) (s : DriverState)
    → Leaves s (copy_entry request i count s)
unfolding copy_entry
copy_entry-Leaves request i count s = elim (Bool-cases (ltb 2048 count)) [
  | inl over ↦ rw over tt
  | inr fits ↦ rw fits (refl, refl)
]

read_found-Leaves :
    (request : DriverRequest) (o : Option ℕ) (count : ℕ → ℕ) (s : DriverState)
    → Leaves s (read_found request o count s)
unfolding read_found
read_found-Leaves request none count s = (refl, refl)
read_found-Leaves request (some i) count s =
    elim (Bool-cases (ltb request.buffer_size (filesize s.dir_table_buf i))) [
      | inl over ↦ rw over (refl, refl)
      | inr fits ↦ rw fits (copy_entry-Leaves request i (count i) s)
    ]

Leaves-load :
    (request : DriverRequest) (s : DriverState) (r : Run (ℤ × Buf × DriverState))
    → Leaves (load_parent request s) r
    → Leaves s r
unfolding load_parent
Leaves-load request s (done (code, out, s')) l = l
Leaves-load request s fault l = tt
Leaves-load request s diverges l = tt

module _ (request : DriverRequest) (s : DriverState) where
  read-Leaves : Leaves s (read request s)
  unfolding read
  read-Leaves =
      Leaves-load request s (read request s)
        (elim (Bool-cases (is_bad_parent request (load_parent request s).dir_table_buf)) [
          | inl bad ↦ rw bad (refl, refl)
          | inr fine ↦ rw fine (read_found-Leaves request _ _ _)
        ])

  read_directory-Leaves : Leaves s (read_directory request s)
  unfolding read_directory
  read_directory-Leaves =
      Leaves-load request s (read_directory request s)
        (elim (Bool-cases (is_bad_parent request (load_parent request s).dir_table_buf)) [
          | inl bad ↦ rw bad (refl, refl)
          | inr fine ↦ rw fine (read_found-Leaves request _ _ _)
        ])

  pub read-Unchanged :
      {code : ℤ} {out : Buf} {s' : DriverState}
      → read request s ≡ done (code, out, s')
      → Unchanged s s'
  read-Unchanged e = subst (Leaves s) e read-Leaves

  pub read_directory-Unchanged :
      {code : ℤ} {out : Buf} {s' : DriverState}
      → read_directory request s ≡ done (code, out, s')
      → Unchanged s s'
  read_directory-Unchanged e = subst (Leaves s) e read_directory-Leaves

  pub read-IsSound :
      {code : ℤ} {out : Buf} {s' : DriverState}
      → IsSound s
      → read request s ≡ done (code, out, s')
      → IsSound s'
  read-IsSound sound e = IsSound-Unchanged (read-Unchanged e) sound

  pub read_directory-IsSound :
      {code : ℤ} {out : Buf} {s' : DriverState}
      → IsSound s
      → read_directory request s ≡ done (code, out, s')
      → IsSound s'
  read_directory-IsSound sound e = IsSound-Unchanged (read_directory-Unchanged e) sound
