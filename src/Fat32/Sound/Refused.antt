-- ===== src/Fat32/Sound/Refused.antt =====
-- fat32.c: a `write` that returns a code above 0.
use if2230_2023_hexos.Prelude.{
  ℕ, zero, suc, ◌-◌, ◌+◌, ◌||◌, ◌≡◌, refl, inl, inr, not, Buf, ltb, leb, ◌==◌, Bool-cases, ℤ, pos,
  negsuc,
}
use mathlib.Core.Path.{subst}
use if2230_2023_hexos.Fat32.{DriverRequest, DriverState, Run, done, fault, diverges}
use if2230_2023_hexos.Fat32.Search.{
  find_empty_cluster, find_next_empty_cluster, find_empty_entry, validate_write,
}
use if2230_2023_hexos.Fat32.Read.Outcomes.{Unchanged}
use if2230_2023_hexos.Fat32.Write.{
  write_chunk, save_fat, write_file, write_folder, write_found, write,
}
use if2230_2023_hexos.Fat32.Write.Outcomes.{parent_table}

-- A result above 0 comes with an unchanged disk and FAT.
abbrev Refuses : DriverState → Run (ℤ × DriverState) → Type 0
Refuses s (done (pos zero, t)) = Unit {0}
Refuses s (done (pos (suc n), t)) = Unchanged s t
Refuses s (done (negsuc n, t)) = Unit {0}
Refuses s fault = Unit {0}
Refuses s diverges = Unit {0}

module _ (s : DriverState) (r : DriverRequest) where
  write_folder-Refuses : (c : ℕ) (t : DriverState) → Refuses s (write_folder r c t)
  unfolding write_folder
  write_folder-Refuses c t = elim (Bool-cases (ltb c 512)) [
    | inl inside ↦ rw inside tt
    | inr outside ↦ rw outside tt
  ]

  write_file-Refuses :
      (fuel c size n : ℕ) (t : DriverState) → Refuses s (write_file fuel r c size n t)
  unfolding write_file
  write_file-Refuses zero c size n t = tt
  write_file-Refuses (suc fuel) c size n t =
      let u : DriverState = write_chunk r c n t in
      let next : ℕ = find_next_empty_cluster u.fat_table c in
      elim (Bool-cases (size == 0)) [
        | inl all ↦ rw all tt
        | inr more ↦ elim (Bool-cases (leb 512 c)) [
          | inl out ↦ rw (more, out) tt
          | inr in_map ↦ elim (Bool-cases (leb size 2048)) [
            | inl fits ↦ rw (more, in_map, fits) tt
            | inr long ↦ elim (Bool-cases (next == 0)) [
              | inl none ↦ rw (more, in_map, long, none) tt
              | inr some ↦
                  rw (more, in_map, long, some)
                    (write_file-Refuses fuel next (size - 2048) (n + 1) (save_fat c next u))
            ]
          ]
        ]
      ]

  write_found-Refuses : (c i : ℕ) (t : DriverState) → Refuses s (write_found r c i t)
  unfolding write_found
  write_found-Refuses c i t = elim (Bool-cases (r.buffer_size == 0)) [
    | inl none ↦ rw none (write_folder-Refuses c _)
    | inr some ↦ rw some (write_file-Refuses r.buffer_size c r.buffer_size 0 _)
  ]

refused-Refuses :
    (s : DriverState) (table : Buf) (code : ℕ)
    → Refuses s (done (pos code, record s { dir_table_buf = table }))
refused-Refuses s table zero = tt
refused-Refuses s table (suc n) = (refl, refl)

write-Refuses : (s : DriverState) (r : DriverRequest) → Refuses s (write r s)
unfolding write
write-Refuses s r = elim (Bool-cases (not (validate_write r (parent_table r s) == 0))) [
  | inl invalid ↦ rw invalid (refused-Refuses s (parent_table r s) _)
  | inr valid ↦
      elim (Bool-cases
        ((find_empty_cluster s.fat_table == 0) || (find_empty_entry (parent_table r s) == 0))) [
          | inl full ↦ rw (valid, full) tt
          | inr room ↦ rw (valid, room) (write_found-Refuses s r _ _ _)
        ]
]

-- Whatever the request and the state, a `write` that returns a code above 0 changes neither the disk
-- nor the FAT.
pub write-Unchanged :
    {n : ℕ} (r : DriverRequest) (s : DriverState) {t : DriverState}
    → write r s ≡ done (pos (suc n), t)
    → Unchanged s t
write-Unchanged r s e = subst (Refuses s) e (write-Refuses s r)
