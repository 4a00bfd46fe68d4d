-- ===== src/Fat32/Write/Call.antt =====
-- fat32.c: a whole call of `write`, put together from its branches.
use if2230_2023_hexos.Prelude.{
  ℕ, ◌≤◌, ◌<◌, ◌≡◌, ◌≢◌, refl, sym, ◌∙◌, inl, inr, false, ◌==◌, ltb, Bool-cases, List, [], ◌∷◌, ℤ,
  arith,
}
use if2230_2023_hexos.Fat32.{DriverRequest, DriverState, IsRequest, Run}
use if2230_2023_hexos.Fat32.Layout.{user_attribute}
use if2230_2023_hexos.Fat32.Cluster.{disk_fat}
use if2230_2023_hexos.Fat32.Search.{
  is_bad_parent, is_exist, find_empty_cluster, find_empty_entry, validate_write,
}
use if2230_2023_hexos.Fat32.Search.Laws.{
  FirstEmpty, none_left, first_empty, find_empty_cluster-FirstEmpty, FirstFree, first_free,
  find_empty_entry-FirstFree, is_exist-match, is_exist-none,
}
use if2230_2023_hexos.Fat32.Write.{write_folder, write_found, write}
use if2230_2023_hexos.Fat32.Write.Folder.{write_folder-FolderMade}
use if2230_2023_hexos.Fat32.Write.Loop.{Outcome, stored, full}
use if2230_2023_hexos.Fat32.Write.Ends.{write_file-Outcome}
use if2230_2023_hexos.Fat32.Write.Chain.{mem, Empty, IsSynced, Empty-mono, Empty-transfer}
use if2230_2023_hexos.Fat32.Write.Outcomes.{
  parent_table, ParentInUse, Allowed, Written, bad_parent, exists, no_room, cut_short, file, folder,
}
use if2230_2023_hexos.Fat32.Write.Parent.{
  with_entry, fat-entry, byte-entry, EntryAdded-of, Framed-of, not-mem-parent,
}

-- A cluster and an entry have been found.
module _ (request : DriverRequest) (c i : ℕ) (s : DriverState) (r : IsRequest request)
    (low : 2 ≤ request.parent_cluster_number) (high : request.parent_cluster_number ≤ 512)
    (used : ParentInUse request s) (synced : IsSynced s) (c_low : 2 ≤ c) (c_high : c < 512)
    (c_empty : disk_fat s.disk c ≡ 0) (c_first : (l : ℕ) → 2 ≤ l → l < c → disk_fat s.disk l ≢ 0)
    (first : 1 ≤ i) (bound : i < 64)
    (free : user_attribute (parent_table request s) i ≢ 0b1010_1010)
    (allowed : Allowed request s) where
  abbrev t : DriverState
  t = with_entry request c i s

  before : (lo : ℕ) (cs : List ℕ) → Empty t.disk lo cs → Empty s.disk lo cs
  before lo cs =
      Empty-transfer t.disk s.disk lo cs (λ j l h. sym (fat-entry request c i s low high j h))

  Written-of_Outcome :
      {o : Run (ℤ × DriverState)}
      → 0 < request.buffer_size
      → Outcome request c request.buffer_size 0 t o
      → Written request s o
  Written-of_Outcome some_left (stored cs st) =
      let out : mem request.parent_cluster_number cs ≡ false =
        not-mem-parent request c i s low high c cs used (before c cs st.empty) in
      file c i cs some_left
        (EntryAdded-of request c i s low high r c_high first bound free
          (λ x l. st.spares.bytes request.parent_cluster_number x l (omega arith) out))
        st.chain st.holds (Empty-mono s.disk 2 c cs c_low (before c cs st.empty)) st.enough st.tight
        (Framed-of request c i s low high st.spares) allowed
  Written-of_Outcome some_left (full cs e few rest spares part) =
      let out : mem request.parent_cluster_number cs ≡ false =
        not-mem-parent request c i s low high c cs used (before c cs e) in
      cut_short c i cs c_low
        (EntryAdded-of request c i s low high r c_high first bound free
          (λ x l. spares.bytes request.parent_cluster_number x l (omega arith) out))
        (before c cs e) few
        (λ j l h gone. ground (arith, rest j, c_first j l, fat-entry request c i s low high j h))
        (Framed-of request c i s low high spares) part allowed

  IsSynced-entry : IsSynced t
  IsSynced-entry j h = synced j h ∙ sym (fat-entry request c i s low high j h)

  Written-folder : request.buffer_size ≡ 0 → Written request s (write_folder request c t)
  Written-folder none =
      let (s', e, made) = write_folder-FolderMade request c t c_low c_high IsSynced-entry in
      let cs : Empty s.disk 2 (c ∷ []) = (c_low, c_high, c_empty, tt) in
      let out : mem request.parent_cluster_number (c ∷ []) ≡ false =
        not-mem-parent request c i s low high 2 (c ∷ []) used cs in
      rw e (
        folder c i none
          (EntryAdded-of request c i s low high r c_high first bound free
            (λ x l. made.spares.bytes request.parent_cluster_number x l (omega arith) out))
          made.head made.marked
          (λ a l h. ground (arith, made.stale a l h, byte-entry request c i s low high c a h, out))
          cs (Framed-of request c i s low high made.spares) allowed)

  write_found-Written :
      Written request s
        (write_found request c i (record s { dir_table_buf = parent_table request s }))
  unfolding write_found
  write_found-Written = elim (Bool-cases (request.buffer_size == 0)) [
    | inr size ↦ rw size (
        Written-of_Outcome (ground arith) (
          write_file-Outcome request.buffer_size request c request.buffer_size 0 t (omega arith)
            (ground arith) c_low c_high (fat-entry request c i s low high c c_high ∙ c_empty)
            (omega (arith, r.size_width))))
    | inl none ↦ rw none (Written-folder (ground arith))
  ]

module _ (request : DriverRequest) (s : DriverState) (r : IsRequest request)
    (used : ParentInUse request s) (synced : IsSynced s) where
  -- The parent is fine and the name is new.
  write_room :
      is_bad_parent request (parent_table request s) ≡ false
      → ltb 0 (is_exist request (parent_table request s)) ≡ false
      → FirstEmpty s.fat_table 2 (find_empty_cluster s.fat_table)
      → FirstFree (parent_table request s) (find_empty_entry (parent_table request s))
      → Written request s (write request s)
  unfolding write validate_write
  write_room fine new (none_left e all) f =
      rw (fine, new, e)
        (no_room (inl (λ l a h. ground (arith, all l, synced l))) refl refl
          (fine, is_exist-none request (parent_table request s) new))
  write_room fine new (first_empty low high empty before) (FirstFree.none_left e all) =
      let found : (find_empty_cluster s.fat_table == 0) ≡ false = ground arith in
      rw (fine, new, found, e)
        (no_room (inr all) refl refl (fine, is_exist-none request (parent_table request s) new))
  write_room fine new (first_empty low high empty before) (first_free first bound free _) =
      let found : (find_empty_cluster s.fat_table == 0) ≡ false = ground arith in
      let place : (find_empty_entry (parent_table request s) == 0) ≡ false = ground arith in
      let parent_low : 2 ≤ request.parent_cluster_number = ground arith in
      let parent_high : request.parent_cluster_number ≤ 512 = ground arith in
      rw (fine, new, found, place)
        (write_found-Written request (find_empty_cluster s.fat_table)
          (find_empty_entry (parent_table request s)) s r parent_low parent_high used synced low
          high (sym (synced (find_empty_cluster s.fat_table) high) ∙ empty)
          (λ l a b. ground (arith, before l, synced l)) first bound free
          (fine, is_exist-none request (parent_table request s) new))

  -- With 32-bit numbers in the request, a FAT in memory that is the one on the disk, and a parent in
  -- use, `write` always returns, and its result is one of these: 2 for a parent that is no directory,
  -- with nothing changed; 1 for an entry that exists, with nothing changed; -1 with nothing changed if no
  -- cluster or no entry is free; -1 with the entry made if the empty clusters are too few: they then
  -- hold the file's first bytes, each but the last leads to the next one in the FAT, and the last one is
  -- still marked empty; 0 with the entry made and the file's bytes in a chain of formerly empty clusters;
  -- 0 with the entry made and a folder in a formerly empty cluster, its own entry first and the other 63
  -- as they were. For -1 and 0 the parent is a directory in which no entry is the requested one, or entry
  -- 0 is. The last three outcomes leave all other clusters and FAT entries as they were, and the FAT in
  -- memory is again the one on the disk.
  pub write-Written : Written request s (write request s)
  unfolding write validate_write
  write-Written = elim (Bool-cases (is_bad_parent request (parent_table request s))) [
    | inl bad ↦ rw bad (bad_parent bad refl refl)
    | inr fine ↦ elim (Bool-cases (ltb 0 (is_exist request (parent_table request s)))) [
      | inl old ↦
          let (bound, same) = is_exist-match request (parent_table request s) (ground arith) in
          rw (fine, old)
            (exists (is_exist request (parent_table request s)) (ground arith) bound same refl refl)
      | inr new ↦
          write_room fine new (find_empty_cluster-FirstEmpty s.fat_table)
            (find_empty_entry-FirstFree (parent_table request s))
    ]
  ]
