-- ===== src/Fat32/Directory/Insertions.antt =====
-- fat32.c: `write` as the insertion into a directory's map.
use if2230_2023_hexos.Prelude.{
  ℕ, zero, suc, ◌+◌, ◌*◌, ◌≤◌, ◌<◌, ◌≡◌, ◌≢◌, refl, sym, ap, ◌∙◌, ◌⊎◌, List, [], inl, inr, true,
  false, ltb, Option, none, some, Buf, ℤ, pos, minus_one, arith,
}
use if2230_2023_hexos.Prelude.Scan.{first_index, get_or}
use if2230_2023_hexos.Fat32.{DriverRequest, DriverState, IsRequest, Run, done}
use if2230_2023_hexos.Fat32.Cluster.{byte_of, disk_fat}
use if2230_2023_hexos.Fat32.Layout.{user_attribute}
use if2230_2023_hexos.Fat32.Write.Chain.{length, mem}
use if2230_2023_hexos.Fat32.Search.{is_same_entry, is_exist, is_bad_parent, validate_write}
use if2230_2023_hexos.Fat32.Read.{load_parent, is_file_entry}
use if2230_2023_hexos.Fat32.Read.Outcomes.{Unchanged}
use if2230_2023_hexos.Fat32.Write.{write}
use if2230_2023_hexos.Fat32.Write.Outcomes.{
  parent_table, Written, bad_parent, exists, no_room, cut_short, file, folder,
}
use if2230_2023_hexos.Fat32.Roundtrip.Table.{is_file_entry_eq, is_same_entry-file}
use if2230_2023_hexos.Fat32.Write.Call.{write-Written}
use if2230_2023_hexos.Fat32.Directory.{entry_for, Shows, Tidy}
use if2230_2023_hexos.Fat32.Directory.Answers.{fine, loaded-table}
use if2230_2023_hexos.Fat32.Directory.Entries.{first_index-congr, entry_for-match, entry_for-none}

-- The directory has no free entry, or the empty clusters, which are all among `cs`, are too few.
abbrev pub NoRoom : DriverRequest → DriverState → Type 0
NoRoom r s =
    ((l : ℕ)
      → 1 ≤ l
      → l < 64
      → user_attribute (byte_of s.disk r.parent_cluster_number) l ≡ 0b1010_1010)
    ⊎ ((cs : List ℕ) × (2048 * length cs < r.buffer_size)
        × ((j : ℕ) → 2 ≤ j → j < 512 → mem j cs ≡ false → disk_fat s.disk j ≢ 0))

-- What a call of `write` for the file `r` gives, by what the map has for its name.
pub data Inserted (r : DriverRequest) (s : DriverState)
    : Option DriverRequest → Run (ℤ × DriverState) → Type 0 where
  taken :
      {s' : DriverState} {old : DriverRequest}
      → Unchanged s s'
      → Inserted r s (some old) (done (pos 1, s'))
  stored : {s' : DriverState} → Inserted r s none (done (pos 0, s'))
  full : {s' : DriverState} → NoRoom r s → Inserted r s none (done (minus_one, s'))

module _ (r : DriverRequest) (s : DriverState) (tidy : Tidy r.parent_cluster_number s)
    (size : 0 < r.buffer_size)
    (own : is_file_entry r (byte_of s.disk r.parent_cluster_number) 0 ≡ false) where
  abbrev table : Buf
  table = byte_of s.disk r.parent_cluster_number

  test-table : (l : ℕ) → l < 64 → is_same_entry r (parent_table r s) l ≡ is_file_entry r table l
  unfolding load_parent
  test-table l bound =
      is_same_entry-file r (parent_table r s) l (omega arith)
      ∙ is_file_entry_eq r table (parent_table r s) l
          (λ a inside. loaded-table r s tidy (32 * l + a) (omega arith))

  -- `isExist` makes the search of `read`.
  search-entry_for : first_index (is_same_entry r (parent_table r s)) 64 0 ≡ entry_for r table
  search-entry_for =
      first_index-congr (is_file_entry r table) (is_same_entry r (parent_table r s)) 64 0
        (λ l low bound. test-table l (omega arith))

  parent_fine : is_bad_parent r (parent_table r s) ≡ false
  unfolding load_parent
  parent_fine = fine r s tidy

  positive_of_hit : (i : ℕ) → is_file_entry r table i ≡ true → 0 < i
  positive_of_hit zero hit = absurd cc
  positive_of_hit (suc i) hit = omega arith

  is_exist-entry_for : is_exist r (parent_table r s) ≡ get_or (entry_for r table) 0
  unfolding is_exist
  is_exist-entry_for = ap (λ o. get_or o 0) search-entry_for

  Inserted-of_Written :
      {o : Run (ℤ × DriverState)} → entry_for r table ≡ none → Written r s o → Inserted r s none o
  unfolding load_parent
  Inserted-of_Written none_found (bad_parent bad d f) = absurd (cc (bad, parent_fine))
  Inserted-of_Written none_found (exists i low high hit d f) =
      absurd (cc (hit, test-table i high, entry_for-none r table none_found i high))
  Inserted-of_Written none_found (no_room (inl used) d f _) =
      full (inr ([], omega arith, λ j low high _. used j low high))
  Inserted-of_Written none_found (no_room (inr used) d f _) = full (
      inl (λ l low high. sym (loaded-table r s tidy (32 * l + 12) (omega arith)) ∙ used l low high))
  Inserted-of_Written none_found (cut_short c i cs low entry e1 few rest frame _ _) =
      full (inr (cs, few, rest))
  Inserted-of_Written none_found (folder c i no_size entry head marked stale empty frame _) =
      absurd (omega arith)
  Inserted-of_Written none_found (file c i cs _ entry chain holds empty _ _ frame _) = stored

  pub write-Inserted :
      (o : Option DriverRequest)
      → IsRequest r
      → Shows r.parent_cluster_number s.disk r o
      → Inserted r s o (write r s)
  unfolding write validate_write
  write-Inserted none valid none_found =
      Inserted-of_Written none_found (write-Written r s valid (λ _. tidy.in_use) tidy.synced)
  write-Inserted (some old) valid (i, finds, _, _, _) =
      let (bound, hit) = entry_for-match r table finds in
      let exist : is_exist r (parent_table r s) ≡ i =
        is_exist-entry_for ∙ ap (λ o. get_or o 0) finds in
      let above : ltb 0 (is_exist r (parent_table r s)) ≡ true =
        ground (arith, positive_of_hit i hit) in
      rw (parent_fine, above) (taken (refl, refl))
