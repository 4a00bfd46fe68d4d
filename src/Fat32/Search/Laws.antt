-- ===== src/Fat32/Search/Laws.antt =====
-- What the searches of the FAT and of a directory table find.
use if2230_2023_hexos.Prelude.{
  ℕ, ◌+◌, ◌-◌, ◌≤◌, ◌<◌, ◌≡◌, ◌≢◌, ◌⊎◌, inl, inr, refl, true, false, leb, ltb, Option, Buf, arith,
}
use mathlib.Core.Path.{subst}
use if2230_2023_hexos.Prelude.Scan.{get_or, First, found, missing, first_index-First}
use if2230_2023_hexos.Fat32.Layout.{cluster_map, user_attribute}
use if2230_2023_hexos.Fat32.Search.{
  is_empty_cluster, find_empty_cluster, find_next_empty_cluster, is_empty_entry, find_empty_entry,
  is_same_entry, is_exist,
}
use if2230_2023_hexos.Fat32.{DriverRequest}

-- `r` is the first empty cluster from `lo` on, or 0 if there is none.
pub data FirstEmpty (fat : Buf) (lo r : ℕ) : Type 0 where
  none_left : r ≡ 0 → ((l : ℕ) → lo ≤ l → l < 512 → cluster_map fat l ≢ 0) → FirstEmpty fat lo r
  first_empty :
      lo ≤ r
      → r < 512
      → cluster_map fat r ≡ 0
      → ((l : ℕ) → lo ≤ l → l < r → cluster_map fat l ≢ 0)
      → FirstEmpty fat lo r

FirstEmpty-of_First :
    (fat : Buf) (lo : ℕ) {o : Option ℕ}
    → First (is_empty_cluster fat) lo 512 o
    → FirstEmpty fat lo (get_or o 0)
FirstEmpty-of_First fat lo (found j low high hit before) =
    first_empty low high (ground arith) (λ l a b. ground (arith, before l))
FirstEmpty-of_First fat lo (missing all) = none_left refl (λ l a b. ground (arith, all l))

-- `findEmptyCluster` returns the lowest empty cluster of 2 to 511, and 0 exactly if all are in use.
pub find_empty_cluster-FirstEmpty : (fat : Buf) → FirstEmpty fat 2 (find_empty_cluster fat)
unfolding find_empty_cluster
find_empty_cluster-FirstEmpty fat =
    FirstEmpty-of_First fat 2 (first_index-First (is_empty_cluster fat) 510 2 512 refl)

-- For `i` of 2 to 511 `findNextEmptyCluster` returns the lowest empty cluster above `i` and below 512,
-- and 0 exactly if all those are in use.
pub find_next_empty_cluster-FirstEmpty :
    (fat : Buf) (i : ℕ) → 2 ≤ i → i < 512 → FirstEmpty fat (i + 1) (find_next_empty_cluster fat i)
unfolding find_next_empty_cluster
find_next_empty_cluster-FirstEmpty fat i low high =
    let above : ltb i 2 ≡ false = ground arith in
    let below : leb 512 i ≡ false = ground arith in
    rw (below, above)
      (FirstEmpty-of_First fat (i + 1)
        (first_index-First (is_empty_cluster fat) (512 - (i + 1)) (i + 1) 512 (omega arith)))

-- `r` is the first entry from 1 on that is not marked as in use, or 0 if all of 1 to 63 are.
pub data FirstFree (table : Buf) (r : ℕ) : Type 0 where
  none_left :
      r ≡ 0 → ((l : ℕ) → 1 ≤ l → l < 64 → user_attribute table l ≡ 0b1010_1010) → FirstFree table r
  first_free :
      1 ≤ r
      → r < 64
      → user_attribute table r ≢ 0b1010_1010
      → ((l : ℕ) → 1 ≤ l → l < r → user_attribute table l ≡ 0b1010_1010)
      → FirstFree table r

FirstFree-of_First :
    (table : Buf) {o : Option ℕ}
    → First (is_empty_entry table) 1 64 o
    → FirstFree table (get_or o 0)
FirstFree-of_First table (found j low high hit before) =
    first_free low high (ground arith) (λ l a b. ground (arith, before l))
FirstFree-of_First table (missing all) = none_left refl (λ l a b. ground (arith, all l))

-- `findEmptyEntry` returns the lowest free entry of 1 to 63, and 0 exactly if there is none.
pub find_empty_entry-FirstFree : (table : Buf) → FirstFree table (find_empty_entry table)
unfolding find_empty_entry
find_empty_entry-FirstFree table =
    FirstFree-of_First table (first_index-First (is_empty_entry table) 63 1 64 refl)

-- `isExist` returns an index above 0 only if that entry has the request's name and, for a file, its
-- extension.
pub is_exist-match :
    (request : DriverRequest) (table : Buf)
    → 0 < is_exist request table
    → (is_exist request table < 64) × (is_same_entry request table (is_exist request table) ≡ true)
unfolding is_exist
is_exist-match request table h =
    match_of_First (first_index-First (is_same_entry request table) 64 0 64 refl) h
  where
    match_of_First :
        {o : Option ℕ}
        → First (is_same_entry request table) 0 64 o
        → 0 < get_or o 0
        → (get_or o 0 < 64) × (is_same_entry request table (get_or o 0) ≡ true)
    match_of_First (found j low high hit before) p = (high, hit)
    match_of_First (missing all) p = absurd (omega arith)

-- If it returns 0, entry 0 is the requested one, or none is.
pub is_exist-none :
    (request : DriverRequest) (table : Buf)
    → ltb 0 (is_exist request table) ≡ false
    → (is_same_entry request table 0 ≡ true)
      ⊎ ((l : ℕ) → l < 64 → is_same_entry request table l ≡ false)
unfolding is_exist
is_exist-none request table h =
    none_of_First (first_index-First (is_same_entry request table) 64 0 64 refl) h
  where
    none_of_First :
        {o : Option ℕ}
        → First (is_same_entry request table) 0 64 o
        → ltb 0 (get_or o 0) ≡ false
        → (is_same_entry request table 0 ≡ true)
          ⊎ ((l : ℕ) → l < 64 → is_same_entry request table l ≡ false)
    none_of_First (found j low high hit before) p =
        let at : j ≡ 0 = ground arith in
        inl (subst (λ e. is_same_entry request table e ≡ true) at hit)
    none_of_First (missing all) p = inr (λ l b. all l (omega arith) b)
