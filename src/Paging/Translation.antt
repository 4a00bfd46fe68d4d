-- ===== src/Paging/Translation.antt =====
-- The address translation that the page directory gives.
use if2230_2023_hexos.Prelude.{
  ℕ, ◌+◌, ◌*◌, ◌%◌, ◌^◌, ◌<◌, ◌/◌, ◌≡◌, refl, ap, ◌∙◌, inl, inr, true, ltb, ◌==◌, if◌then◌else◌,
  Bool-cases, eq_of_beq, List, [], ◌∷◌, ℤ, pos, arith,
}
use if2230_2023_hexos.Paging.{
  PageDirectoryEntryFlag, PageState, page_index, user_flag, initial_paging,
  update_page_directory_entry, allocate_single_user_page_frame,
}

-- What the processor finds for an address: nothing, a page table, or a place in a 4 MiB page with the
-- page's bits for the user and for writing.
pub data Target : Type 0 where
  not_present : Target
  page_table : Target
  mapped : (user write address : ℕ) → Target

-- The frame of a 4 MiB page has the address bits from 32 on in `higher_address`.
abbrev pub target_of : PageDirectoryEntryFlag → ℕ → ℕ → Target
target_of flag frame offset =
    if flag.present_bit == 1
    then (if flag.use_pagesize_4_mb == 1
        then mapped flag.user_supervisor flag.write_bit (frame + offset)
        else page_table)
    else not_present

unfoldable pub translate : PageState → ℕ → Target
translate s v =
    let entry = s.table (page_index v) in
    target_of entry.flag (entry.higher_address * 2 ^ 32 + entry.lower_address * 2 ^ 22) (v % 2 ^ 22)

-- After an update with an aligned 32-bit frame address of an entry without higher address bits, the
-- addresses of that page are treated as the flag says (not present, a page table, or the given frame,
-- byte by byte, with the flag's rights), all other addresses are translated as before, and the page is
-- flushed.
pub translate-update :
    (physical virtual : ℕ) (flag : PageDirectoryEntryFlag) (s : PageState) (v : ℕ)
    → physical < 2 ^ 32
    → physical % 2 ^ 22 ≡ 0
    → (s.table (page_index virtual)).higher_address ≡ 0
    → let s' = update_page_directory_entry physical virtual flag s in
      (translate s' v ≡ (
        if page_index v == page_index virtual
        then target_of flag physical (v % 2 ^ 22)
        else translate s v))
      × (s'.flushed ≡ virtual ∷ s.flushed)
unfolding translate update_page_directory_entry
translate-update physical virtual flag s v small aligned none =
    elim (Bool-cases (page_index v == page_index virtual)) [
      | inl here ↦
          let same : page_index v ≡ page_index virtual = eq_of_beq _ _ here in
          let frame : (s.table (page_index v)).higher_address * 2 ^ 32
                + physical / 2 ^ 22 % 1024 * 2 ^ 22
              ≡ physical =
            ground (arith, ap (λ i. (s.table i).higher_address) same, none) in
          rw (here, frame) (refl, refl)
      | inr other ↦ rw other (refl, refl)
    ]

-- The allocation of one page after the other, with the results.
unfoldable pub allocate_all : List ℕ → PageState → List ℤ × PageState
allocate_all [] s = ([], s)
allocate_all (v ∷ vs) s =
    let (r, s') = allocate_single_user_page_frame v s in
    let (rs, s'') = allocate_all vs s' in (r ∷ rs, s'')

last_available-allocate :
    (v : ℕ) (s : PageState)
    → (allocate_single_user_page_frame v s).1.last_available_physical_addr
      ≡ s.last_available_physical_addr
unfolding allocate_single_user_page_frame update_page_directory_entry
last_available-allocate v s = ground arith

last_available-allocate_all :
    (vs : List ℕ) (s : PageState)
    → (allocate_all vs s).1.last_available_physical_addr ≡ s.last_available_physical_addr
unfolding allocate_all
last_available-allocate_all [] s = refl
last_available-allocate_all (v ∷ vs) s = ground (
  arith,
  last_available-allocate_all vs (allocate_single_user_page_frame v s).1,
  last_available-allocate v s,
)

higher_address-allocate :
    (v : ℕ) (s : PageState) (i : ℕ)
    → ((allocate_single_user_page_frame v s).1.table i).higher_address ≡ (s.table i).higher_address
unfolding allocate_single_user_page_frame update_page_directory_entry
higher_address-allocate v s i = ground arith

higher_address-allocate_all :
    (vs : List ℕ) (s : PageState) (i : ℕ)
    → ((allocate_all vs s).1.table i).higher_address ≡ (s.table i).higher_address
unfolding allocate_all
higher_address-allocate_all [] s i = refl
higher_address-allocate_all (v ∷ vs) s i =
    higher_address-allocate_all vs (allocate_single_user_page_frame v s).1 i
    ∙ higher_address-allocate v s i

last_available-initial : initial_paging.last_available_physical_addr ≡ 2 ^ 22
unfolding initial_paging
last_available-initial = refl

higher_address-initial : (i : ℕ) → (initial_paging.table i).higher_address ≡ 0
unfolding initial_paging
higher_address-initial i = ground arith

-- However many pages have been allocated since the start, the next allocation succeeds and maps its
-- page, for the user and for writing, to the frame at 4 MiB, the one that the first allocation has
-- mapped.
pub allocate-same_frame :
    (vs : List ℕ) (virtual v : ℕ)
    → page_index v ≡ page_index virtual
    → let (r, s) = allocate_single_user_page_frame virtual (allocate_all vs initial_paging).1 in
      (r ≡ pos 0) × (translate s v ≡ mapped 1 1 (2 ^ 22 + v % 2 ^ 22))
unfolding allocate_single_user_page_frame
allocate-same_frame vs virtual v e =
    let s = (allocate_all vs initial_paging).1 in
    let frame : s.last_available_physical_addr ≡ 2 ^ 22 =
      last_available-allocate_all vs initial_paging ∙ last_available-initial in
    let none : (s.table (page_index virtual)).higher_address ≡ 0 =
      higher_address-allocate_all vs initial_paging (page_index virtual)
      ∙ higher_address-initial (page_index virtual) in
    let room : ltb s.last_available_physical_addr 0x07FE_0000 ≡ true = ground arith in
    let here : (page_index v == page_index virtual) ≡ true = ground arith in
    let moved =
      (translate-update s.last_available_physical_addr virtual user_flag s v (omega arith)
        (omega arith) none).0 in
    rw room (refl, moved ∙ rw (here, frame) refl)
