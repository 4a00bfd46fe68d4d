-- ===== src/Fat32/Directory/Entries.antt =====
-- fat32.c: what the loop of `read` finds in a directory table, by names.
use if2230_2023_hexos.Prelude.{
  ℕ, zero, suc, ◌+◌, ◌*◌, ◌≤◌, ◌<◌, ◌≡◌, ◌≢◌, refl, sym, ◌∙◌, inl, inr, Bool, true, false,
  Bool-cases, Option, none, some, Buf, is_zero, load32_eq, arith,
}
use if2230_2023_hexos.Prelude.Scan.{first_index, First, found, missing, first_index-First}
use if2230_2023_hexos.Stdmem.{memcmp}
use if2230_2023_hexos.Stdmem.Compare.{Agree-of_memcmp, memcmp_of_Agree}
use if2230_2023_hexos.Fat32.{DriverRequest}
use if2230_2023_hexos.Fat32.Search.{has_name, has_ext, is_directory}
use if2230_2023_hexos.Fat32.Read.{is_file_entry}
use if2230_2023_hexos.Fat32.Write.Entry.{Describes}
use if2230_2023_hexos.Fat32.Roundtrip.Table.{is_file_entry-SameFile}
use if2230_2023_hexos.Fat32.Directory.{agree, same_name, entry_for}

agree_sound : (k : ℕ) (a b : Buf) → agree k a b ≡ true → (j : ℕ) → j < k → a j ≡ b j
unfolding agree
agree_sound zero a b h j l = absurd (omega arith)
agree_sound (suc k) a b h j l =
    ground (arith, agree_sound k a b, agree_sound k a b (ground arith) j)

agree_complete : (k : ℕ) (a b : Buf) → ((j : ℕ) → j < k → a j ≡ b j) → agree k a b ≡ true
unfolding agree
agree_complete zero a b h = refl
agree_complete (suc k) a b h = ground (arith, h k, agree_complete k a b (λ j l. h j (omega arith)))

-- The loop sees no more of a test than its values below the end.
pub first_index-congr :
    (test test' : ℕ → Bool) (k i : ℕ)
    → ((l : ℕ) → i ≤ l → l < i + k → test' l ≡ test l)
    → first_index test' k i ≡ first_index test k i
unfolding first_index
first_index-congr test test' zero i same = refl
first_index-congr test test' (suc k) i same = ground (
  arith,
  same i,
  first_index-congr test test' k (i + 1) (λ l low high. same l (omega arith) (omega arith)),
)

-- A field of the table that holds `c` matches `b` if these agree.
is_zero-memcmp-agree :
    (k : ℕ) (t : Buf) (s : ℕ) (b c : Buf)
    → ((j : ℕ) → j < k → t (s + j) ≡ c j)
    → is_zero (memcmp t s b 0 k) ≡ agree k b c
is_zero-memcmp-agree k t s b c holds = elim (Bool-cases (agree k b c)) [
  | inl match ↦
      memcmp_of_Agree t s b 0 k (λ j _ l. ground (arith, holds j l, agree_sound k b c match j l))
      ∙ sym match
  | inr differ ↦ elim (Bool-cases (is_zero (memcmp t s b 0 k))) [
    | inl hit ↦
        hit
        ∙ sym (
            agree_complete k b c
              (λ j l. ground (arith, holds j l, Agree-of_memcmp t s b 0 k hit j (omega arith) l)))
    | inr miss ↦ miss ∙ sym differ
  ]
]

-- An entry that a request has made is found by the requests of the same name.
pub is_file_entry-Describes :
    (q r : DriverRequest) {t : Buf} {c i : ℕ}
    → r.buffer_size ≢ 0
    → Describes r t c i
    → is_file_entry q t i ≡ same_name q r
unfolding has_name has_ext
is_file_entry-Describes q r {t} {i} ne d =
    rw
      (
        is_zero-memcmp-agree 8 t (32 * i) q.name r.name d.name,
        is_zero-memcmp-agree 3 t (32 * i + 8) q.ext r.ext (d.ext ne),
      )
      refl

-- An entry without a name is not found by a name.
pub is_file_entry-nameless :
    (q : DriverRequest) (t : Buf) (i : ℕ)
    → q.name 0 ≢ 0
    → t (32 * i) ≡ 0
    → is_file_entry q t i ≡ false
unfolding has_name
is_file_entry-nameless q t i named blank = elim (Bool-cases (has_name q t i)) [
  | inl hit ↦ absurd (ground (arith, Agree-of_memcmp t (32 * i) q.name 0 8 hit 0))
  | inr miss ↦ rw miss refl
]

-- The check for a directory reads its first entry.
pub is_directory_eq :
    {t t' : Buf} → ((a : ℕ) → a < 32 → t' a ≡ t a) → is_directory t' ≡ is_directory t
unfolding is_directory
is_directory_eq {t} {t'} same =
    rw (same 12 (omega arith), load32_eq t' t 28 (λ x _ h. same x (omega arith))) refl

-- The entry that is found matches, and the first one that matches is found.
pub entry_for-match :
    (q : DriverRequest) (t : Buf) {i : ℕ}
    → entry_for q t ≡ some i
    → (i < 64) × (is_file_entry q t i ≡ true)
entry_for-match q t e = match_of_First (first_index-First (is_file_entry q t) 64 0 64 refl) e
  where
    match_of_First :
        {o : Option ℕ} {i : ℕ}
        → First (is_file_entry q t) 0 64 o
        → o ≡ some i
        → (i < 64) × (is_file_entry q t i ≡ true)
    match_of_First (found j low high hit before) e = ground arith
    match_of_First (missing all) e = cc

-- If no entry is found, none matches.
pub entry_for-none :
    (q : DriverRequest) (t : Buf)
    → entry_for q t ≡ none
    → (l : ℕ) → l < 64
    → is_file_entry q t l ≡ false
entry_for-none q t e = none_of_First (first_index-First (is_file_entry q t) 64 0 64 refl) e
  where
    none_of_First :
        {o : Option ℕ}
        → First (is_file_entry q t) 0 64 o
        → o ≡ none
        → (l : ℕ) → l < 64
        → is_file_entry q t l ≡ false
    none_of_First (found j low high hit before) e l bound = cc
    none_of_First (missing all) e l bound = all l (omega arith) bound

-- Requests of the same name match the same entries.
pub is_file_entry-same_name :
    (q r : DriverRequest) (t : Buf) (l : ℕ)
    → same_name q r ≡ true
    → is_file_entry q t l ≡ is_file_entry r t l
unfolding has_name has_ext
is_file_entry-same_name q r t l match =
    is_file_entry-SameFile {request = r} {q = record r { name = q.name; ext = q.ext }}
      (record {
        parent = refl;
        name = agree_sound 8 q.name r.name (ground arith);
        ext = agree_sound 3 q.ext r.ext (ground arith);
        enough = omega arith;
      })
      t l
