-- ===== src/Fat32/Roundtrip/Table.antt =====
-- fat32.c: what the searches of `write` and `read` say of the same directory table.
use if2230_2023_hexos.Prelude.{
  ℕ, ◌+◌, ◌*◌, ◌≤◌, ◌<◌, ◌≡◌, ◌≢◌, refl, sym, ap, ◌∙◌, inl, inr, true, false, ltb, ◌==◌,
  if◌then◌else◌, Bool-cases, Option, Buf, load32_eq, is_zero, pos, arith,
}
use if2230_2023_hexos.Prelude.Scan.{get_or, First, found, missing, first_index-First}
use if2230_2023_hexos.Stdmem.Compare.{memcmp_eq, memcmp_of_Agree, Agree-of_memcmp}
use if2230_2023_hexos.Stdmem.{memcmp}
use if2230_2023_hexos.Fat32.{DriverRequest, DriverState, done}
use if2230_2023_hexos.Fat32.Search.{
  has_name, has_ext, is_same_entry, is_exist, is_directory, is_bad_parent, validate_write,
}
use if2230_2023_hexos.Fat32.Read.{is_file_entry}
use if2230_2023_hexos.Fat32.Write.{write}
use if2230_2023_hexos.Fat32.Write.Entry.{Describes}
use if2230_2023_hexos.Fat32.Write.Outcomes.{parent_table}

module _ (request : DriverRequest) (t t' : Buf) (l : ℕ)
    (same : (a : ℕ) → a < 32 → t' (32 * l + a) ≡ t (32 * l + a)) where
  pub has_name_eq : has_name request t' l ≡ has_name request t l
  unfolding has_name
  has_name_eq = ap is_zero (memcmp_eq t' t (32 * l) request.name 0 8 (λ j h. same j (omega arith)))

  has_ext_eq : has_ext request t' l ≡ has_ext request t l
  unfolding has_ext
  has_ext_eq =
      ap is_zero (memcmp_eq t' t (32 * l + 8) request.ext 0 3 (λ j h. ground (arith, same (8 + j))))

  pub is_file_entry_eq : is_file_entry request t' l ≡ is_file_entry request t l
  is_file_entry_eq = rw (has_name_eq, has_ext_eq)

-- The check of the parent reads entry 0.
pub is_bad_parent_eq :
    (request : DriverRequest) {t t' : Buf}
    → ((a : ℕ) → a < 32 → t' a ≡ t a)
    → is_bad_parent request t' ≡ is_bad_parent request t
unfolding is_directory
is_bad_parent_eq request {t} {t'} same =
    rw (same 12 (omega arith), load32_eq t' t 28 (λ x _ h. same x (omega arith)))

-- The new entry matches.
pub Describes-match :
    {request : DriverRequest} {t : Buf} {c i : ℕ}
    → request.buffer_size ≢ 0
    → Describes request t c i
    → is_file_entry request t i ≡ true
unfolding has_name has_ext
Describes-match {request} {t} {c} {i} ne d = ground (
  arith,
  memcmp_of_Agree t (32 * i) request.name 0 8 (λ j _ h. ground (arith, d.name j h)),
  memcmp_of_Agree t (32 * i + 8) request.ext 0 3 (λ j _ h. ground (arith, d.ext ne j h)),
)

-- A call that returns 0 has found the parent fine and no entry above 0 of the same name.
pub write-valid :
    (request : DriverRequest) (s : DriverState) {s' : DriverState}
    → write request s ≡ done (pos 0, s')
    → validate_write request (parent_table request s) ≡ 0
unfolding write
write-valid request s e = ground arith

zero_of : (n : ℕ) → ◌≡◌ {A = ℕ} (if ltb 0 n then 1 else 0) 0 → n ≡ 0
zero_of n e = ground arith

pub validate_write-zero :
    (request : DriverRequest) (t : Buf)
    → validate_write request t ≡ 0
    → (is_bad_parent request t ≡ false) × (is_exist request t ≡ 0)
unfolding validate_write
validate_write-zero request t e = elim (Bool-cases (is_bad_parent request t)) [
  | inl bad ↦ absurd (omega (arith, rw bad at e))
  | inr fine ↦ (fine, zero_of (is_exist request t) (rw fine at e))
]

-- Of a file, `isExist` makes the test of `read`.
pub is_same_entry-file :
    (request : DriverRequest) (t : Buf) (l : ℕ)
    → request.buffer_size ≢ 0
    → is_same_entry request t l ≡ is_file_entry request t l
unfolding is_same_entry
is_same_entry-file request t l ne =
    let file : (request.buffer_size == 0) ≡ false = ground arith in rw file

pub no_other :
    (request : DriverRequest) (t : Buf)
    → request.buffer_size ≢ 0
    → is_file_entry request t 0 ≡ false
    → is_exist request t ≡ 0
    → (l : ℕ) → l < 64
    → is_file_entry request t l ≡ false
unfolding is_exist
no_other request t ne own = none_of_First (first_index-First (is_same_entry request t) 64 0 64 refl)
  where
    none_of_First :
        {o : Option ℕ}
        → First (is_same_entry request t) 0 64 o
        → get_or o 0 ≡ 0
        → (l : ℕ) → l < 64
        → is_file_entry request t l ≡ false
    none_of_First (found j low high hit before) p l h =
        absurd (cc (sym (rw p at hit), is_same_entry-file request t 0 ne, own))
    none_of_First (missing all) p l h =
        sym (is_same_entry-file request t l ne) ∙ all l (omega arith) h

-- Of a folder, `isExist` compares the names only.
is_same_entry-folder :
    (request : DriverRequest) (t : Buf) (l : ℕ)
    → request.buffer_size ≡ 0
    → is_same_entry request t l ≡ has_name request t l
unfolding is_same_entry
is_same_entry-folder request t l none =
    let folder : (request.buffer_size == 0) ≡ true = ground arith in rw folder refl

pub no_other_name :
    (request : DriverRequest) (t : Buf)
    → request.buffer_size ≡ 0
    → has_name request t 0 ≡ false
    → is_exist request t ≡ 0
    → (l : ℕ) → l < 64
    → has_name request t l ≡ false
unfolding is_exist
no_other_name request t none own =
    none_of_First (first_index-First (is_same_entry request t) 64 0 64 refl)
  where
    none_of_First :
        {o : Option ℕ}
        → First (is_same_entry request t) 0 64 o
        → get_or o 0 ≡ 0
        → (l : ℕ) → l < 64
        → has_name request t l ≡ false
    none_of_First (found j low high hit before) p l h =
        absurd (cc (sym (rw p at hit), is_same_entry-folder request t 0 none, own))
    none_of_First (missing all) p l h =
        sym (is_same_entry-folder request t l none) ∙ all l (omega arith) h

-- Another request for the same file, with a buffer that is large enough.
pub record SameFile (request q : DriverRequest) : Type 0 where
  pub parent : q.parent_cluster_number ≡ request.parent_cluster_number
  pub name : (a : ℕ) → a < 8 → q.name a ≡ request.name a
  pub ext : (a : ℕ) → a < 3 → q.ext a ≡ request.ext a
  pub enough : request.buffer_size ≤ q.buffer_size

pub SameFile-refl : (request : DriverRequest) → SameFile request request
SameFile-refl request = record {
  parent = refl;
  name = λ a l. refl;
  ext = λ a l. refl;
  enough = omega arith;
}

-- The comparison reads only the first `n` bytes of its second region.
is_zero-memcmp :
    (t b c : Buf) (s n : ℕ)
    → ((a : ℕ) → a < n → b a ≡ c a)
    → is_zero (memcmp t s b 0 n) ≡ is_zero (memcmp t s c 0 n)
is_zero-memcmp t b c s n same = elim (Bool-cases (is_zero (memcmp t s b 0 n))) [
  | inl hit ↦
      hit
      ∙ sym (
          memcmp_of_Agree t s c 0 n
            (λ j low h. ground (arith, Agree-of_memcmp t s b 0 n hit j low h, same j h)))
  | inr miss ↦ elim (Bool-cases (is_zero (memcmp t s c 0 n))) [
    | inl hit ↦
        memcmp_of_Agree t s b 0 n
          (λ j low h. ground (arith, Agree-of_memcmp t s c 0 n hit j low h, same j h))
        ∙ sym hit
    | inr miss' ↦ miss ∙ sym miss'
  ]
]

pub has_name-SameFile :
    {request q : DriverRequest}
    → SameFile request q
    → (t : Buf) (l : ℕ) → has_name q t l ≡ has_name request t l
unfolding has_name
has_name-SameFile {request} {q} f t l = is_zero-memcmp t q.name request.name (32 * l) 8 f.name

pub is_file_entry-SameFile :
    {request q : DriverRequest}
    → SameFile request q
    → (t : Buf) (l : ℕ) → is_file_entry q t l ≡ is_file_entry request t l
unfolding has_name has_ext
is_file_entry-SameFile {request} {q} f t l =
    rw
      (
        is_zero-memcmp t q.name request.name (32 * l) 8 f.name,
        is_zero-memcmp t q.ext request.ext (32 * l + 8) 3 f.ext,
      )
      refl

pub is_bad_parent-SameFile :
    {request q : DriverRequest}
    → SameFile request q
    → (t : Buf) → is_bad_parent q t ≡ is_bad_parent request t
is_bad_parent-SameFile f t = rw f.parent refl
