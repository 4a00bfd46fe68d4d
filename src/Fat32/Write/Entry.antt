-- ===== src/Fat32/Write/Entry.antt =====
-- What `writeEntry` puts into a directory table.
use if2230_2023_hexos.Prelude.{
  ℕ, ◌+◌, ◌-◌, ◌*◌, ◌/◌, ◌%◌, ◌^◌, ◌≤◌, ◌<◌, ◌≡◌, ◌≢◌, ◌⊎◌, ◌&&◌, leb, ltb, ◌==◌, if◌then◌else◌,
  Buf, load16, load32, store, store16, store32, load16_eq, load32_eq, load32-store32, ◌∙◌, arith,
}
use if2230_2023_hexos.Stdmem.{memcpy}
use if2230_2023_hexos.Stdmem.Copy.{memcpy_lem}
use if2230_2023_hexos.Fat32.{DriverRequest, IsRequest, uattr_not_empty}
use if2230_2023_hexos.Fat32.Layout.{
  name_at, ext_at, attribute, user_attribute, cluster_low, cluster_high, filesize,
  set_user_attribute, set_cluster_low, set_cluster_high, set_filesize, set_attribute,
}
use if2230_2023_hexos.Fat32.Write.{write_entry}

-- Entry `i` of the table describes the request's file or folder, which begins at cluster `c`.
pub record Describes (request : DriverRequest) (table : Buf) (c i : ℕ) : Type 0 where
  pub name : (a : ℕ) → a < 8 → table (32 * i + a) ≡ request.name a
  pub in_use : user_attribute table i ≡ 0b1010_1010
  pub kind : attribute table i ≡ (if request.buffer_size == 0 then 0b0001_0000 else 0)
  pub low : cluster_low table i ≡ c % 2 ^ 16
  pub high : cluster_high table i ≡ c / 2 ^ 16
  pub size : filesize table i ≡ request.buffer_size
  pub ext : request.buffer_size ≢ 0 → (a : ℕ) → a < 3 → table (32 * i + 8 + a) ≡ request.ext a

module _ (request : DriverRequest) (table : Buf) (c i : ℕ) where
  -- The table with the fields that both branches set.
  abbrev common : Buf
  common =
      set_filesize
        (set_cluster_high
          (set_cluster_low
            (set_user_attribute (memcpy table (name_at i) request.name 0 8) i uattr_not_empty) i
            (c % 2 ^ 16))
          i (c / 2 ^ 16 % 2 ^ 16))
        i request.buffer_size

  -- Byte `x` of the table that `writeEntry` leaves.
  write_entry-at :
      (x : ℕ)
      → write_entry request table c i x ≡ (
          if request.buffer_size == 0
          then set_attribute common i 0b0001_0000 x
          else (if leb (ext_at i) x && ltb x (ext_at i + 3)
              then request.ext (x - ext_at i)
              else set_attribute common i 0 x))
  unfolding write_entry
  write_entry-at x =
      ground (arith, memcpy_lem (set_attribute common i 0) (ext_at i) request.ext 0 3 x)

  -- The other entries stay as they are.
  pub write_entry-outside :
      (x : ℕ) → (x < 32 * i) ⊎ (32 * i + 32 ≤ x) → write_entry request table c i x ≡ table x
  unfolding store store16 store32
  write_entry-outside x out =
      ground (arith, write_entry-at x, memcpy_lem table (name_at i) request.name 0 8 x)

  write_entry-name : (a : ℕ) → a < 8 → write_entry request table c i (32 * i + a) ≡ request.name a
  unfolding store store16 store32
  write_entry-name a l = ground (
    arith,
    write_entry-at (32 * i + a),
    memcpy_lem table (name_at i) request.name 0 8 (32 * i + a),
  )

  -- Behind the attribute and the extension both branches leave the common fields.
  write_entry-common : (x : ℕ) → 32 * i + 12 ≤ x → write_entry request table c i x ≡ common x
  unfolding store
  write_entry-common x h = ground (arith, write_entry-at x)

  size_field :
      request.buffer_size < 2 ^ 32
      → filesize (write_entry request table c i) i ≡ request.buffer_size
  size_field w =
      load32_eq (write_entry request table c i) common (32 * i + 28)
        (λ x h _. write_entry-common x (omega arith))
      ∙ omega (
        arith,
        load32-store32
            (set_cluster_high
              (set_cluster_low
                (set_user_attribute (memcpy table (name_at i) request.name 0 8) i uattr_not_empty) i
                (c % 2 ^ 16))
              i (c / 2 ^ 16 % 2 ^ 16))
            (32 * i + 28) request.buffer_size,
      )

  -- For a request of 32-bit numbers and a cluster below 2 ^ 32, `writeEntry` makes entry `i` one that
  -- is in use and has the request's name, kind, size and cluster, and a file's extension.
  pub write_entry-Describes :
      IsRequest request → c < 2 ^ 32 → Describes request (write_entry request table c i) c i
  unfolding store store16 store32 load16 load32
  write_entry-Describes r w = record {
    name = write_entry-name;
    in_use = ground (arith, write_entry-at (32 * i + 12));
    kind = ground (arith, write_entry-at (32 * i + 11));
    low = ground (arith, write_entry-at (32 * i + 26), write_entry-at (32 * i + 26 + 1));
    high = ground (arith, write_entry-at (32 * i + 20), write_entry-at (32 * i + 20 + 1));
    size = size_field r.size_width;
    ext = λ ne a l. ground (arith, write_entry-at (32 * i + 8 + a));
  }

-- The description reads only the entry's own bytes.
pub Describes-transfer :
    {request : DriverRequest} {t t' : Buf} {c i : ℕ}
    → i < 64
    → ((x : ℕ) → x < 2048 → t' x ≡ t x)
    → Describes request t c i
    → Describes request t' c i
Describes-transfer {t} {t'} {i} high same d = record {
  name = λ a l. ground (arith, same (32 * i + a), d.name a);
  in_use = ground (arith, same (32 * i + 12), d.in_use);
  kind = ground (arith, same (32 * i + 11), d.kind);
  low = load16_eq t' t (32 * i + 26) (λ x _ l. same x (omega arith)) ∙ d.low;
  high = load16_eq t' t (32 * i + 20) (λ x _ l. same x (omega arith)) ∙ d.high;
  size = load32_eq t' t (32 * i + 28) (λ x _ l. same x (omega arith)) ∙ d.size;
  ext = λ ne a l. ground (arith, same (32 * i + 8 + a), d.ext ne a);
}
