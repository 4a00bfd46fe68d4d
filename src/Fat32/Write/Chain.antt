-- ===== src/Fat32/Write/Chain.antt =====
-- What `write` promises of the clusters of a file: a chain in the FAT, the bytes of the request in
-- them, and nothing else changed.
use if2230_2023_hexos.Prelude.{
  ℕ, ◌+◌, ◌*◌, ◌≤◌, ◌<◌, ◌≡◌, ◌≢◌, refl, Bool, false, ◌||◌, ◌==◌, List, [], ◌∷◌, Buf, arith, inl,
  inr, Bool-cases, eq_of_beq, ◌∙◌,
}
pub use if2230_2023_hexos.Prelude.{length}
use if2230_2023_hexos.Fat32.{DriverRequest, DriverState}
use if2230_2023_hexos.Fat32.Layout.{cluster_map}
use if2230_2023_hexos.Fat32.Cluster.{byte_of, disk_fat}

abbrev pub mem : ℕ → List ℕ → Bool
mem e [] = false
mem e (c ∷ cs) = (c == e) || mem e cs

-- On the disk the FAT leads from `c` through the clusters `cs` to the end-of-file mark.
pub data Chain (disk : Buf) : ℕ → List ℕ → Type 0 where
  last : (c : ℕ) → disk_fat disk c ≡ 0x0FFF_FFFF → Chain disk c (c ∷ [])
  link :
      (c next : ℕ) {cs : List ℕ}
      → disk_fat disk c ≡ next
      → Chain disk next cs
      → Chain disk c (c ∷ cs)

-- The clusters hold the request's bytes, beginning with its chunk `n`.
abbrev pub Holds : DriverRequest → Buf → ℕ → List ℕ → Type 0
Holds request disk n [] = Unit {0}
Holds request disk n (c ∷ cs) =
    ((a : ℕ) → a < 2048 → byte_of disk c a ≡ request.buf (2048 * n + a))
    × Holds request disk (n + 1) cs

-- The FAT leads from `c` through the clusters `cs`, but the last one is still marked as empty.
pub data OpenChain (disk : Buf) : ℕ → List ℕ → Type 0 where
  still_empty : (c : ℕ) → disk_fat disk c ≡ 0 → OpenChain disk c (c ∷ [])
  onward :
      (c next : ℕ) {cs : List ℕ}
      → disk_fat disk c ≡ next
      → OpenChain disk next cs
      → OpenChain disk c (c ∷ cs)

-- What a failed call leaves of the file: its chunks from `n` on, in a chain without an end.
pub record Unfinished (request : DriverRequest) (c n : ℕ) (s' : DriverState) (cs : List ℕ)
    : Type 0 where
  pub linked : OpenChain s'.disk c cs
  pub holds : Holds request s'.disk n cs

-- Usable clusters from `lo` on, in rising order, which were empty.
abbrev pub Empty : Buf → ℕ → List ℕ → Type 0
Empty disk lo [] = Unit {0}
Empty disk lo (c ∷ cs) = (lo ≤ c) × (c < 512) × (disk_fat disk c ≡ 0) × Empty disk (c + 1) cs

-- The FAT in memory is the one on the disk.
abbrev pub IsSynced : DriverState → Type 0
IsSynced s = (j : ℕ) → j < 512 → cluster_map s.fat_table j ≡ disk_fat s.disk j

-- Between the two states only the clusters `cs`, their FAT entries and so the FAT have changed, and
-- the FAT in memory is the one on the disk.
pub record Spares (s s' : DriverState) (cs : List ℕ) : Type 0 where
  pub bytes :
      (e a : ℕ) → a < 2048 → e ≢ 1 → mem e cs ≡ false → byte_of s'.disk e a ≡ byte_of s.disk e a
  pub entries : (j : ℕ) → j < 512 → mem j cs ≡ false → disk_fat s'.disk j ≡ disk_fat s.disk j
  pub synced : IsSynced s'

-- The file's `size` bytes from chunk `n` on are stored in `cs`, a chain that begins at `c`.
pub record Stored (request : DriverRequest) (c size n : ℕ) (s s' : DriverState) (cs : List ℕ)
    : Type 0 where
  pub chain : Chain s'.disk c cs
  pub holds : Holds request s'.disk n cs
  pub empty : Empty s.disk c cs
  pub enough : size ≤ 2048 * length cs
  pub tight : 2048 * length cs < size + 2048
  pub spares : Spares s s' cs

pub Empty-mono :
    (disk : Buf) (lo hi : ℕ) (cs : List ℕ) → lo ≤ hi → Empty disk hi cs → Empty disk lo cs
Empty-mono disk lo hi [] h e = tt
Empty-mono disk lo hi (c ∷ cs) h e = (omega arith, e.1, e.2, e.3)

pub not-mem-Empty :
    (disk : Buf) (lo : ℕ) (cs : List ℕ) (e : ℕ) → e < lo → Empty disk lo cs → mem e cs ≡ false
not-mem-Empty disk lo [] e h m = refl
not-mem-Empty disk lo (c ∷ cs) e h m =
    ground (arith, not-mem-Empty disk (c + 1) cs e (omega arith) m.3)

-- A cluster in use is none of them.
pub not-mem_of_used :
    (disk : Buf) (lo : ℕ) (cs : List ℕ) (e : ℕ)
    → disk_fat disk e ≢ 0
    → Empty disk lo cs
    → mem e cs ≡ false
not-mem_of_used disk lo [] e h m = refl
not-mem_of_used disk lo (c ∷ cs) e h m = elim (Bool-cases (c == e)) [
  | inl same ↦ absurd (h (rw (← eq_of_beq c e same) m.2))
  | inr other ↦ rw other (not-mem_of_used disk (c + 1) cs e h m.3)
]

pub Empty-transfer :
    (d d' : Buf) (lo : ℕ) (cs : List ℕ)
    → ((j : ℕ) → lo ≤ j → j < 512 → disk_fat d' j ≡ disk_fat d j)
    → Empty d lo cs
    → Empty d' lo cs
Empty-transfer d d' lo [] same e = tt
Empty-transfer d d' lo (c ∷ cs) same e = (
  e.0,
  e.1,
  same c e.0 e.1 ∙ e.2,
  Empty-transfer d d' (c + 1) cs (λ j low. same j (omega arith)) e.3,
)

-- No cluster of the chain lies outside of the map.
pub not-mem_of_high :
    (disk : Buf) (lo : ℕ) (cs : List ℕ) (e : ℕ) → 512 ≤ e → Empty disk lo cs → mem e cs ≡ false
not-mem_of_high disk lo [] e h m = refl
not-mem_of_high disk lo (c ∷ cs) e h m =
    ground (arith, not-mem_of_high disk (c + 1) cs e h m.3, m.1)
