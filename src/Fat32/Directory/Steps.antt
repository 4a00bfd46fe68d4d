-- ===== src/Fat32/Directory/Steps.antt =====
-- fat32.c: what the calls of `write` and `read` make of a directory's map.
use if2230_2023_hexos.Prelude.{
  ℕ, ◌+◌, ◌*◌, ◌<◌, ◌≡◌, refl, sym, ◌∙◌, inl, inr, false, Bool-cases, List, ◌∷◌, ℤ, pos, arith,
}
use mathlib.Core.Path.{subst}
use if2230_2023_hexos.Fat32.{DriverRequest, DriverState, IsRequest, Run, done}
use if2230_2023_hexos.Fat32.Cluster.{byte_of, read_clusters_lem}
use if2230_2023_hexos.Fat32.Read.{is_file_entry}
use if2230_2023_hexos.Fat32.Write.{write}
use if2230_2023_hexos.Fat32.Write.Chain.{IsSynced}
use if2230_2023_hexos.Fat32.Write.Outcomes.{
  parent_table, Written, bad_parent, exists, no_room, cut_short, file, folder,
}
use if2230_2023_hexos.Fat32.Write.Call.{write-Written}
use if2230_2023_hexos.Fat32.Roundtrip.Table.{
  is_file_entry_eq, write-valid, validate_write-zero, no_other,
}
use if2230_2023_hexos.Fat32.Roundtrip.Stored.{head_of_Chain}
use if2230_2023_hexos.Fat32.Directory.{same_name, find, Represents, Tidy}
use if2230_2023_hexos.Fat32.Directory.Adding.{Addition, Tidy-stored, own-other}
use if2230_2023_hexos.Fat32.Directory.Lookup.{Shows-other, Shows-new}

-- The directory in cluster `p` is the map `files`.
pub record IsMap (p : ℕ) (s : DriverState) (files : List DriverRequest) : Type 0 where
  pub tidy : Tidy p s
  pub represents : Represents p s.disk files

-- The directory's own entry answers to the same requests.
pub record SameOwn (p : ℕ) (s t : DriverState) : Type 0 where
  pub same :
      (q : DriverRequest)
      → is_file_entry q (byte_of t.disk p) 0 ≡ is_file_entry q (byte_of s.disk p) 0

pub SameOwn-disk : (p : ℕ) {s t : DriverState} → t.disk ≡ s.disk → SameOwn p s t
SameOwn-disk p disk = record { same = rw disk (λ q. refl) }

pub SameOwn-trans : (p : ℕ) {s t u : DriverState} → SameOwn p s t → SameOwn p t u → SameOwn p s u
SameOwn-trans p first second = record { same = λ q. second.same q ∙ first.same q }

-- The map is a fact of the disk.
pub IsMap-disk :
    (p : ℕ) {s t : DriverState} {files : List DriverRequest}
    → t.disk ≡ s.disk
    → IsSynced t
    → IsMap p s files
    → IsMap p t files
IsMap-disk p {files} disk synced map = record {
  tidy = record {
    synced = synced;
    low = map.tidy.low;
    high = map.tidy.high;
    in_use = rw disk map.tidy.in_use;
    folder = rw disk map.tidy.folder;
    free = rw disk map.tidy.free;
    taken = rw disk map.tidy.taken;
  };
  represents = subst (λ d. Represents p d files) (sym disk) map.represents;
}

module _ (r : DriverRequest) (s : DriverState) {files : List DriverRequest}
    (map : IsMap r.parent_cluster_number s files) (size : 0 < r.buffer_size)
    (own : is_file_entry r (byte_of s.disk r.parent_cluster_number) 0 ≡ false) where
  abbrev p : ℕ
  p = r.parent_cluster_number

  test-table :
      (l : ℕ) → l < 64 → is_file_entry r (parent_table r s) l ≡ is_file_entry r (byte_of s.disk p) l
  test-table l bound = is_file_entry_eq r (byte_of s.disk p) (parent_table r s) l (λ a inside.
      ground (
        arith,
        map.tidy.high,
        read_clusters_lem s.dir_table_buf p s.disk (32 * l + a) (omega (arith, map.tidy.high)),
      ))

  -- No entry has the name of a file that `write` has stored.
  is_new :
      {u : DriverState}
      → write r s ≡ done (pos 0, u)
      → (l : ℕ) → l < 64
      → is_file_entry r (byte_of s.disk p) l ≡ false
  is_new e l bound =
      let (_, new) = validate_write-zero r (parent_table r s) (write-valid r s e) in
      sym (test-table l bound)
      ∙ no_other r (parent_table r s) (omega arith) (test-table 0 (omega arith) ∙ own) new l bound

  IsMap-added :
      {u : DriverState} {c i : ℕ} {cs : List ℕ}
      → Addition r s u c i cs
      → ((l : ℕ) → l < 64 → is_file_entry r (byte_of s.disk p) l ≡ false)
      → IsMap p u (r ∷ files)
  IsMap-added {u} addition new = record {
    tidy = Tidy-stored r s addition;
    represents = λ q asks. elim (Bool-cases (same_name q r)) [
      | inl match ↦
          rw match (
            Shows-new r s addition q asks match new (head_of_Chain r addition.chain addition.holds))
      | inr other ↦ rw other (
          Shows-other r s addition q (find q files) asks other (
            map.represents q (record {
              parent = asks.parent;
              named = asks.named;
              other = sym (own-other r s addition q) ∙ asks.other;
            })))
    ];
  }

  IsMap-of_Written :
      {u : DriverState} {o : Run (ℤ × DriverState)}
      → ((l : ℕ) → l < 64 → is_file_entry r (byte_of s.disk p) l ≡ false)
      → Written r s o
      → o ≡ done (pos 0, u)
      → IsMap p u (r ∷ files) × SameOwn p s u
  IsMap-of_Written new (bad_parent b d f) e = cc
  IsMap-of_Written new (exists i a b m d f) e = cc
  IsMap-of_Written new (no_room why d f _) e = cc
  IsMap-of_Written new (cut_short c i cs low entry e1 few rest frame _ _) e = cc
  IsMap-of_Written new (folder c i no_size entry head marked stale empty frame _) e =
      absurd (omega arith)
  IsMap-of_Written {u} new (file {s' = t} c i cs _ entry chain holds empty _ _ frame _) e =
      let at : t ≡ u = ground arith in
      let addition : Addition r s t c i cs = record {
        tidy = map.tidy;
        size = omega arith;
        added = entry;
        chain = chain;
        holds = holds;
        empty = empty;
        frame = frame;
      } in
      subst (λ v. IsMap p v (r ∷ files) × SameOwn p s v) at
        (IsMap-added addition new, record { same = own-other r s addition })

  pub IsMap-write :
      {u : DriverState}
      → IsRequest r
      → write r s ≡ done (pos 0, u)
      → IsMap p u (r ∷ files) × SameOwn p s u
  IsMap-write valid e =
      IsMap-of_Written (is_new e) (write-Written r s valid (λ _. map.tidy.in_use) map.tidy.synced) e
