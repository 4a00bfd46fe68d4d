-- ===== src/Fat32/Directory/Adding.antt =====
-- fat32.c: a directory after a file has been stored in it.
use if2230_2023_hexos.Prelude.{
  ℕ, ◌+◌, ◌*◌, ◌≤◌, ◌<◌, ◌≡◌, ◌≢◌, sym, ap, ◌∙◌, inl, inr, ltb, ◌==◌, Bool-cases, List, Buf,
  load16_eq, load32_eq, arith,
}
use mathlib.Core.Path.{subst}
use if2230_2023_hexos.Fat32.{DriverRequest, DriverState}
use if2230_2023_hexos.Fat32.Layout.{user_attribute, cluster_low, filesize}
use if2230_2023_hexos.Fat32.Cluster.{byte_of, disk_fat}
use if2230_2023_hexos.Fat32.Read.{is_file_entry}
use if2230_2023_hexos.Fat32.Roundtrip.Table.{is_file_entry_eq}
use if2230_2023_hexos.Fat32.Write.Chain.{Chain, last, link, Holds, Empty, not-mem_of_used}
use if2230_2023_hexos.Fat32.Write.Outcomes.{EntryAdded, Framed}
use if2230_2023_hexos.Fat32.Directory.{OwnCluster, Tidy}
use if2230_2023_hexos.Fat32.Directory.Entries.{is_directory_eq}

-- The first cluster of a chain was empty and is in use.
pub record FirstCluster (old new : Buf) (c : ℕ) : Type 0 where
  pub low : 2 ≤ c
  pub high : c < 512
  was_empty : disk_fat old c ≡ 0
  now_used : disk_fat new c ≢ 0

low_of_Chain :
    (old : Buf) (lo : ℕ) {new : Buf} {c : ℕ} {cs : List ℕ}
    → Chain new c cs
    → Empty old lo cs
    → lo ≤ c
low_of_Chain old lo (last c e) h = h.0
low_of_Chain old lo (link c next e rest) h = h.0

FirstCluster-of_Chain :
    (old : Buf) {new : Buf} {c : ℕ} {cs : List ℕ}
    → Chain new c cs
    → Empty old 2 cs
    → FirstCluster old new c
FirstCluster-of_Chain old (last c e) h = record {
  low = h.0;
  high = h.1;
  was_empty = h.2;
  now_used = ground arith;
}
FirstCluster-of_Chain old (link c next e rest) h = record {
  low = h.0;
  high = h.1;
  was_empty = h.2;
  now_used = λ zero. omega (arith, low_of_Chain old (c + 1) rest h.3);
}

-- A file has been stored in a tidy directory, as entry `i` and the chain `cs` from cluster `c` on.
pub record Addition (r : DriverRequest) (s s' : DriverState) (c i : ℕ) (cs : List ℕ) : Type 0 where
  pub tidy : Tidy r.parent_cluster_number s
  pub size : r.buffer_size ≢ 0
  pub added : EntryAdded r c i s s'
  pub chain : Chain s'.disk c cs
  pub holds : Holds r s'.disk 0 cs
  pub empty : Empty s.disk 2 cs
  pub frame : Framed r s s' cs

module _ (r : DriverRequest) (s : DriverState) {s' : DriverState} {c i : ℕ} {cs : List ℕ}
    (addition : Addition r s s' c i cs) where
  open addition use {tidy, added, chain, empty, frame}

  abbrev p : ℕ
  p = r.parent_cluster_number

  pub first : FirstCluster s.disk s'.disk c
  first = FirstCluster-of_Chain s.disk chain empty

  pub cluster : cluster_low (byte_of s'.disk p) i ≡ c
  cluster = omega (arith, added.entry.low, first.high)

  -- A cluster that was in use has the same entry in the FAT.
  used-same : (e : ℕ) → e < 512 → disk_fat s.disk e ≢ 0 → disk_fat s'.disk e ≡ disk_fat s.disk e
  used-same e l used = frame.entries e l (not-mem_of_used s.disk 2 cs e used empty)

  -- The other entries are byte for byte as before.
  entry-same :
      (l x : ℕ)
      → l < 64
      → l ≢ i
      → 32 * l ≤ x
      → x < 32 * l + 32
      → byte_of s'.disk p x ≡ byte_of s.disk p x
  entry-same l x bound apart low high = added.others x (omega arith) (elim (Bool-cases (ltb l i)) [
    | inl before ↦ inl (ground arith)
    | inr behind ↦ inr (ground arith)
  ])

  pub cluster_low-same :
      (l : ℕ)
      → l < 64
      → l ≢ i
      → cluster_low (byte_of s'.disk p) l ≡ cluster_low (byte_of s.disk p) l
  cluster_low-same l bound apart =
      load16_eq (byte_of s'.disk p) (byte_of s.disk p) (32 * l + 26)
        (λ x low high. entry-same l x bound apart (omega arith) (omega arith))

  pub filesize-same :
      (l : ℕ) → l < 64 → l ≢ i → filesize (byte_of s'.disk p) l ≡ filesize (byte_of s.disk p) l
  filesize-same l bound apart =
      load32_eq (byte_of s'.disk p) (byte_of s.disk p) (32 * l + 28)
        (λ x low high. entry-same l x bound apart (omega arith) (omega arith))

  pub test-same :
      (q : DriverRequest) (l : ℕ)
      → l < 64
      → l ≢ i
      → is_file_entry q (byte_of s'.disk p) l ≡ is_file_entry q (byte_of s.disk p) l
  test-same q l bound apart =
      is_file_entry_eq q (byte_of s.disk p) (byte_of s'.disk p) l
        (λ a inside. entry-same l (32 * l + a) bound apart (omega arith) (omega arith))

  OwnCluster-new : OwnCluster p s'.disk c
  OwnCluster-new =
      (first.low, first.high, λ e. tidy.in_use (rw e at first.was_empty), first.now_used)

  OwnCluster-same : (e : ℕ) → OwnCluster p s.disk e → OwnCluster p s'.disk e
  OwnCluster-same e (low, high, apart, used) =
      (low, high, apart, λ zero. used (sym (used-same e high used) ∙ zero))

  taken-stored :
      (l : ℕ)
      → 1 ≤ l
      → l < 64
      → user_attribute (byte_of s'.disk p) l ≡ 0b1010_1010
      → OwnCluster p s'.disk (cluster_low (byte_of s'.disk p) l)
  taken-stored l low bound used = elim (Bool-cases (l == i)) [
    | inl here ↦
        let at : l ≡ i = ground arith in
        subst (λ e. OwnCluster p s'.disk e)
          (sym (ap (λ j. cluster_low (byte_of s'.disk p) j) at ∙ cluster)) OwnCluster-new
    | inr other ↦
        let apart : l ≢ i = ground arith in
        subst (λ e. OwnCluster p s'.disk e) (sym (cluster_low-same l bound apart))
          (OwnCluster-same (cluster_low (byte_of s.disk p) l) (
            tidy.taken l low bound
              (sym (entry-same l (32 * l + 12) bound apart (omega arith) (omega arith)) ∙ used)))
  ]

  free-stored :
      (l : ℕ)
      → 1 ≤ l
      → l < 64
      → user_attribute (byte_of s'.disk p) l ≢ 0b1010_1010
      → byte_of s'.disk p (32 * l) ≡ 0
  free-stored l low bound unused =
      let apart : l ≢ i =
        λ at. unused (ap (λ j. user_attribute (byte_of s'.disk p) j) at ∙ added.entry.in_use) in
      entry-same l (32 * l) bound apart (omega arith) (omega arith)
      ∙ tidy.free l low bound (λ used.
        unused (entry-same l (32 * l + 12) bound apart (omega arith) (omega arith) ∙ used))

  own-same : (x : ℕ) → x < 32 → byte_of s'.disk p x ≡ byte_of s.disk p x
  own-same x l = added.others x (omega arith) (inl (omega (arith, added.index_low)))

  pub Tidy-stored : Tidy p s'
  Tidy-stored = record {
    synced = frame.synced;
    low = tidy.low;
    high = tidy.high;
    in_use = λ zero. tidy.in_use (sym (used-same p tidy.high tidy.in_use) ∙ zero);
    folder = ap (λ e. e == 0) (is_directory_eq own-same) ∙ tidy.folder;
    free = free-stored;
    taken = taken-stored;
  }

  -- The bytes of a cluster of another entry.
  pub OwnCluster-bytes :
      (e : ℕ)
      → OwnCluster p s.disk e
      → (a : ℕ) → a < 2048
      → byte_of s'.disk e a ≡ byte_of s.disk e a
  OwnCluster-bytes e (low, high, apart, used) a l =
      frame.bytes e a l (omega arith) apart (not-mem_of_used s.disk 2 cs e used empty)

  pub own-other :
      (q : DriverRequest)
      → is_file_entry q (byte_of s'.disk p) 0 ≡ is_file_entry q (byte_of s.disk p) 0
  own-other q = test-same q 0 (omega arith) (omega (arith, added.index_low))
