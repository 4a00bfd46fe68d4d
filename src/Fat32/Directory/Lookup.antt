-- ===== src/Fat32/Directory/Lookup.antt =====
-- fat32.c: what `read` finds in a directory after a file has been stored in it.
use if2230_2023_hexos.Prelude.{
  ℕ, zero, suc, ◌*◌, ◌≤◌, ◌<◌, ◌≡◌, ◌≢◌, sym, ap, ◌∙◌, inl, inr, true, false, ◌==◌, Bool-cases,
  List, Option, none, some, Buf, arith,
}
use mathlib.Core.Path.{subst}
use if2230_2023_hexos.Prelude.Scan.{first_index-eq}
use if2230_2023_hexos.Fat32.{DriverRequest, DriverState}
use if2230_2023_hexos.Fat32.Layout.{user_attribute, cluster_low}
use if2230_2023_hexos.Fat32.Cluster.{byte_of}
use if2230_2023_hexos.Fat32.Read.{is_file_entry}
use if2230_2023_hexos.Fat32.Directory.{same_name, entry_for, Shows, Asks, OwnCluster}
use if2230_2023_hexos.Fat32.Directory.Entries.{
  first_index-congr, is_file_entry-Describes, is_file_entry-nameless, entry_for-match,
  is_file_entry-same_name,
}
use if2230_2023_hexos.Fat32.Directory.Adding.{
  Addition, first, cluster, cluster_low-same, filesize-same, test-same, OwnCluster-bytes, own-other,
}

module _ (r : DriverRequest) (s : DriverState) {s' : DriverState} {c i : ℕ} {cs : List ℕ}
    (addition : Addition r s s' c i cs) where
  open addition use {tidy, size, added}

  abbrev p : ℕ
  p = r.parent_cluster_number

  test-other :
      (q : DriverRequest)
      → q.name 0 ≢ 0
      → same_name q r ≡ false
      → (l : ℕ) → 0 ≤ l
      → l < 64
      → is_file_entry q (byte_of s'.disk p) l ≡ is_file_entry q (byte_of s.disk p) l
  test-other q named other l _ bound = elim (Bool-cases (l == i)) [
    | inl here ↦
        let at : l ≡ i = ground arith in
        let blank : byte_of s.disk p (32 * i) ≡ 0 =
          tidy.free i added.index_low added.index_high added.was_free in
        subst (λ j. is_file_entry q (byte_of s'.disk p) j ≡ is_file_entry q (byte_of s.disk p) j)
          (sym at)
          (is_file_entry-Describes q r size added.entry
            ∙ other
            ∙ sym (is_file_entry-nameless q (byte_of s.disk p) i named blank))
    | inr apart ↦ test-same r s addition q l bound (ground arith)
  ]

  entry_for-other :
      (q : DriverRequest)
      → q.name 0 ≢ 0
      → same_name q r ≡ false
      → entry_for q (byte_of s'.disk p) ≡ entry_for q (byte_of s.disk p)
  entry_for-other q named other =
      first_index-congr (is_file_entry q (byte_of s.disk p)) (is_file_entry q (byte_of s'.disk p))
        64 0 (test-other q named other)

  positive_of_hit :
      (q : DriverRequest) (t : Buf) (j : ℕ)
      → is_file_entry q t 0 ≡ false
      → is_file_entry q t j ≡ true
      → 1 ≤ j
  positive_of_hit q t zero own hit = absurd cc
  positive_of_hit q t (suc j) own hit = omega arith

  -- An entry that a name finds, other than the directory's own, is in use.
  OwnCluster-found :
      (q : DriverRequest) (j : ℕ)
      → q.name 0 ≢ 0
      → is_file_entry q (byte_of s.disk p) 0 ≡ false
      → j < 64
      → is_file_entry q (byte_of s.disk p) j ≡ true
      → OwnCluster p s.disk (cluster_low (byte_of s.disk p) j)
  OwnCluster-found q j named own bound hit =
      let positive : 1 ≤ j = positive_of_hit q (byte_of s.disk p) j own hit in
      elim (Bool-cases (user_attribute (byte_of s.disk p) j == 0b1010_1010)) [
        | inl used ↦ tidy.taken j positive bound (ground arith)
        | inr unused ↦ absurd (
            cc (
              hit,
              is_file_entry-nameless q (byte_of s.disk p) j named
                  (tidy.free j positive bound (ground arith)),
            ))
      ]

  -- A request that is not for the new file finds what it found before.
  pub Shows-other :
      (q : DriverRequest) (o : Option DriverRequest)
      → Asks p s'.disk q
      → same_name q r ≡ false
      → Shows p s.disk q o
      → Shows p s'.disk q o
  Shows-other q none asks other shows = entry_for-other q asks.named other ∙ shows
  Shows-other q (some old) asks other (j, finds, length, high, bytes) =
      let (bound, hit) = entry_for-match q (byte_of s.disk p) finds in
      let own : OwnCluster p s.disk (cluster_low (byte_of s.disk p) j) =
        OwnCluster-found q j asks.named (sym (own-other r s addition q) ∙ asks.other) bound hit in
      let miss : is_file_entry q (byte_of s.disk p) i ≡ false =
        is_file_entry-nameless q (byte_of s.disk p) i asks.named
          (tidy.free i added.index_low added.index_high added.was_free) in
      let apart : j ≢ i = λ at. cc (hit, miss, ap (λ l. is_file_entry q (byte_of s.disk p) l) at) in
      let e : cluster_low (byte_of s'.disk p) j ≡ cluster_low (byte_of s.disk p) j =
        cluster_low-same r s addition j bound apart in
      (
        j,
        entry_for-other q asks.named other ∙ finds,
        filesize-same r s addition j bound apart ∙ length,
        rw e high,
        λ a l.
            ap (λ (k : ℕ). byte_of s'.disk k a) e
            ∙ OwnCluster-bytes r s addition _ own a l
            ∙ bytes a l,
      )

  -- A request of the new file's name finds the new entry.
  pub Shows-new :
      (q : DriverRequest)
      → Asks p s'.disk q
      → same_name q r ≡ true
      → ((l : ℕ) → l < 64 → is_file_entry r (byte_of s.disk p) l ≡ false)
      → ((a : ℕ) → a < 2048 → byte_of s'.disk c a ≡ r.buf a)
      → Shows p s'.disk q (some r)
  Shows-new q asks match new stored = (
    i,
    first_index-eq (is_file_entry q (byte_of s'.disk p)) 64 i added.index_high
        (is_file_entry-Describes q r size added.entry ∙ match)
        (λ l before.
          test-same r s addition q l (omega (arith, added.index_high)) (omega arith)
          ∙ is_file_entry-same_name q r (byte_of s.disk p) l match
          ∙ new l (omega (arith, added.index_high))),
    added.entry.size,
    omega (arith, (cluster r s addition), (first r s addition).high),
    λ a l. ap (λ (k : ℕ). byte_of s'.disk k a) (cluster r s addition) ∙ stored a l,
  )
