-- ===== src/Fat32/Write/Parent.antt =====
-- The step of `write` that puts the new entry into the parent's table and the table on the disk.
use if2230_2023_hexos.Prelude.{
  ℕ, ◌+◌, ◌*◌, ◌≤◌, ◌<◌, ◌≡◌, ◌≢◌, ◌∙◌, false, ◌==◌, if◌then◌else◌, List, Buf, arith, dec_lt,
}
use if2230_2023_hexos.Fat32.{DriverRequest, DriverState, IsRequest}
use if2230_2023_hexos.Fat32.Layout.{cluster_map_eq, user_attribute}
use if2230_2023_hexos.Fat32.Cluster.{
  write_clusters, byte_of, disk_fat, read_clusters_lem, byte_of-write_clusters,
}
use if2230_2023_hexos.Fat32.Write.{write_entry}
use if2230_2023_hexos.Fat32.Write.Entry.{
  write_entry-Describes, write_entry-outside, Describes-transfer,
}
use if2230_2023_hexos.Fat32.Write.Chain.{mem, Empty, Spares, not-mem_of_used, not-mem_of_high}
use if2230_2023_hexos.Fat32.Write.Outcomes.{parent_table, ParentInUse, EntryAdded, Framed}

-- The driver's state behind that step.
abbrev pub with_entry : DriverRequest → ℕ → ℕ → DriverState → DriverState
with_entry request c i s =
    let table = write_entry request (parent_table request s) c i in
    record s {
      dir_table_buf = table;
      disk = write_clusters table request.parent_cluster_number 1 s.disk;
    }

module _ (request : DriverRequest) (c i : ℕ) (s : DriverState)
    (low : 2 ≤ request.parent_cluster_number) (high : request.parent_cluster_number ≤ 512) where
  abbrev t : DriverState
  t = with_entry request c i s

  abbrev table : Buf
  table = write_entry request (parent_table request s) c i

  pub byte-entry :
      (e a : ℕ)
      → a < 2048
      → byte_of t.disk e a
        ≡ (if request.parent_cluster_number == e then table a else byte_of s.disk e a)
  byte-entry e a l =
      byte_of-write_clusters table request.parent_cluster_number s.disk e a (omega arith) l

  pub fat-entry : (j : ℕ) → j < 512 → disk_fat t.disk j ≡ disk_fat s.disk j
  fat-entry j h = cluster_map_eq _ _ j h λ a l. ground (arith, byte-entry 1 a l)

  parent-byte :
      (x : ℕ) → x < 2048 → parent_table request s x ≡ byte_of s.disk request.parent_cluster_number x
  parent-byte x l = ground (
    arith,
    read_clusters_lem s.dir_table_buf request.parent_cluster_number s.disk x (omega arith),
  )

  -- If the rest of the call leaves the parent's table alone, the entry is there.
  pub EntryAdded-of :
      {s' : DriverState}
      → IsRequest request
      → c < 512
      → 1 ≤ i
      → i < 64
      → user_attribute (parent_table request s) i ≢ 0b1010_1010
      → ((x : ℕ)
          → x < 2048
          → byte_of s'.disk request.parent_cluster_number x
            ≡ byte_of t.disk request.parent_cluster_number x)
      → EntryAdded request c i s s'
  EntryAdded-of r small first bound free same = record {
    index_low = first;
    index_high = bound;
    was_free = λ e. free (parent-byte (32 * i + 12) (omega arith) ∙ e);
    entry =
        Describes-transfer bound
          (λ x l. same x l ∙ ground (arith, byte-entry request.parent_cluster_number x l))
          (write_entry-Describes request (parent_table request s) c i r (omega arith));
    others = λ x l out. ground (
      arith,
      same x l,
      byte-entry request.parent_cluster_number x l,
      write_entry-outside request (parent_table request s) c i x out,
      parent-byte x l,
    );
  }

  pub Framed-of : {s' : DriverState} {cs : List ℕ} → Spares t s' cs → Framed request s s' cs
  Framed-of spares = record {
    bytes = λ e a l ne other out. ground (arith, spares.bytes e a l ne out, byte-entry e a l);
    entries = λ j h out. spares.entries j h out ∙ fat-entry j h;
    synced = spares.synced;
  }

  -- A parent in use is none of the new clusters.
  pub not-mem-parent :
      (lo : ℕ) (cs : List ℕ)
      → ParentInUse request s
      → Empty s.disk lo cs
      → mem request.parent_cluster_number cs ≡ false
  not-mem-parent lo cs used e = elim (dec_lt request.parent_cluster_number 512) [
    | yes l ↦ not-mem_of_used s.disk lo cs request.parent_cluster_number (used l) e
    | no l ↦ not-mem_of_high s.disk lo cs request.parent_cluster_number (omega arith) e
  ]
