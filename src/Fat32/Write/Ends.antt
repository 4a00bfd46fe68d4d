-- ===== src/Fat32/Write/Ends.antt =====
-- fat32.c: the loop of `write` from its first round to its end.
use if2230_2023_hexos.Prelude.{
  ℕ, zero, suc, ◌+◌, ◌-◌, ◌*◌, ◌^◌, ◌≤◌, ◌<◌, ◌≡◌, inl, inr, ◌==◌, leb, false, Bool-cases, [], ◌∷◌,
  arith,
}
use if2230_2023_hexos.Fat32.{DriverRequest, DriverState}
use if2230_2023_hexos.Fat32.Cluster.{disk_fat}
use if2230_2023_hexos.Fat32.Search.{find_next_empty_cluster}
use if2230_2023_hexos.Fat32.Search.Laws.{none_left, first_empty, find_next_empty_cluster-FirstEmpty}
use if2230_2023_hexos.Fat32.Write.{write_chunk, save_fat, write_file}
use if2230_2023_hexos.Fat32.Write.Round.{cluster_map-write_chunk}
use if2230_2023_hexos.Fat32.Write.Loop.{
  Outcome, stored, full, Stored-last, Spares-chunk, Unfinished-chunk, entry-round, Outcome-link,
}

-- Begun at an empty cluster of 2 to 511, with bytes left, fuel for every byte and an offset that does
-- not wrap, the loop of `write` always ends: it returns 0 with all bytes in a chain of rising,
-- formerly empty clusters, as many as they need, or -1 when the empty clusters from there on are too
-- few. These then hold the first bytes, each but the last one is linked to the next, and the last
-- one is still empty in the FAT. Nothing else on the disk changes, and the two FATs agree.
pub write_file-Outcome :
    (fuel : ℕ) (request : DriverRequest) (c size n : ℕ) (s : DriverState)
    → size ≤ fuel
    → 0 < size
    → 2 ≤ c
    → c < 512
    → disk_fat s.disk c ≡ 0
    → n * 2048 + size < 2 ^ 32
    → Outcome request c size n s (write_file fuel request c size n s)
unfolding write_file
write_file-Outcome zero request c size n s fuel some_left low high free small = absurd (omega arith)
write_file-Outcome (suc f) request c size n s fuel some_left low high free small =
    let t : DriverState = write_chunk request c n s in
    let next : ℕ = find_next_empty_cluster t.fat_table c in
    let in_map : leb 512 c ≡ false = ground arith in
    let going : (size == 0) ≡ false = ground arith in
    elim (Bool-cases (leb size 2048)) [
      | inl fits ↦
          rw (going, in_map, fits)
            (stored (c ∷ [])
              (Stored-last request c size n s low high free small some_left (ground arith)))
      | inr more ↦ elim (find_next_empty_cluster-FirstEmpty t.fat_table c low high) [
        | none_left e used ↦
            rw (going, in_map, more, e)
              (full (c ∷ []) (omega arith, high, free, tt) (ground arith)
                (λ j l h out.
                  ground (arith, used j, cluster_map-write_chunk request c n s low high j h))
                (Spares-chunk request c size n s low high free small)
                (Unfinished-chunk request c size n s low high free small))
        | first_empty above in_range e used ↦
            let found : (next == 0) ≡ false = ground arith in
            rw (going, in_map, more, found)
              (Outcome-link request c size n s low high free small next (omega arith) in_range
                (ground arith)
                (λ l a b. ground (arith, used l, cluster_map-write_chunk request c n s low high l))
                (write_file-Outcome f request next (size - 2048) (n + 1) (save_fat c next t)
                  (ground arith) (ground arith) (omega arith) in_range
                  (ground (
                    arith,
                    entry-round request c size n s low high free small next next in_range,
                    cluster_map-write_chunk request c n s low high next,
                  ))
                  (ground arith)))
      ]
    ]
