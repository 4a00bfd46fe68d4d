-- ===== src/Fat32/Write/Loop.antt =====
-- Rounds of the loop of `write` put together: the last one, and one in front of the rest.
use if2230_2023_hexos.Prelude.{
  ℕ, ◌+◌, ◌-◌, ◌*◌, ◌^◌, ◌≤◌, ◌<◌, ◌≡◌, ◌≢◌, sym, ◌∙◌, if◌then◌else◌, false, ◌==◌, List, [], ◌∷◌, ℤ,
  pos, minus_one, arith,
}
use if2230_2023_hexos.Fat32.{DriverRequest, DriverState, Run, done}
use if2230_2023_hexos.Fat32.Cluster.{byte_of, disk_fat}
use if2230_2023_hexos.Fat32.Write.{write_chunk, save_fat}
use if2230_2023_hexos.Fat32.Write.Round.{
  byte_of-write_chunk, cluster_map-write_chunk, disk_fat-write_chunk, cluster_map-save_fat,
  disk_fat-save_fat, byte_of-save_fat,
}
use if2230_2023_hexos.Fat32.Write.Chain.{
  length, mem, last, link, still_empty, onward, Unfinished, Empty, Spares, Stored, Empty-mono,
  Empty-transfer, not-mem-Empty,
}

-- How the loop ends, begun at cluster `c` with `size` bytes left, the first of them in chunk `n`.
-- If it fails, `cs` are all the empty clusters from `c` on, they are too few, and they hold the first
-- chunks.
pub data Outcome (request : DriverRequest) (c size n : ℕ) (s : DriverState)
    : Run (ℤ × DriverState) → Type 0 where
  stored :
      {s' : DriverState} (cs : List ℕ)
      → Stored request c size n s s' cs
      → Outcome request c size n s (done (pos 0, s'))
  full :
      {s' : DriverState} (cs : List ℕ)
      → Empty s.disk c cs
      → 2048 * length cs < size
      → ((j : ℕ) → c ≤ j → j < 512 → mem j cs ≡ false → disk_fat s.disk j ≢ 0)
      → Spares s s' cs
      → Unfinished request c n s' cs
      → Outcome request c size n s (done (minus_one, s'))

module _ (request : DriverRequest) (c size n : ℕ) (s : DriverState) (low : 2 ≤ c) (high : c < 512)
    (free : disk_fat s.disk c ≡ 0) (small : n * 2048 + size < 2 ^ 32) where
  pub entry-round :
      (v j : ℕ)
      → j < 512
      → v < 2 ^ 32
      → disk_fat (save_fat c v (write_chunk request c n s)).disk j
        ≡ (if c == j then v else disk_fat s.disk j)
  entry-round v j h w = ground (
    arith,
    disk_fat-save_fat c v (write_chunk request c n s) j h,
    cluster_map-save_fat c v (write_chunk request c n s) j,
    cluster_map-write_chunk request c n s low high j h,
  )

  byte-round :
      (v e a : ℕ)
      → a < 2048
      → e ≢ 1
      → byte_of (save_fat c v (write_chunk request c n s)).disk e a
        ≡ (if c == e then request.buf (2048 * n + a) else byte_of s.disk e a)
  byte-round v e a l ne = ground (
    arith,
    byte_of-save_fat c v (write_chunk request c n s) e a l ne,
    byte_of-write_chunk request c n s low high e a l,
  )

  Spares-round : (v : ℕ) → v < 2 ^ 32 → Spares s (save_fat c v (write_chunk request c n s)) (c ∷ [])
  Spares-round v w = record {
    bytes = λ e a l ne out. ground (arith, byte-round v e a l ne);
    entries = λ j h out. ground (arith, entry-round v j h w);
    synced = λ j h. sym (disk_fat-save_fat c v (write_chunk request c n s) j h);
  }

  -- The last round.
  pub Stored-last :
      0 < size
      → size ≤ 2048
      → Stored request c size n s (save_fat c 0x0FFF_FFFF (write_chunk request c n s)) (c ∷ [])
  Stored-last some_left fits = record {
    chain = last c (ground (arith, entry-round 0x0FFF_FFFF c high));
    holds = (λ a l. ground (arith, byte-round 0x0FFF_FFFF c a l), tt);
    empty = (omega arith, high, free, tt);
    enough = omega arith;
    tight = omega arith;
    spares = Spares-round 0x0FFF_FFFF (omega arith);
  }

  -- The last round of a failing call: the chunk is on the disk, but no FAT entry leads to it.
  pub Spares-chunk : Spares s (write_chunk request c n s) (c ∷ [])
  Spares-chunk = record {
    bytes = λ e a l ne out. ground (arith, byte_of-write_chunk request c n s low high e a l);
    entries = λ j h out. disk_fat-write_chunk request c n s low high j h;
    synced = λ j h.
        cluster_map-write_chunk request c n s low high j h
        ∙ sym (disk_fat-write_chunk request c n s low high j h);
  }

  pub Unfinished-chunk : Unfinished request c n (write_chunk request c n s) (c ∷ [])
  Unfinished-chunk = record {
    linked = still_empty c (disk_fat-write_chunk request c n s low high c high ∙ free);
    holds = (λ a l. ground (arith, byte_of-write_chunk request c n s low high c a l), tt);
  }

  module _ (next : ℕ) (above : c < next) (in_range : next < 512) where
    Spares-link :
        {s' : DriverState} (cs : List ℕ)
        → Spares (save_fat c next (write_chunk request c n s)) s' cs
        → Spares s s' (c ∷ cs)
    Spares-link cs rest = record {
      bytes = λ e a l ne out. ground (arith, rest.bytes e a l ne, byte-round next e a l ne);
      entries = λ j h out. ground (arith, rest.entries j h, entry-round next j h);
      synced = rest.synced;
    }

    Empty-link :
        (cs : List ℕ)
        → Empty (save_fat c next (write_chunk request c n s)).disk next cs
        → Empty s.disk c (c ∷ cs)
    Empty-link cs e = (
      omega arith,
      high,
      free,
      Empty-mono s.disk (c + 1) next cs (omega arith) (
          Empty-transfer (save_fat c next (write_chunk request c n s)).disk s.disk next cs
            (λ j l h. ground (arith, entry-round next j h)) e),
    )

    -- A round that is not the last, and all that follows it.
    Stored-link :
        {s' : DriverState} (cs : List ℕ)
        → 2048 < size
        → Stored request next
            (size - 2048)
            (n + 1)
            (save_fat c next (write_chunk request c n s))
            s'
            cs
        → Stored request c size n s s' (c ∷ cs)
    Stored-link cs more rest =
        let out : mem c cs ≡ false =
          not-mem-Empty (save_fat c next (write_chunk request c n s)).disk next cs c above
            rest.empty in
        record {
          chain =
              link c next (ground (arith, rest.spares.entries c high out, entry-round next c high))
                rest.chain;
          holds =
              (λ a l. ground (arith, rest.spares.bytes c a l, byte-round next c a l), rest.holds);
          empty = Empty-link cs rest.empty;
          enough = omega (arith, rest.enough);
          tight = omega (arith, rest.tight);
          spares = Spares-link cs rest.spares;
        }

    Unfinished-link :
        {s' : DriverState} (cs : List ℕ)
        → Empty (save_fat c next (write_chunk request c n s)).disk next cs
        → Spares (save_fat c next (write_chunk request c n s)) s' cs
        → Unfinished request next (n + 1) s' cs
        → Unfinished request c n s' (c ∷ cs)
    Unfinished-link cs empty spares rest =
        let out : mem c cs ≡ false =
          not-mem-Empty (save_fat c next (write_chunk request c n s)).disk next cs c above empty in
        record {
          linked =
              onward c next (ground (arith, spares.entries c high out, entry-round next c high))
                rest.linked;
          holds = (λ a l. ground (arith, spares.bytes c a l, byte-round next c a l), rest.holds);
        }

    pub Outcome-link :
        {r : Run (ℤ × DriverState)}
        → 2048 < size
        → ((l : ℕ) → c + 1 ≤ l → l < next → disk_fat s.disk l ≢ 0)
        → Outcome request next (size - 2048) (n + 1) (save_fat c next (write_chunk request c n s)) r
        → Outcome request c size n s r
    Outcome-link more used (stored cs rest) = stored (c ∷ cs) (Stored-link cs more rest)
    Outcome-link more used (full cs e few rest spares part) =
        full (c ∷ cs) (Empty-link cs e) (omega arith)
          (λ j l h out. ground (arith, rest j, used j, entry-round next j h))
          (Spares-link cs spares) (Unfinished-link cs e spares part)
