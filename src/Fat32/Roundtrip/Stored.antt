-- ===== src/Fat32/Roundtrip/Stored.antt =====
-- fat32.c: a file that `write` has stored, by its entry and its first cluster.
use if2230_2023_hexos.Prelude.{ℕ, ◌<◌, ◌≡◌, List, Buf, ℤ, pos, arith}
use mathlib.Core.Path.{subst}
use if2230_2023_hexos.Fat32.{DriverRequest, DriverState, Run, done}
use if2230_2023_hexos.Fat32.Cluster.{byte_of}
use if2230_2023_hexos.Fat32.Write.Chain.{Chain, last, link, Holds, Empty}
use if2230_2023_hexos.Fat32.Write.Outcomes.{
  EntryAdded, Written, bad_parent, exists, no_room, cut_short, file, folder,
}

-- What `write` promises of a stored file, with the entry's index and first cluster.
pub data FileStored (request : DriverRequest) (s s' : DriverState) : Type 0 where
  file_stored :
      (c i : ℕ)
      → c < 512
      → EntryAdded request c i s s'
      → ((a : ℕ) → a < 2048 → byte_of s'.disk c a ≡ request.buf a)
      → FileStored request s s'

pub head_of_Chain :
    (request : DriverRequest) {disk : Buf} {c : ℕ} {cs : List ℕ}
    → Chain disk c cs
    → Holds request disk 0 cs
    → (a : ℕ) → a < 2048
    → byte_of disk c a ≡ request.buf a
head_of_Chain request (last c e) h a l = ground (arith, h.0 a l)
head_of_Chain request (link c next e rest) h a l = ground (arith, h.0 a l)

low_of_Chain :
    (old : Buf) {disk : Buf} {c : ℕ} {cs : List ℕ} → Chain disk c cs → Empty old 2 cs → c < 512
low_of_Chain old (last c e) h = h.1
low_of_Chain old (link c next e rest) h = h.1

pub FileStored-of_Written :
    {request : DriverRequest} {s s' : DriverState} {r : Run (ℤ × DriverState)}
    → 0 < request.buffer_size
    → Written request s r
    → r ≡ done (pos 0, s')
    → FileStored request s s'
FileStored-of_Written size (bad_parent b d f) e = cc
FileStored-of_Written size (exists i a b m d f) e = cc
FileStored-of_Written size (no_room why d f _) e = cc
FileStored-of_Written size (cut_short c i cs low entry e1 few rest frame _ _) e = cc
FileStored-of_Written size (folder c i no_size entry head marked stale empty frame _) e =
    absurd (omega arith)
FileStored-of_Written {request} {s} {s'} size
      (file {s' = u} c i cs _ entry chain holds empty _ _ _ _) e =
    let same : u ≡ s' = ground arith in
    subst (FileStored request s) same
      (file_stored c i (low_of_Chain s.disk chain empty) entry (head_of_Chain request chain holds))
