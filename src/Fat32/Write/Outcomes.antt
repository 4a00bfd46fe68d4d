-- ===== src/Fat32/Write/Outcomes.antt =====
-- The outcomes that a call of `write` can have.
use if2230_2023_hexos.Prelude.{
  ℕ, ◌+◌, ◌*◌, ◌≤◌, ◌<◌, ◌≡◌, ◌≢◌, ◌⊎◌, true, false, List, [], ◌∷◌, Buf, ℤ, pos, minus_one,
}
use if2230_2023_hexos.Fat32.{DriverRequest, DriverState, Run, done}
use if2230_2023_hexos.Fat32.Layout.{user_attribute}
use if2230_2023_hexos.Fat32.Cluster.{read_clusters, byte_of, disk_fat}
use if2230_2023_hexos.Fat32.Search.{is_bad_parent, is_same_entry}
use if2230_2023_hexos.Fat32.Write.Entry.{Describes}
use if2230_2023_hexos.Fat32.Write.Folder.{FolderHead}
use if2230_2023_hexos.Fat32.Write.Chain.{length, mem, Unfinished, Chain, Holds, Empty, IsSynced}

-- The parent's directory table, as the call reads it.
abbrev pub parent_table : DriverRequest → DriverState → Buf
parent_table request s = read_clusters s.dir_table_buf request.parent_cluster_number 1 s.disk

-- The parent's cluster is in use, if the map has an entry for it.
abbrev pub ParentInUse : DriverRequest → DriverState → Type 0
ParentInUse request s =
    request.parent_cluster_number < 512 → disk_fat s.disk request.parent_cluster_number ≢ 0

-- Entry `i` of the parent's table on the disk, which was free, now describes the request's file or
-- folder at cluster `c`, and the other entries are as before.
pub record EntryAdded (request : DriverRequest) (c i : ℕ) (s s' : DriverState) : Type 0 where
  pub index_low : 1 ≤ i
  pub index_high : i < 64
  pub was_free : user_attribute (byte_of s.disk request.parent_cluster_number) i ≢ 0b1010_1010
  pub entry : Describes request (byte_of s'.disk request.parent_cluster_number) c i
  pub others :
      (x : ℕ)
      → x < 2048
      → (x < 32 * i) ⊎ (32 * i + 32 ≤ x)
      → byte_of s'.disk request.parent_cluster_number x
        ≡ byte_of s.disk request.parent_cluster_number x

-- Beside the FAT and the parent's table only the clusters `cs` have changed.
pub record Framed (request : DriverRequest) (s s' : DriverState) (cs : List ℕ) : Type 0 where
  pub bytes :
      (e a : ℕ)
      → a < 2048
      → e ≢ 1
      → e ≢ request.parent_cluster_number
      → mem e cs ≡ false
      → byte_of s'.disk e a ≡ byte_of s.disk e a
  pub entries : (j : ℕ) → j < 512 → mem j cs ≡ false → disk_fat s'.disk j ≡ disk_fat s.disk j
  pub synced : IsSynced s'

-- The parent is a directory, and no entry of its table is the requested one, or entry 0 is, which the
-- search takes for none.
abbrev pub Allowed : DriverRequest → DriverState → Type 0
Allowed request s =
    (is_bad_parent request (parent_table request s) ≡ false)
    × ((is_same_entry request (parent_table request s) 0 ≡ true)
        ⊎ ((l : ℕ) → l < 64 → is_same_entry request (parent_table request s) l ≡ false))

pub data Written (request : DriverRequest) (s : DriverState) : Run (ℤ × DriverState) → Type 0 where
  bad_parent :
      {s' : DriverState}
      → is_bad_parent request (parent_table request s) ≡ true
      → s'.disk ≡ s.disk
      → s'.fat_table ≡ s.fat_table
      → Written request s (done (pos 2, s'))
  exists :
      {s' : DriverState} (i : ℕ)
      → 0 < i
      → i < 64
      → is_same_entry request (parent_table request s) i ≡ true
      → s'.disk ≡ s.disk
      → s'.fat_table ≡ s.fat_table
      → Written request s (done (pos 1, s'))
  no_room :
      {s' : DriverState}
      → ((l : ℕ) → 2 ≤ l → l < 512 → disk_fat s.disk l ≢ 0)
        ⊎ ((l : ℕ) → 1 ≤ l → l < 64 → user_attribute (parent_table request s) l ≡ 0b1010_1010)
      → s'.disk ≡ s.disk
      → s'.fat_table ≡ s.fat_table
      → Allowed request s
      → Written request s (done (minus_one, s'))
  cut_short :
      {s' : DriverState} (c i : ℕ) (cs : List ℕ)
      → 2 ≤ c
      → EntryAdded request c i s s'
      → Empty s.disk c cs
      → 2048 * length cs < request.buffer_size
      → ((j : ℕ) → 2 ≤ j → j < 512 → mem j cs ≡ false → disk_fat s.disk j ≢ 0)
      → Framed request s s' cs
      → Unfinished request c 0 s' cs
      → Allowed request s
      → Written request s (done (minus_one, s'))
  file :
      {s' : DriverState} (c i : ℕ) (cs : List ℕ)
      → 0 < request.buffer_size
      → EntryAdded request c i s s'
      → Chain s'.disk c cs
      → Holds request s'.disk 0 cs
      → Empty s.disk 2 cs
      → request.buffer_size ≤ 2048 * length cs
      → 2048 * length cs < request.buffer_size + 2048
      → Framed request s s' cs
      → Allowed request s
      → Written request s (done (pos 0, s'))
  folder :
      {s' : DriverState} (c i : ℕ)
      → request.buffer_size ≡ 0
      → EntryAdded request c i s s'
      → FolderHead request.name request.parent_cluster_number (byte_of s'.disk c)
      → disk_fat s'.disk c ≡ 0x0FFF_FFFF
      → ((a : ℕ) → 32 ≤ a → a < 2048 → byte_of s'.disk c a ≡ byte_of s.disk c a)
      → Empty s.disk 2 (c ∷ [])
      → Framed request s s' (c ∷ [])
      → Allowed request s
      → Written request s (done (pos 0, s'))
