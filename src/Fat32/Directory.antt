-- ===== src/Fat32/Directory.antt =====
-- fat32.c: a directory as a finite map from names to files. The map is the list of the requests that
-- have stored the files, the latest one first.
pub mod Entries
pub mod Adding
pub mod Lookup
pub mod Answers
pub mod Insertions
pub mod Steps
pub mod Blank
pub mod Sessions
pub mod Folders
use if2230_2023_hexos.Prelude.{
  ℕ, zero, suc, ◌+◌, ◌*◌, ◌≤◌, ◌<◌, ◌≡◌, ◌≢◌, Bool, true, false, ◌&&◌, ◌==◌, if◌then◌else◌, List,
  [], ◌∷◌, Option, none, some, Buf,
}
use if2230_2023_hexos.Prelude.Scan.{first_index}
use if2230_2023_hexos.Fat32.{DriverRequest, DriverState}
use if2230_2023_hexos.Fat32.Layout.{user_attribute, cluster_low, filesize}
use if2230_2023_hexos.Fat32.Cluster.{byte_of, disk_fat}
use if2230_2023_hexos.Fat32.Search.{is_directory}
use if2230_2023_hexos.Fat32.Read.{is_file_entry}
use if2230_2023_hexos.Fat32.Write.Chain.{IsSynced}

-- The first `k` bytes are the same.
unfoldable pub agree : ℕ → Buf → Buf → Bool
agree zero a b = true
agree (suc k) a b = (a k == b k) && agree k a b

abbrev pub same_name : DriverRequest → DriverRequest → Bool
same_name q r = agree 8 q.name r.name && agree 3 q.ext r.ext

-- The map's lookup.
abbrev pub find : DriverRequest → List DriverRequest → Option DriverRequest
find q [] = none
find q (r ∷ rs) = if same_name q r then some r else find q rs

-- The entry that the loop of `read` finds on the disk.
abbrev pub entry_for : DriverRequest → Buf → Option ℕ
entry_for q table = first_index (is_file_entry q table) 64 0

-- The directory in cluster `p` has no file for `q`, or one with the size and the first cluster of the
-- bytes that the map has.
abbrev pub Shows : ℕ → Buf → DriverRequest → Option DriverRequest → Type 0
Shows p disk q none = entry_for q (byte_of disk p) ≡ none
Shows p disk q (some r) =
    (i : ℕ) × (entry_for q (byte_of disk p) ≡ some i)
    × (filesize (byte_of disk p) i ≡ r.buffer_size)
    × (cluster_low (byte_of disk p) i < 512)
    × ((a : ℕ) → a < 2048 → byte_of disk (cluster_low (byte_of disk p) i) a ≡ r.buf a)

-- A request for a file of the directory in cluster `p` with a name, which is not the directory's own.
pub record Asks (p : ℕ) (disk : Buf) (q : DriverRequest) : Type 0 where
  pub parent : q.parent_cluster_number ≡ p
  pub named : q.name 0 ≢ 0
  pub other : is_file_entry q (byte_of disk p) 0 ≡ false

abbrev pub Represents : ℕ → Buf → List DriverRequest → Type 0
Represents p disk files = (q : DriverRequest) → Asks p disk q → Shows p disk q (find q files)

-- A cluster that the FAT has in use, and not for the directory itself.
abbrev pub OwnCluster : ℕ → Buf → ℕ → Type 0
OwnCluster p disk c = (2 ≤ c) × (c < 512) × (c ≢ p) × (disk_fat disk c ≢ 0)

-- The entries of the directory in cluster `p`: a free one has no name, and one in use has a cluster of
-- its own.
pub record Tidy (p : ℕ) (s : DriverState) : Type 0 where
  pub synced : IsSynced s
  pub low : 2 ≤ p
  pub high : p < 512
  pub in_use : disk_fat s.disk p ≢ 0
  pub folder : (is_directory (byte_of s.disk p) == 0) ≡ false
  pub free :
      (l : ℕ)
      → 1 ≤ l
      → l < 64
      → user_attribute (byte_of s.disk p) l ≢ 0b1010_1010
      → byte_of s.disk p (32 * l) ≡ 0
  pub taken :
      (l : ℕ)
      → 1 ≤ l
      → l < 64
      → user_attribute (byte_of s.disk p) l ≡ 0b1010_1010
      → OwnCluster p s.disk (cluster_low (byte_of s.disk p) l)
