-- ===== src/Fat32/Small.antt =====
-- A small disk for the tests: the root folder `r` has the files `a`, in cluster 3, and `b`, in cluster
-- 4; the other clusters from 5 on are empty.
use if2230_2023_hexos.Prelude.{
  ℕ, ◌+◌, ◌<◌, ◌≡◌, refl, false, ◌==◌, ltb, if◌then◌else◌, [], ◌∷◌, Buf, IsBytes, bytes_of, load32,
  arith,
}
use if2230_2023_hexos.Fat32.{DriverRequest, DriverState, IsRequest}
use if2230_2023_hexos.Fat32.Layout.{cluster_map}
use if2230_2023_hexos.Fat32.Cluster.{byte_of, read_clusters, read_clusters_lem}
use if2230_2023_hexos.Fat32.Search.{is_bad_parent, is_directory}
use if2230_2023_hexos.Fat32.Read.{load_parent}
use if2230_2023_hexos.Fat32.Read.Outcomes.{loaded}
use if2230_2023_hexos.Fat32.Write.Chain.{IsSynced}
use if2230_2023_hexos.Fat32.Write.Outcomes.{ParentInUse}

abbrev pub zeros : Buf
zeros a = 0

abbrev pub small_disk : Buf
small_disk x =
    if ltb x 2048
    then 0
    else if ltb x 2068
    then 255
    else if x == 4096
    then b'r'
    else if x == 4108
    then 0xAA
    else if x == 4128
    then b'a'
    else if x == 4140
    then 0xAA
    else if x == 4154
    then 3
    else if x == 4160
    then b'b'
    else if x == 4172
    then 0xAA
    else if x == 4186
    then 4
    else 0

abbrev pub small_state : DriverState
small_state = record {
  fat_table = byte_of small_disk 1;
  dir_table_buf = zeros;
  cluster_buf = zeros;
  test = zeros;
  disk = small_disk;
}

abbrev pub request_for : ℕ → ℕ → DriverRequest
request_for letter size = record {
  buf = bytes_of (b'h' ∷ b'i' ∷ b'!' ∷ []);
  name = λ a. if a == 0 then letter else 0;
  ext = zeros;
  parent_cluster_number = 2;
  buffer_size = size;
}

pub request_for-IsRequest : (letter : ℕ) → IsRequest (request_for letter 3)
request_for-IsRequest letter = record { parent_width = omega arith; size_width = omega arith }

pub small_state-ParentInUse : (letter : ℕ) → ParentInUse (request_for letter 3) small_state
unfolding cluster_map load32
small_state-ParentInUse letter h p = omega arith

pub small_state-IsSynced : IsSynced small_state
small_state-IsSynced j h = refl

pub small_state-IsBytes : (letter size : ℕ) → IsBytes (loaded (request_for letter size) small_state)
unfolding load_parent
small_state-IsBytes letter size a =
    ground (arith, read_clusters_lem zeros 2 small_disk a (omega arith))

-- The root folder's table, as the driver loads it.
abbrev pub small_table : Buf
small_table = read_clusters zeros 2 1 small_disk

pub small_table_lem : (a : ℕ) → a < 2048 → small_table a ≡ small_disk (4096 + a)
small_table_lem a l = ground (arith, read_clusters_lem zeros 2 small_disk a (omega arith))

pub small_table-fine :
    (letter size : ℕ) → is_bad_parent (request_for letter size) small_table ≡ false
unfolding is_directory load32
small_table-fine letter size = ground (
  arith,
  small_table_lem 12 (omega arith),
  small_table_lem 28 (omega arith),
  small_table_lem 29 (omega arith),
  small_table_lem 30 (omega arith),
  small_table_lem 31 (omega arith),
)
