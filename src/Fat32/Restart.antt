-- ===== src/Fat32/Restart.antt =====
-- fat32.c: sequences of calls of the driver, and a restart behind them.
use if2230_2023_hexos.Prelude.{ℕ, ◌<◌, ◌≡◌, refl, sym, ◌∙◌, Buf, ℤ, pos, arith}
use if2230_2023_hexos.Fat32.{DriverRequest, DriverState, IsRequest, done}
use if2230_2023_hexos.Fat32.Layout.{cluster_map, cluster_map_eq}
use if2230_2023_hexos.Fat32.Cluster.{byte_of, read_clusters_lem}
use if2230_2023_hexos.Fat32.Init.{initialize_filesystem_fat32}
use if2230_2023_hexos.Fat32.Init.Boot.{initialize-formatted}
use if2230_2023_hexos.Fat32.Read.{read, read_directory}
use if2230_2023_hexos.Fat32.Write.{write}
use if2230_2023_hexos.Fat32.Write.Outcomes.{ParentInUse}
use if2230_2023_hexos.Fat32.Delete.{delete}
use if2230_2023_hexos.Fat32.Sound.{
  IsSound, initialize-IsSound, read-IsSound, read_directory-IsSound,
}
use if2230_2023_hexos.Fat32.Sound.Writing.{write-IsSound}
use if2230_2023_hexos.Fat32.Sound.Deleting.{delete-IsSound}

-- One call that returns: of a `write` the parent is in use, and a `delete` returns 0.
pub data Step : DriverState → DriverState → Type 0 where
  reads :
      {s s' : DriverState} {code : ℤ} {out : Buf} (request : DriverRequest)
      → read request s ≡ done (code, out, s')
      → Step s s'
  lists :
      {s s' : DriverState} {code : ℤ} {out : Buf} (request : DriverRequest)
      → read_directory request s ≡ done (code, out, s')
      → Step s s'
  writes :
      {s s' : DriverState} {code : ℤ} (request : DriverRequest)
      → IsRequest request
      → ParentInUse request s
      → write request s ≡ done (code, s')
      → Step s s'
  deletes :
      {s s' : DriverState} (fuel : ℕ) (request : DriverRequest) (stack : Buf)
      → delete fuel request stack s ≡ done (pos 0, s')
      → Step s s'
  restarts : {s : DriverState} (buf : Buf) → Step s (initialize_filesystem_fat32 buf s)

-- Any number of calls, the last one outermost.
pub data Reachable : DriverState → DriverState → Type 0 where
  here : {s : DriverState} → Reachable s s
  after : {s t u : DriverState} → Reachable s t → Step t u → Reachable s u

Step-IsSound : {s s' : DriverState} → Step s s' → IsSound s → IsSound s'
Step-IsSound (reads {s} request e) sound = read-IsSound request s sound e
Step-IsSound (lists {s} request e) sound = read_directory-IsSound request s sound e
Step-IsSound (writes {s} request r used e) sound = write-IsSound request s r used sound e
Step-IsSound (deletes {s} fuel request stack e) sound = delete-IsSound fuel request stack s sound e
Step-IsSound (restarts {s} buf) sound = initialize-IsSound buf s

Reachable-IsSound : {s s' : DriverState} → Reachable s s' → IsSound s → IsSound s'
Reachable-IsSound here sound = sound
Reachable-IsSound (after calls step) sound = Step-IsSound step (Reachable-IsSound calls sound)

-- After an initialisation and any sequence of calls (of `read`, `read_directory`, initialisations,
-- `write` with 32-bit numbers and a parent in use, and `delete` as far as it returns 0) the disk
-- carries the signature and the FAT in memory is the one on the disk, so a start with any
-- memory from that disk leaves the disk as it is and loads the same FAT and the
-- root folder's table.
pub restart-Reachable :
    (buf buf' : Buf) (s t : DriverState) {s' : DriverState}
    → Reachable (initialize_filesystem_fat32 buf s) s'
    → let t' = initialize_filesystem_fat32 buf' (record t { disk = s'.disk }) in
      IsSound s'
      × (t'.disk ≡ s'.disk)
      × ((j : ℕ) → j < 512 → cluster_map t'.fat_table j ≡ cluster_map s'.fat_table j)
      × ((a : ℕ) → a < 2048 → t'.dir_table_buf a ≡ byte_of s'.disk 2 a)
restart-Reachable buf buf' s t {s'} calls =
    let sound : IsSound s' = Reachable-IsSound calls (initialize-IsSound buf s) in
    rw (initialize-formatted buf' (record t { disk = s'.disk }) sound.signed) (
      sound,
      refl,
      λ j h.
          cluster_map_eq _ _ j h
            (λ a l. ground (arith, read_clusters_lem t.fat_table 1 s'.disk a (omega arith)))
          ∙ sym (sound.synced j h),
      λ a l. ground (arith, read_clusters_lem t.dir_table_buf 2 s'.disk a (omega arith)),
    )
