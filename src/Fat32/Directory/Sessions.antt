-- ===== src/Fat32/Directory/Sessions.antt =====
-- fat32.c: the calls on one directory as operations on its map.
use if2230_2023_hexos.Prelude.{
  ℕ, suc, ◌<◌, ◌≡◌, ◌≢◌, refl, sym, ap, ◌∙◌, false, List, [], ◌∷◌, Buf, ℤ, pos,
}
use mathlib.Core.Path.{subst}
use if2230_2023_hexos.Fat32.{DriverRequest, DriverState, IsRequest, done}
use if2230_2023_hexos.Fat32.Cluster.{byte_of, disk_fat}
use if2230_2023_hexos.Fat32.Init.{initialize_filesystem_fat32}
use if2230_2023_hexos.Fat32.Init.Boot.{initialize-formatted}
use if2230_2023_hexos.Fat32.Read.{is_file_entry, read, read_directory}
use if2230_2023_hexos.Fat32.Write.{write}
use if2230_2023_hexos.Fat32.Write.Outcomes.{ParentInUse}
use if2230_2023_hexos.Fat32.Read.Outcomes.{Unchanged}
use if2230_2023_hexos.Fat32.Sound.{
  IsSound, IsSound-Unchanged, initialize-IsSound, read-IsSound, read_directory-IsSound,
  read-Unchanged, read_directory-Unchanged,
}
use if2230_2023_hexos.Fat32.Sound.Writing.{write-IsSound}
use if2230_2023_hexos.Fat32.Sound.Refused.{write-Unchanged}
use if2230_2023_hexos.Fat32.Directory.{find, Asks}
use if2230_2023_hexos.Fat32.Directory.Answers.{Answer, read-Answer}
use if2230_2023_hexos.Fat32.Directory.Insertions.{Inserted, write-Inserted}
use if2230_2023_hexos.Fat32.Directory.Steps.{
  SameOwn, SameOwn-trans, SameOwn-disk, IsMap, IsMap-disk, IsMap-write,
}
use if2230_2023_hexos.Fat32.Directory.Blank.{IsBlank, IsMap-blank}

-- Calls of the driver that return, and the map of the directory in cluster `p` behind them: a `write`
-- that returns 0, of a file that is not empty, with 32-bit numbers and a name that is not empty and not
-- that of the directory's own entry; a `write` of any request that returns a code above 0; a `read` or
-- `read_directory` of any request that returns; and a start from the disk with any memory.
pub data Session (p : ℕ) (s : DriverState) : DriverState → List DriverRequest → Type 0 where
  begin : Session p s s []
  stores :
      {t u : DriverState} {files : List DriverRequest} (r : DriverRequest)
      → Session p s t files
      → IsRequest r
      → Asks p s.disk r
      → 0 < r.buffer_size
      → write r t ≡ done (pos 0, u)
      → Session p s u (r ∷ files)
  refuses :
      {t u : DriverState} {files : List DriverRequest} {n : ℕ} (r : DriverRequest)
      → Session p s t files
      → write r t ≡ done (pos (suc n), u)
      → Session p s u files
  reads :
      {t u : DriverState} {files : List DriverRequest} {code : ℤ} {out : Buf} (q : DriverRequest)
      → Session p s t files
      → read q t ≡ done (code, out, u)
      → Session p s u files
  lists :
      {t u : DriverState} {files : List DriverRequest} {code : ℤ} {out : Buf} (q : DriverRequest)
      → Session p s t files
      → read_directory q t ≡ done (code, out, u)
      → Session p s u files
  restarts :
      {t : DriverState} {files : List DriverRequest} (buf : Buf) (u : DriverState)
      → Session p s t files
      → u.disk ≡ t.disk
      → Session p s (initialize_filesystem_fat32 buf u) files

-- A request for a file of the directory stays one.
Asks-kept :
    (p : ℕ) {s t : DriverState} {q : DriverRequest}
    → SameOwn p s t
    → Asks p s.disk q
    → Asks p t.disk q
Asks-kept p {q} same asks = record {
  parent = asks.parent;
  named = asks.named;
  other = same.same q ∙ asks.other;
}

-- `write` as an operation on the map of the directory in cluster `p`.
stores-IsMap :
    (p : ℕ) (r : DriverRequest) (t : DriverState) {u : DriverState} {files : List DriverRequest}
    → IsMap p t files
    → IsRequest r
    → Asks p t.disk r
    → 0 < r.buffer_size
    → write r t ≡ done (pos 0, u)
    → IsMap p u (r ∷ files) × SameOwn p t u
stores-IsMap p r t {u} {files} map valid asks size e =
    subst (λ e. IsMap e u (r ∷ files) × SameOwn e t u) asks.parent
      (IsMap-write r t (subst (λ e. IsMap e t files) (sym asks.parent) map) size
        (subst (λ e. is_file_entry r (byte_of t.disk e) 0 ≡ false) (sym asks.parent) asks.other)
        valid e)

-- What a session keeps.
record Kept (p : ℕ) (s t : DriverState) (files : List DriverRequest) : Type 0 where
  map : IsMap p t files
  own : SameOwn p s t
  sound : IsSound t

-- A call that leaves the disk.
Kept-disk :
    (p : ℕ) {s t u : DriverState} {files : List DriverRequest}
    → u.disk ≡ t.disk
    → IsSound u
    → Kept p s t files
    → Kept p s u files
Kept-disk p disk sound kept = record {
  map = IsMap-disk p disk sound.synced kept.map;
  own = SameOwn-trans p kept.own (SameOwn-disk p disk);
  sound = sound;
}

-- A start from a formatted disk leaves it.
start-disk :
    (buf : Buf) (t u : DriverState)
    → IsSound t
    → u.disk ≡ t.disk
    → (initialize_filesystem_fat32 buf u).disk ≡ t.disk
start-disk buf t u sound same =
    ap (λ (v : DriverState). v.disk)
      (initialize-formatted buf u (λ j l. ap (λ (d : Buf). d j) same ∙ sound.signed j l))
    ∙ same

Session-Kept :
    (p : ℕ) {s t : DriverState} {files : List DriverRequest}
    → IsMap p s []
    → IsSound s
    → Session p s t files
    → Kept p s t files
Session-Kept p start sound begin = record {
  map = start;
  own = record { same = λ q. refl };
  sound = sound;
}
Session-Kept p start sound (stores {t} r calls valid asks size e) =
    let kept = Session-Kept p start sound calls in
    let used : ParentInUse r t =
      λ l. subst (λ e. disk_fat t.disk e ≢ 0) (sym asks.parent) kept.map.tidy.in_use in
    let (map, own) = stores-IsMap p r t kept.map valid (Asks-kept p kept.own asks) size e in
    record {
      map = map;
      own = SameOwn-trans p kept.own own;
      sound = write-IsSound r t valid used kept.sound e;
    }
Session-Kept p start sound (refuses {t} {u} r calls e) =
    let kept = Session-Kept p start sound calls in
    let same : Unchanged t u = write-Unchanged r t e in
    Kept-disk p same.0 (IsSound-Unchanged same kept.sound) kept
Session-Kept p start sound (reads {t} q calls e) =
    let kept = Session-Kept p start sound calls in
    Kept-disk p (read-Unchanged q t e).0 (read-IsSound q t kept.sound e) kept
Session-Kept p start sound (lists {t} q calls e) =
    let kept = Session-Kept p start sound calls in
    Kept-disk p (read_directory-Unchanged q t e).0 (read_directory-IsSound q t kept.sound e) kept
Session-Kept p start sound (restarts {t} buf u calls same) =
    let kept = Session-Kept p start sound calls in
    Kept-disk p (start-disk buf t u kept.sound same) (initialize-IsSound buf u) kept

-- Begin on a sound disk with a blank directory: one in a cluster of 2 to 511 that is in use, with zeros
-- behind its own entry. Make any sequence of calls: `write` into this directory that returns 0, of files
-- that are not empty, with 32-bit numbers and names that are neither empty nor that of the directory's own
-- entry; any `write` that returns 1 or 2; any `read` and `read_directory`; and starts from the disk with
-- any memory. Then `read` answers each request for a name in this directory that is neither empty nor
-- that of the own entry as a finite map does: 3 if no call has stored a file of that name and extension,
-- 2 if the buffer is too small for the one that has, and otherwise 0 with the first 512 of the bytes
-- that it has stored.
pub read-Session :
    (q : DriverRequest) (s t : DriverState) {files : List DriverRequest}
    → IsBlank q.parent_cluster_number s
    → Session q.parent_cluster_number s t files
    → Asks q.parent_cluster_number s.disk q
    → Answer q t (find q files) (read q t)
read-Session q s t {files} blank calls asks =
    let p : ℕ = q.parent_cluster_number in
    let kept : Kept p s t files = Session-Kept p (IsMap-blank p s blank) blank.sound calls in
    read-Answer q t kept.map.tidy (find q files) (kept.map.represents q (Asks-kept p kept.own asks))

-- Begin on a sound disk with a blank directory: one in a cluster of 2 to 511 that is in use, with zeros
-- behind its own entry. Make any sequence of calls: `write` into this directory that returns 0, of files
-- that are not empty, with 32-bit numbers and names that are neither empty nor that of the directory's own
-- entry; any `write` that returns 1 or 2; any `read` and `read_directory`; and starts from the disk with
-- any memory. Then `write` into this directory, of such a file again, inserts as a finite map does: it
-- returns 1, without a change of the disk and the FAT, if a call has stored a file of that name and
-- extension, and otherwise 0, or -1 if no entry is free or too few clusters are.
pub write-Session :
    (r : DriverRequest) (s t : DriverState) {files : List DriverRequest}
    → IsBlank r.parent_cluster_number s
    → Session r.parent_cluster_number s t files
    → Asks r.parent_cluster_number s.disk r
    → IsRequest r
    → 0 < r.buffer_size
    → Inserted r t (find r files) (write r t)
write-Session r s t {files} blank calls asks valid size =
    let p : ℕ = r.parent_cluster_number in
    let kept : Kept p s t files = Session-Kept p (IsMap-blank p s blank) blank.sound calls in
    let asks' : Asks p t.disk r = Asks-kept p kept.own asks in
    write-Inserted r t kept.map.tidy size asks'.other (find r files) valid
      (kept.map.represents r asks')
