-- ===== src/Fat32/Directory/Blank.antt =====
-- fat32.c: a directory without files.
use if2230_2023_hexos.Prelude.{ℕ, zero, suc, ◌+◌, ◌*◌, ◌≤◌, ◌<◌, ◌≡◌, ◌≢◌, false, ◌==◌, [], arith}
use if2230_2023_hexos.Prelude.Scan.{first_index-none}
use if2230_2023_hexos.Fat32.{DriverRequest, DriverState}
use if2230_2023_hexos.Fat32.Cluster.{byte_of, disk_fat}
use if2230_2023_hexos.Fat32.Search.{is_directory}
use if2230_2023_hexos.Fat32.Read.{is_file_entry}
use if2230_2023_hexos.Fat32.Sound.{IsSound}
use if2230_2023_hexos.Fat32.Directory.{Asks}
use if2230_2023_hexos.Fat32.Directory.Entries.{is_file_entry-nameless}
use if2230_2023_hexos.Fat32.Directory.Steps.{IsMap}

-- The file system is sound, the directory in cluster `p` is fine, and behind its own entry it holds
-- zeros only.
pub record IsBlank (p : ℕ) (s : DriverState) : Type 0 where
  pub sound : IsSound s
  pub low : 2 ≤ p
  pub high : p < 512
  pub in_use : disk_fat s.disk p ≢ 0
  pub folder : (is_directory (byte_of s.disk p) == 0) ≡ false
  pub zeros : (x : ℕ) → 32 ≤ x → x < 2048 → byte_of s.disk p x ≡ 0

missing_name :
    (p : ℕ) (s : DriverState) (q : DriverRequest)
    → IsBlank p s
    → Asks p s.disk q
    → (l : ℕ) → l < 64
    → is_file_entry q (byte_of s.disk p) l ≡ false
missing_name p s q blank asks zero bound = asks.other
missing_name p s q blank asks (suc l) bound =
    is_file_entry-nameless q (byte_of s.disk p) (suc l) asks.named
      (blank.zeros (32 * suc l) (omega arith) (omega arith))

-- A blank directory is the empty map.
pub IsMap-blank : (p : ℕ) (s : DriverState) → IsBlank p s → IsMap p s []
IsMap-blank p s blank = record {
  tidy = record {
    synced = blank.sound.synced;
    low = blank.low;
    high = blank.high;
    in_use = blank.in_use;
    folder = blank.folder;
    free = λ l low high _. blank.zeros (32 * l) (omega arith) (omega arith);
    taken = λ l low high used.
        absurd (omega (arith, blank.zeros (32 * l + 12) (omega arith) (omega arith)));
  };
  represents = λ q asks.
      first_index-none (is_file_entry q (byte_of s.disk p)) 64 0
        (λ l low high. missing_name p s q blank asks l (omega arith));
}
