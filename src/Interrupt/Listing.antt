-- ===== src/Interrupt/Listing.antt =====
-- interrupt.c: what `cmd_ls` shows of a directory. It prints every name at the same place.
use if2230_2023_hexos.Prelude.{
  ℕ, zero, suc, ◌+◌, ◌%◌, ◌≤◌, ◌<◌, ◌≡◌, ◌≢◌, refl, ◌∙◌, inl, inr, ◌==◌, Bool-cases, Buf, done,
  arith,
}
use mathlib.Core.Path.{subst}
use if2230_2023_hexos.Ports.{Bus}
use if2230_2023_hexos.Keyboard.{Machine}
use if2230_2023_hexos.Framebuffer.{framebuffer_set_cursor}
use if2230_2023_hexos.Fat32.{DriverRequest}
use if2230_2023_hexos.Fat32.Layout.{name_at}
use if2230_2023_hexos.Fat32.Cluster.{read_clusters}
use if2230_2023_hexos.Interrupt.{Kernel, ls_loop, cmd_ls}
use if2230_2023_hexos.Interrupt.Puts.{Printed, puts-Printed}

-- The name of entry `i` of a directory table, as a text.
abbrev pub name_of : Buf → ℕ → Buf
name_of table i a = table (name_at i + a)

-- Of the entries from `lo` up to `hi` the last one with a name has been printed, if there is one.
pub data Listed (table : Buf) (lo hi row col : ℕ) (screen screen' : Buf) : Type 0 where
  nothing :
      ((i : ℕ) → lo ≤ i → i < hi → table (name_at i) ≡ 0)
      → ((x : ℕ) → screen' x ≡ screen x)
      → Listed table lo hi row col screen screen'
  last :
      (i : ℕ)
      → lo ≤ i
      → i < hi
      → table (name_at i) ≢ 0
      → ((j : ℕ) → i < j → j < hi → table (name_at j) ≡ 0)
      → Printed (name_of table i) 0 8 0xF row col screen screen'
      → Listed table lo hi row col screen screen'

Listed-skip :
    {table : Buf} {i hi row col : ℕ} {screen screen' : Buf}
    → table (name_at i) ≡ 0
    → Listed table (i + 1) hi row col screen screen'
    → Listed table i hi row col screen screen'
Listed-skip {i} none (nothing all same) = nothing (λ j low high. ground (arith, all j)) same
Listed-skip none (last j low high some rest text) = last j (omega arith) high some rest text

Listed-name :
    {table : Buf} {i hi row col : ℕ} {screen screen1 screen' : Buf}
    → i < hi
    → table (name_at i) ≢ 0
    → Printed (name_of table i) 0 8 0xF row col screen screen1
    → Listed table (i + 1) hi row col screen1 screen'
    → Listed table i hi row col screen screen'
Listed-name {i} inside some text (nothing all same) =
    last i (omega arith) inside some (λ j low high. all j (omega arith) high)
      (record { cells = λ x. same x ∙ text.cells x })
Listed-name inside some text (last j low high some' rest text') =
    last j (omega arith) high some' rest
      (record { cells = λ x. ground (arith, text'.cells x, text.cells x) })

module _ (bus : Bus) where
  ls_loop-Listed :
      (fuel k i : ℕ) (table : Buf) (row col : ℕ) (m : Machine bus.Devices)
      → 8 < fuel
      → row < 256
      → col + 8 ≤ 256
      → (m' : Machine bus.Devices) × (ls_loop bus fuel k i table row col m ≡ done m')
        × (m'.keyboard ≡ m.keyboard)
        × Listed table i (i + k) row col m.screen m'.screen
  unfolding ls_loop
  ls_loop-Listed fuel zero i table row col m enough hr hc =
      (m, refl, refl, nothing (λ j low high. absurd (omega arith)) (λ x. refl))
  ls_loop-Listed fuel (suc k) i table row col m enough hr hc =
      elim (Bool-cases (table (name_at i) == 0)) [
        | inl none ↦
            let (m', ends, same, listed) =
              ls_loop-Listed fuel k (i + 1) table row col m enough hr hc in
            (m', rw none ends, same, Listed-skip (ground arith) (Listed-to (omega arith) listed))
        | inr some ↦
            let (screen1, shown, text) =
              puts-Printed bus fuel (name_of table i) 8 0xF row col m enough (omega arith) hr hc in
            let m1 : Machine bus.Devices = record m {
              screen = screen1;
              devices = framebuffer_set_cursor bus row ((col + 8) % 256) m.devices;
            } in
            let (m', ends, same, listed) =
              ls_loop-Listed fuel k (i + 1) table row col m1 enough hr hc in
            (
              m',
              rw (some, shown) ends,
              same,
              Listed-name (omega arith) (ground arith) text (Listed-to (omega arith) listed),
            )
      ]
    where
      Listed-to :
          {lo hi hi' : ℕ} {screen screen' : Buf}
          → hi ≡ hi'
          → Listed table lo hi row col screen screen'
          → Listed table lo hi' row col screen screen'
      Listed-to {lo} {screen} {screen'} e l =
          subst (λ h. Listed table lo h row col screen screen') e l

  -- For a row below 256 and a column with eight left up to 256, `cmd_ls` ends with any fuel above 8, changes neither the file
  -- system nor the memory nor the keyboard's state, and of all the parent's entries with a name leaves
  -- only that of the last one on the screen, or nothing if there is none.
  pub cmd_ls-Listed :
      (fuel : ℕ) (request : DriverRequest) (row col : ℕ) (k : Kernel bus.Devices)
      → 8 < fuel
      → row < 256
      → col + 8 ≤ 256
      → let table = read_clusters k.listing request.parent_cluster_number 1 k.files.disk in
        (k' : Kernel bus.Devices) × (cmd_ls bus fuel request row col k ≡ done k')
        × (k'.files ≡ k.files)
        × (k'.memory ≡ k.memory)
        × (k'.machine.keyboard ≡ k.machine.keyboard)
        × Listed table 0 64 row col k.machine.screen k'.machine.screen
  unfolding cmd_ls
  cmd_ls-Listed fuel request row col k enough hr hc =
      let table : Buf = read_clusters k.listing request.parent_cluster_number 1 k.files.disk in
      let (m', ends, same, listed) =
        ls_loop-Listed fuel 64 0 table row col k.machine enough hr hc in
      (record k { machine = m'; listing = table }, rw ends refl, refl, refl, same, listed)
