-- ===== src/Fat32/Delete/Endless.antt =====
-- fat32.c: the loop of `delete` over the FAT, which counts in eight bits.
use if2230_2023_hexos.Prelude.{
  ℕ, zero, suc, ◌+◌, ◌/◌, ◌%◌, ◌^◌, ◌≤◌, ◌<◌, ◌≡◌, ◌≢◌, refl, inl, inr, true, false, ltb, ◌==◌,
  Bool-cases, Option, none, some, Buf, ℤ, arith,
}
use if2230_2023_hexos.Fat32.{DriverRequest, DriverState, Run, done, fault, diverges}
use if2230_2023_hexos.Fat32.Layout.{attribute}
use if2230_2023_hexos.Fat32.Search.{has_name, is_bad_parent}
use if2230_2023_hexos.Fat32.Read.{load_parent}
use if2230_2023_hexos.Fat32.Delete.{
  clear_round, clear_loop, Next, go_on, return, stuck, out_of_bounds, continue_with, proceed,
  return_if_child, visit_named, remove_entry, delete_loop, delete,
}
use if2230_2023_hexos.Fat32.Delete.Effect.{loaded}

-- A limit beyond the counter's range is never reached.
clear_loop-diverges :
    (fuel : ℕ) (request : DriverRequest) (stack : Buf) (k : ℕ) (s : DriverState)
    → 2 ^ 19 ≤ request.buffer_size
    → k < 256
    → clear_loop fuel request stack k s ≡ diverges
unfolding clear_loop
clear_loop-diverges zero request stack k s size small = refl
clear_loop-diverges (suc fuel) request stack k s size small =
    let more : ltb k (request.buffer_size / 2048) ≡ true = ground arith in
    rw more (
      clear_loop-diverges fuel request stack ((k + 1) % 256) (clear_round request stack k s) size
        (omega arith))

clear_loop-ends :
    (fuel : ℕ) (request : DriverRequest) (stack : Buf) (k : ℕ) (s : DriverState)
    → request.buffer_size < 2 ^ 19
    → 256 ≤ fuel + k
    → 0 < fuel
    → clear_loop fuel request stack k s ≢ diverges
unfolding clear_loop
clear_loop-ends zero request stack k s size enough pos_fuel = absurd (omega arith)
clear_loop-ends (suc fuel) request stack k s size enough pos_fuel =
    elim (Bool-cases (ltb k (request.buffer_size / 2048))) [
      | inl more ↦ rw more (
          clear_loop-ends fuel request stack ((k + 1) % 256) (clear_round request stack k s) size
            (ground arith) (ground arith))
      | inr end ↦ rw end (λ p. cc)
    ]

abbrev Ends : Next → Type 0
Ends n = n ≢ stuck

Ends-continue : (r : Run DriverState) → r ≢ diverges → Ends (continue_with r)
Ends-continue (done s) h = λ p. cc
Ends-continue fault h = λ p. cc
Ends-continue diverges h = absurd (h refl)

Ends-return : (o : Option ℕ) (s : DriverState) → Ends (return_if_child o s)
Ends-return none s = λ p. cc
Ends-return (some j) s = λ p. cc

visit_named-Ends :
    (fuel : ℕ) (request : DriverRequest) (stack : Buf) (i : ℕ) (s : DriverState)
    → request.buffer_size < 2 ^ 19
    → 256 ≤ fuel
    → Ends (visit_named fuel request stack i s)
unfolding visit_named
visit_named-Ends fuel request stack i s size enough =
    elim (Bool-cases (attribute s.dir_table_buf i == 0b0001_0000)) [
      | inl dir ↦ rw dir (Ends-return _ _)
      | inr other ↦ rw other (
          Ends-continue (clear_loop fuel request stack 1 s)
            (clear_loop-ends fuel request stack 1 s size (omega arith) (omega arith)))
    ]

proceed-Ends :
    (n : Next) (rest : DriverState → Run (ℤ × DriverState))
    → Ends n
    → ((s : DriverState) → rest s ≢ diverges)
    → proceed n rest ≢ diverges
proceed-Ends (go_on s) rest h next = next s
proceed-Ends (return code s) rest h next = λ p. cc
proceed-Ends stuck rest h next = absurd (h refl)
proceed-Ends out_of_bounds rest h next = λ p. cc

remove_entry-ends :
    (request : DriverRequest) (i : ℕ) (s : DriverState) → remove_entry request i s ≢ diverges
unfolding remove_entry
remove_entry-ends request i s = ground arith

delete_loop-ends :
    (k fuel : ℕ) (request : DriverRequest) (stack : Buf) (i : ℕ) (s : DriverState)
    → request.buffer_size < 2 ^ 19
    → 256 ≤ fuel
    → delete_loop k fuel request stack i s ≢ diverges
unfolding delete_loop
delete_loop-ends zero fuel request stack i s size enough = λ p. cc
delete_loop-ends (suc k) fuel request stack i s size enough =
    elim (Bool-cases (has_name request s.dir_table_buf i)) [
      | inl hit ↦ rw hit (
          proceed-Ends (visit_named fuel request stack i s)
            (delete_loop k fuel request stack (i + 1))
            (visit_named-Ends fuel request stack i s size enough)
            (λ t. delete_loop-ends k fuel request stack (i + 1) t size enough))
      | inr miss ↦ rw miss (remove_entry-ends request i s)
    ]

-- With a `buffer_size` below 256 clusters `delete` ends: 256 rounds of fuel are enough.
pub delete-ends :
    (fuel : ℕ) (request : DriverRequest) (stack : Buf) (s : DriverState)
    → request.buffer_size < 2 ^ 19
    → 256 ≤ fuel
    → delete fuel request stack s ≢ diverges
unfolding delete
delete-ends fuel request stack s size enough =
    elim (Bool-cases (is_bad_parent request (loaded request s))) [
      | inl bad ↦ rw bad (λ p. cc)
      | inr fine ↦
          rw fine (delete_loop-ends 63 fuel request stack 1 (load_parent request s) size enough)
    ]

-- With a `buffer_size` of 256 clusters or more, and a file of the requested name as entry 1, no
-- number of rounds is enough.
pub delete-diverges :
    (fuel : ℕ) (request : DriverRequest) (stack : Buf) (s : DriverState)
    → is_bad_parent request (loaded request s) ≡ false
    → has_name request (loaded request s) 1 ≡ true
    → attribute (loaded request s) 1 ≢ 0b0001_0000
    → 2 ^ 19 ≤ request.buffer_size
    → delete fuel request stack s ≡ diverges
unfolding delete delete_loop visit_named
delete-diverges fuel request stack s fine hit file size =
    let not_dir : (attribute (loaded request s) 1 == 0b0001_0000) ≡ false = ground arith in
    rw (
      fine,
      hit,
      not_dir,
      clear_loop-diverges fuel request stack 1 (load_parent request s) size (omega arith),
    )
