-- ===== src/Fat32/Sound/Writing.antt =====
-- fat32.c: the invariant of the driver after `write`.
use if2230_2023_hexos.Prelude.{ℕ, ◌≤◌, ◌≡◌, refl, inl, inr, true, Bool-cases, List, ℤ, pos, arith}
use mathlib.Core.Path.{subst}
use if2230_2023_hexos.Fat32.{DriverRequest, DriverState, IsRequest, Run, done}
use if2230_2023_hexos.Fat32.Search.{is_bad_parent, validate_write}
use if2230_2023_hexos.Fat32.Write.{write}
use if2230_2023_hexos.Fat32.Write.Chain.{Empty, not-mem-Empty, Empty-mono}
use if2230_2023_hexos.Fat32.Write.Outcomes.{
  parent_table, ParentInUse, Framed, Written, bad_parent, exists, no_room, cut_short, file, folder,
}
use if2230_2023_hexos.Fat32.Write.Call.{write-Written}
use if2230_2023_hexos.Fat32.Sound.{IsSound, IsSound-Unchanged}

-- New clusters behind the reserved ones do not touch the boot sector.
IsSound-of_Framed :
    {request : DriverRequest} {s s' : DriverState} {cs : List ℕ}
    → 2 ≤ request.parent_cluster_number
    → IsSound s
    → Empty s.disk 2 cs
    → Framed request s s' cs
    → IsSound s'
IsSound-of_Framed {s} {cs} low sound empty frame = record {
  signed = λ j l. ground (
    arith,
    frame.bytes 0 j (omega arith) (omega arith) (omega arith)
        (not-mem-Empty s.disk 2 cs 0 (omega arith) empty),
    sound.signed j l,
  );
  synced = frame.synced;
}

-- The state of a call that returns.
abbrev SoundAfter : Run (ℤ × DriverState) → Type 0
SoundAfter r = (code : ℤ) (s' : DriverState) → r ≡ done (code, s') → IsSound s'

returned : {code : ℤ} {s : DriverState} → IsSound s → SoundAfter (done (code, s))
returned {s} sound code' s' e = subst IsSound (ground arith) sound

IsSound-of_Written :
    {request : DriverRequest} {s : DriverState} {r : Run (ℤ × DriverState)}
    → 2 ≤ request.parent_cluster_number
    → IsSound s
    → Written request s r
    → SoundAfter r
IsSound-of_Written low sound (bad_parent bad disk fat) =
    returned (IsSound-Unchanged (disk, fat) sound)
IsSound-of_Written low sound (exists i a b m disk fat) =
    returned (IsSound-Unchanged (disk, fat) sound)
IsSound-of_Written low sound (no_room why disk fat _) =
    returned (IsSound-Unchanged (disk, fat) sound)
IsSound-of_Written {s} low sound (cut_short c i cs c_low entry empty few rest frame _ _) =
    returned (IsSound-of_Framed low sound (Empty-mono s.disk 2 c cs c_low empty) frame)
IsSound-of_Written low sound (file c i cs _ _ _ _ empty _ _ frame _) =
    returned (IsSound-of_Framed low sound empty frame)
IsSound-of_Written low sound (folder c i _ _ _ _ _ empty frame _) =
    returned (IsSound-of_Framed low sound empty frame)

write-refused :
    (request : DriverRequest) (s : DriverState)
    → is_bad_parent request (parent_table request s) ≡ true
    → write request s ≡ done (pos 2, record s { dir_table_buf = parent_table request s })
unfolding write validate_write
write-refused request s bad = rw bad refl

pub write-IsSound :
    (request : DriverRequest) (s : DriverState) {code : ℤ} {s' : DriverState}
    → IsRequest request
    → ParentInUse request s
    → IsSound s
    → write request s ≡ done (code, s')
    → IsSound s'
write-IsSound request s {code} {s'} r used sound e =
    elim (Bool-cases (is_bad_parent request (parent_table request s))) [
      | inl bad ↦
          let same : IsSound (record s { dir_table_buf = parent_table request s }) =
            IsSound-Unchanged (refl, refl) sound in
          let after : SoundAfter (write request s) =
            rw (write-refused request s bad) (returned same) in
          after code s' e
      | inr fine ↦
          IsSound-of_Written (ground arith) sound (write-Written request s r used sound.synced) code
            s' e
    ]
