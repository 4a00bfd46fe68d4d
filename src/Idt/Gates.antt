-- ===== src/Idt/Gates.antt =====
-- The gates that `initialize_idt` sets.
use if2230_2023_hexos.Prelude.{
  ℕ, zero, suc, ◌+◌, ◌*◌, ◌%◌, ◌^◌, ◌≤◌, ◌<◌, ◌≡◌, true, false, refl, ◌&&◌, ◌==◌, leb, ltb,
  if◌then◌else◌, arith,
}
use if2230_2023_hexos.Idt.{IdtGate, set_interrupt_gate, gate_privilege, idt_loop, initialize_idt}

-- The handler's address that the processor reads from a gate.
abbrev pub offset_of : IdtGate → ℕ
offset_of g = g.offset_high * 2 ^ 16 + g.offset_low

-- A present 32-bit interrupt gate into the kernel's code segment.
pub record IsGate (handler privilege : ℕ) (g : IdtGate) : Type 0 where
  pub offset : offset_of g ≡ handler
  pub valid : g.valid_bit ≡ 1
  pub kind : (g.r_bit_1 ≡ 0) × (g.r_bit_2 ≡ 6) × (g.gate_32 ≡ 1) × (g.r_bit_3 ≡ 0)
  pub segment : g.segment ≡ 0x8
  pub level : g.privilege ≡ privilege

idt_loop_lem :
    (k i : ℕ) (stubs : ℕ → ℕ) (table : ℕ → IdtGate) (v : ℕ)
    → i + k ≤ 256
    → idt_loop k i stubs table v ≡ (
        if leb i v && ltb v (i + k)
        then set_interrupt_gate v (stubs v) 0x8 (gate_privilege v) table v
        else table v)
unfolding idt_loop set_interrupt_gate
idt_loop_lem zero i stubs table v h = ground arith
idt_loop_lem (suc k) i stubs table v h = ground (
  arith,
  idt_loop_lem k (i + 1) stubs (set_interrupt_gate i (stubs i) 0x8 (gate_privilege i) table) v
      (omega arith),
)

set_interrupt_gate-IsGate :
    (v handler privilege : ℕ) (table : ℕ → IdtGate)
    → v < 256
    → handler < 2 ^ 32
    → privilege < 4
    → IsGate handler privilege (set_interrupt_gate v handler 0x8 privilege table v)
unfolding set_interrupt_gate
set_interrupt_gate-IsGate v handler privilege table small h p =
    let here : (v == v % 256) ≡ true = ground arith in rw here (omega arith)

gate_privilege-lt : (v : ℕ) → gate_privilege v < 4
gate_privilege-lt v = ground arith

-- If the stubs have 32-bit addresses, `initialize_idt` makes vectors 0 to 63 gates to their handlers, with user privilege exactly for
-- 0x30 to 0x3F, and leaves the vectors from 64 on alone.
pub initialize_idt-IsGate :
    (stubs : ℕ → ℕ) (table : ℕ → IdtGate)
    → ((v : ℕ) → stubs v < 2 ^ 32)
    → ((v : ℕ)
        → v < 64
        → IsGate
            (stubs v)
            (if leb 0x30 v && leb v 0x3F then 3 else 0)
            (initialize_idt stubs table v))
      × ((v : ℕ) → 64 ≤ v → initialize_idt stubs table v ≡ table v)
unfolding initialize_idt
initialize_idt-IsGate stubs table small = (
  λ v h.
      let inside : ltb v 64 ≡ true = ground arith in
      let from_zero : leb 0 v ≡ true = ground arith in
      rw (idt_loop_lem 64 0 stubs table v (omega arith), from_zero, inside)
        (set_interrupt_gate-IsGate v (stubs v) (gate_privilege v) table (omega arith) (small v)
          (gate_privilege-lt v)),
  λ v h.
      let outside : ltb v 64 ≡ false = ground arith in
      let from_zero : leb 0 v ≡ true = ground arith in
      rw (idt_loop_lem 64 0 stubs table v (omega arith), from_zero, outside) refl,
)
