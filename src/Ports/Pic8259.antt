-- ===== src/Ports/Pic8259.antt =====
-- What interrupt.c relies on of an 8259A interrupt controller at the ports `command` and
-- `command + 1`: the four words that initialise it, its mask, and the end of an interrupt.
use if2230_2023_hexos.Prelude.{ℕ, ◌+◌, ◌*◌, ◌/◌, ◌%◌, ◌^◌, ◌<◌, ◌≡◌, ◌≢◌, Bool, not, ◌&&◌, ◌==◌}
use if2230_2023_hexos.Prelude.Scan.{first_index, get_or}
use if2230_2023_hexos.Ports.{Bus}

-- The word that the chip expects at its second port: a mask, or a word of the initialisation.
pub data Phase : Type 0 where
  ready wants_icw2 wants_icw3 wants_icw4 : Phase

pub record Chip : Type 0 where
  pub phase : Phase
  pub vector_base : ℕ
  pub cascade : ℕ
  pub mode : ℕ
  pub mask : ℕ

-- The first word, for cascaded chips and with a fourth word to come, clears the mask.
abbrev pub begin_init : Chip → Chip
begin_init c = record c { phase = wants_icw2; mode = 0; mask = 0 }

-- The upper five bits of the second word are those of the vectors.
abbrev pub take_data : Phase → ℕ → Chip → Chip
take_data ready v c = record c { mask = v % 256 }
take_data wants_icw2 v c = record c { phase = wants_icw3; vector_base = v % 256 / 8 * 8 }
take_data wants_icw3 v c = record c { phase = wants_icw4; cascade = v % 256 }
take_data wants_icw4 v c = record c { phase = ready; mode = v % 256 }

-- A set bit of the mask shuts a line.
abbrev pub is_open : Chip → ℕ → Bool
is_open c line = c.mask / 2 ^ line % 2 == 0

-- The unspecific end of an interrupt is for the line in service with the lowest number.
abbrev pub end_highest : (ℕ → Bool) → ℕ → Bool
end_highest lines line = lines line && not (line == get_or (first_index lines 8 0) 8)

pub record Pic8259 (bus : Bus) (command : ℕ) : Type 0 where
  pub chip : bus.Devices → Chip
  pub in_service : bus.Devices → ℕ → Bool
  pub mask_byte : (d : bus.Devices) → (chip d).mask < 256
  pub init : (d : bus.Devices) → chip (bus.out command 0x11 d) ≡ begin_init (chip d)
  pub data_port :
      (v : ℕ) (d : bus.Devices)
      → chip (bus.out (command + 1) v d) ≡ take_data (chip d).phase v (chip d)
  pub mask_value : (d : bus.Devices) → (bus.in_byte (command + 1) d).0 ≡ (chip d).mask
  pub end_of_interrupt :
      (d : bus.Devices) (line : ℕ)
      → in_service (bus.out command 0x20 d) line ≡ end_highest (in_service d) line
  pub chip_out :
      (port v : ℕ) (d : bus.Devices)
      → port ≢ command
      → port ≢ command + 1
      → chip (bus.out port v d) ≡ chip d
  pub chip_in : (port : ℕ) (d : bus.Devices) → port ≢ command → chip (bus.in_byte port d).1 ≡ chip d
  pub service_out :
      (port v : ℕ) (d : bus.Devices)
      → port ≢ command
      → port ≢ command + 1
      → in_service (bus.out port v d) ≡ in_service d
  pub service_in :
      (port : ℕ) (d : bus.Devices)
      → port ≢ command
      → in_service (bus.in_byte port d).1 ≡ in_service d
