-- ===== src/Pic/Tests.antt =====
-- The card and the two interrupt controllers behind one bus.
use if2230_2023_hexos.Prelude.{
  ℕ, ◌+◌, ◌%◌, ◌≡◌, ◌≢◌, refl, ap, Bool, false, ◌&&◌, ◌==◌, if◌then◌else◌, arith,
}
use if2230_2023_hexos.Ports.{Bus}
use if2230_2023_hexos.Ports.Crtc.{Crtc}
use if2230_2023_hexos.Ports.Pic8259.{
  Phase, ready, wants_icw2, wants_icw3, wants_icw4, Chip, begin_init, take_data, end_highest,
  Pic8259,
}
use if2230_2023_hexos.Pic.{pic_remap, activate_keyboard_interrupt}
use if2230_2023_hexos.Pic.Remap.{chip_at, KeyboardOnly, pic_remap-Remapped}
use if2230_2023_hexos.Keyboard.{Machine, keyboard_isr}
use if2230_2023_hexos.Keyboard.Acknowledge.{in_service-keyboard_isr}
use if2230_2023_hexos.Keyboard.Tests.{waiting}
use if2230_2023_hexos.Tests.{Vga, vga_bus, vga_card, powered_on}

pub record Board : Type 0 where
  pub vga : Vga
  pub chip1 : Chip
  pub chip2 : Chip
  pub lines1 : ℕ → Bool
  pub lines2 : ℕ → Bool

-- A chip with its ports from `command` on sees every byte that goes out.
abbrev chip_out : ℕ → ℕ → ℕ → Chip → Chip
chip_out command port v c =
    if port == command
    then (if v == 0x11 then begin_init c else c)
    else if port == command + 1
    then take_data c.phase v c
    else c

abbrev lines_out : ℕ → ℕ → ℕ → (ℕ → Bool) → ℕ → Bool
lines_out command port v lines =
    if (port == command) && (v == 0x20) then end_highest lines else lines

abbrev pub board_bus : Bus
board_bus = record {
  Devices = Board;
  out = λ port v d. record {
    vga = vga_bus.out port v d.vga;
    chip1 = chip_out 0x20 port v d.chip1;
    chip2 = chip_out 0xA0 port v d.chip2;
    lines1 = lines_out 0x20 port v d.lines1;
    lines2 = lines_out 0xA0 port v d.lines2;
  };
  out16 = λ port v d. d;
  in16 = λ port d. (0, d);
  in_byte = λ port d. (
    if port == 0x21
        then d.chip1.mask % 256
        else if port == 0xA1
        then d.chip2.mask % 256
        else (vga_bus.in_byte port d.vga).0,
    d,
  );
}

unfoldable pub board_card : Crtc board_bus
unfolding vga_card
board_card = record {
  selected = λ d. vga_card.selected d.vga;
  register = λ d i. vga_card.register d.vga i;
  register_byte = λ d i. vga_card.register_byte d.vga i;
  select = λ v d. refl;
  select_register = λ v d i. refl;
  write_selected = λ v d. refl;
  write_register = λ v d i. vga_card.write_register v d.vga i;
  read_value = λ d. refl;
  read_register = λ d i. refl;
}

-- What the chip shows of itself.
abbrev shown : Chip → Chip
shown c = record c { mask = c.mask % 256 }

pub shown-take_data :
    (p : Phase) (v : ℕ) (c : Chip) → shown (take_data p v c) ≡ take_data p v (shown c)
shown-take_data ready v c = ap (λ (m : ℕ). record c { mask = m }) (omega arith)
shown-take_data wants_icw2 v c = refl
shown-take_data wants_icw3 v c = refl
shown-take_data wants_icw4 v c = refl

pub chip_out-other :
    (command port v : ℕ) (c : Chip)
    → port ≢ command
    → port ≢ command + 1
    → shown (chip_out command port v c) ≡ shown c
chip_out-other command port v c apart apart1 =
    let first : (port == command) ≡ false = ground arith in
    let second : (port == command + 1) ≡ false = ground arith in rw (first, second) refl

pub lines_out-other :
    (command port v : ℕ) (lines : ℕ → Bool)
    → port ≢ command
    → lines_out command port v lines ≡ lines
lines_out-other command port v lines apart =
    let other : (port == command) ≡ false = ground arith in rw other refl

unfoldable pub board_pic1 : Pic8259 board_bus 0x20
board_pic1 = record {
  chip = λ d. shown d.chip1;
  in_service = λ d. d.lines1;
  mask_byte = λ d. omega arith;
  init = λ d. refl;
  data_port = λ v d. shown-take_data d.chip1.phase v d.chip1;
  mask_value = λ d. refl;
  end_of_interrupt = λ d line. refl;
  chip_out = λ port v d h1 h2. chip_out-other 0x20 port v d.chip1 h1 h2;
  chip_in = λ port d h. refl;
  service_out = λ port v d h1 h2. lines_out-other 0x20 port v d.lines1 h1;
  service_in = λ port d h. refl;
}

unfoldable pub board_pic2 : Pic8259 board_bus 0xA0
board_pic2 = record {
  chip = λ d. shown d.chip2;
  in_service = λ d. d.lines2;
  mask_byte = λ d. omega arith;
  init = λ d. refl;
  data_port = λ v d. shown-take_data d.chip2.phase v d.chip2;
  mask_value = λ d. refl;
  end_of_interrupt = λ d line. refl;
  chip_out = λ port v d h1 h2. chip_out-other 0xA0 port v d.chip2 h1 h2;
  chip_in = λ port d h. refl;
  service_out = λ port v d h1 h2. lines_out-other 0xA0 port v d.lines2 h1;
  service_in = λ port d h. refl;
}

-- A board whose firmware has used the vectors from 8 and from 0x70 on.
abbrev pub board : Board
board = record {
  vga = powered_on;
  chip1 = chip_at 0x08 0b0100 0xB8;
  chip2 = chip_at 0x70 0b0010 0x8F;
  lines1 = λ line. line == 1;
  lines2 = λ line. false;
}

pic_remap-Remapped_example :
    let d1 = pic_remap board_bus board in
    let d2 = activate_keyboard_interrupt board_bus d1 in
    (board_pic1.chip d1 ≡ chip_at 0x20 0b0100 0xB8)
    × (board_pic2.chip d1 ≡ chip_at 0x28 0b0010 0x8F)
    × KeyboardOnly (board_pic1.chip d2) (board_pic2.chip d2)
unfolding board_pic1 board_pic2
pic_remap-Remapped_example = pic_remap-Remapped board_bus board_pic1 board_pic2 board

-- The keyboard's interrupt has come.
abbrev interrupted : Machine Board
interrupted = record { keyboard = waiting.keyboard; screen = waiting.screen; devices = board }

in_service-keyboard_isr_example :
    board_pic1.in_service (keyboard_isr board_bus interrupted).devices 1 ≡ false
unfolding board_pic1
in_service-keyboard_isr_example =
    in_service-keyboard_isr board_bus board_pic1 interrupted refl refl 1
