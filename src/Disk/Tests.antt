-- ===== src/Disk/Tests.antt =====
-- The transfers on a small model of a disk, which is busy for some polls after a command and
-- between two blocks.
use if2230_2023_hexos.Prelude.{
  ℕ, ◌+◌, ◌-◌, ◌*◌, ◌%◌, ◌^◌, ◌≤◌, ◌≡◌, refl, ◌==◌, if◌then◌else◌, Buf, IsBytes, store, store16,
  done, arith,
}
use if2230_2023_hexos.Image
use if2230_2023_hexos.Ports.{Bus}
use if2230_2023_hexos.Disk.{read_blocks, write_blocks}
use if2230_2023_hexos.Disk.Ata.{Direction, input, output, Ata}
use if2230_2023_hexos.Disk.Reading.{read_blocks-image}
use if2230_2023_hexos.Disk.Writing.{write_blocks-image}

record AtaDisk : Type 0 where
  sectors : Buf
  registers : Buf
  polls : ℕ
  mode : Direction
  word : ℕ
  words_left : ℕ

abbrev small_medium : AtaDisk → Buf
small_medium d a = d.sectors a % 256

abbrev status : AtaDisk → ℕ × AtaDisk
status d = (if d.polls % 4 == 0 then 0x40 else 0x80, record d { polls = d.polls % 4 - 1 })

abbrev begin : ℕ → AtaDisk → AtaDisk
begin c d = record d {
  polls = 3;
  mode = if c == 0x20 then input else output;
  word =
      256
      * (d.registers 0x1F3 % 256
          + 2 ^ 8 * (d.registers 0x1F4 % 256)
          + 2 ^ 16 * (d.registers 0x1F5 % 256)
          + 2 ^ 24 * (d.registers 0x1F6 % 256 % 16));
  words_left = if d.registers 0x1F2 % 256 == 0 then 256 * 256 else 256 * (d.registers 0x1F2 % 256);
}

abbrev next_word : AtaDisk → AtaDisk
next_word d = record d {
  word = d.word + 1;
  words_left = d.words_left - 1;
  polls = if (d.words_left - 1) % 256 == 0 then 2 else d.polls;
}

abbrev ata_bus : Bus
ata_bus = record {
  Devices = AtaDisk;
  out = λ port v d.
      if port == 0x1F7 then begin v d else record d { registers = store d.registers port v };
  in_byte = λ port d. if port == 0x1F7 then status d else (0, d);
  out16 = λ port v d. next_word (record d { sectors = store16 d.sectors (2 * d.word) v });
  in16 =
      λ port d. (small_medium d (2 * d.word) + 256 * small_medium d (2 * d.word + 1), next_word d);
}

small_set_register :
    (port v : ℕ) (d : AtaDisk) (i : ℕ)
    → port ≤ 0x1F6
    → (ata_bus.out port v d).registers i % 256
      ≡ (if i == port then v % 256 else d.registers i % 256)
unfolding store
small_set_register port v d i high = ground arith

small_write :
    (v : ℕ) (d : AtaDisk) (a : ℕ)
    → small_medium (ata_bus.out16 0x1F0 v d) a ≡ store16 (small_medium d) (2 * d.word) v a
unfolding store16 store
small_write v d a = ground arith

small_ata : Ata ata_bus
small_ata = record {
  medium = small_medium;
  register = λ d i. d.registers i % 256;
  waiting = λ d. d.polls % 4;
  direction = λ d. d.mode;
  position = λ d. d.word;
  left = λ d. d.words_left;
  limit = 3;
  waiting_limit = λ d. omega arith;
  medium_byte = λ d a. omega arith;
  poll_medium = λ d a. refl;
  poll_transfer = λ d. (refl, refl, refl);
  poll_waiting = λ d. omega arith;
  poll_busy = λ d busy. ground arith;
  poll_ready = λ d idle. ground arith;
  set_register = λ port v d i low high idle. small_set_register port v d i high;
  set_waiting = λ port v d low high idle. ground arith;
  set_medium = λ port v d a low high. ground arith;
  command_transfer = λ c d idle. (refl, refl);
  command_read = λ d idle. refl;
  command_write = λ d idle. refl;
  read_value = λ d idle dir more. refl;
  read_transfer = λ d idle dir more. (dir, refl, refl);
  read_waiting = λ d idle dir inside. ground arith;
  read_medium = λ d a. refl;
  write_transfer = λ v d idle dir more. (dir, refl, refl);
  write_waiting = λ v d idle dir inside. ground arith;
  write_medium = λ v d a idle dir more. small_write v d a;
}

abbrev spinning : AtaDisk
spinning = record {
  sectors = λ a. a % 251;
  registers = λ i. 0;
  polls = 1;
  mode = input;
  word = 0;
  words_left = 0;
}

abbrev text : Buf
text a = if a == 0 then b'h' else if a == 1 then b'e' else 0

text-IsBytes : IsBytes text
text-IsBytes a = ground arith

read_blocks-image_example :
    (ptr' : Buf) × (d' : AtaDisk) × (read_blocks ata_bus 4 text 5 2 spinning ≡ done (ptr', d'))
    × ((x : ℕ) → small_medium d' x ≡ small_medium spinning x)
    × ((x : ℕ) → ptr' x ≡ Image.read_blocks text (small_medium spinning) 5 2 x)
unfolding small_ata
read_blocks-image_example =
    read_blocks-image ata_bus small_ata 4 text 5 2 spinning (omega arith) (omega arith)
      (omega arith) (omega arith)

write_blocks-image_example :
    (d' : AtaDisk) × (write_blocks ata_bus 4 text 5 2 spinning ≡ done d')
    × ((x : ℕ) → small_medium d' x ≡ Image.write_blocks text (small_medium spinning) 5 2 x)
unfolding small_ata
write_blocks-image_example =
    write_blocks-image ata_bus small_ata text text-IsBytes 4 5 2 spinning (omega arith)
      (omega arith) (omega arith) (omega arith)
