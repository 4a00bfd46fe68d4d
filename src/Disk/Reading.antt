-- ===== src/Disk/Reading.antt =====
-- filesystem/disk.c: `read_blocks` on an ATA disk, and the block routine of the disk image.
use if2230_2023_hexos.Prelude.{
  ℕ, zero, suc, ◌+◌, ◌-◌, ◌*◌, ◌%◌, ◌^◌, ◌≤◌, ◌<◌, ◌≡◌, refl, ◌∙◌, ◌&&◌, ◌==◌, leb, ltb,
  if◌then◌else◌, ◌>>=◌, Buf, store, store16, done, arith,
}
use if2230_2023_hexos.Image
use if2230_2023_hexos.Image.Laws.{read_blocks_lem}
use if2230_2023_hexos.Ports.{Bus}
use if2230_2023_hexos.Disk.{ata_busy_wait, send_command, read_words, read_rounds, read_blocks}
use if2230_2023_hexos.Disk.Ata.{input, Ata}
use if2230_2023_hexos.Disk.Wait.{ata_busy_wait-Ready, ata_drq_wait-Ready}
use if2230_2023_hexos.Disk.Command.{send_command-read}

module _ (bus : Bus) (disk : Ata bus) where
  open bus use {Devices, in16}

  -- `k` words have gone from the disk in state `d` to the bytes from `a` on.
  record WordsRead (k a : ℕ) (ptr : Buf) (d : Devices) (ptr' : Buf) (d' : Devices) : Type 0 where
    medium : (x : ℕ) → disk.medium d' x ≡ disk.medium d x
    direction : disk.direction d' ≡ input
    position : disk.position d' ≡ disk.position d + k
    bytes :
        (x : ℕ)
        → ptr' x ≡ (
            if leb a x && ltb x (a + 2 * k)
            then disk.medium d (2 * disk.position d + (x - a))
            else ptr x)

  word_byte :
      (a : ℕ) (ptr : Buf) (d : Devices) (x : ℕ)
      → disk.waiting d ≡ 0
      → disk.direction d ≡ input
      → 0 < disk.left d
      → store16 ptr a (in16 0x1F0 d).0 x ≡ (
          if x == a
          then disk.medium d (2 * disk.position d)
          else if x == a + 1
          then disk.medium d (2 * disk.position d + 1)
          else ptr x)
  unfolding store16 store
  word_byte a ptr d x idle dir more = ground (
    arith,
    disk.read_value d idle dir more,
    disk.medium_byte d (2 * disk.position d),
    disk.medium_byte d (2 * disk.position d + 1),
  )

  read_words-WordsRead :
      (k a : ℕ) (ptr : Buf) (d : Devices) (n : ℕ)
      → (0 < k → disk.waiting d ≡ 0)
      → disk.direction d ≡ input
      → disk.left d ≡ k + n
      → n % 256 ≡ 0
      → k ≤ 256
      → (disk.left (read_words bus k a ptr d).1 ≡ n)
        × WordsRead k a ptr d (read_words bus k a ptr d).0 (read_words bus k a ptr d).1
  unfolding read_words
  read_words-WordsRead zero a ptr d n idle dir left whole small = (
    ground arith,
    record {
      medium = λ x. refl;
      direction = dir;
      position = omega arith;
      bytes = λ x. ground arith;
    },
  )
  read_words-WordsRead (suc k) a ptr d n idle dir left whole small =
      let now : disk.waiting d ≡ 0 = idle (omega arith) in
      let more : 0 < disk.left d = omega arith in
      let d1 : Devices = (in16 0x1F0 d).1 in
      let ptr1 : Buf = store16 ptr a (in16 0x1F0 d).0 in
      let (dir1, pos1, left1) = disk.read_transfer d now dir more in
      let (left', rest) =
        read_words-WordsRead k (a + 2) ptr1 d1 n
          (λ (some : 0 < k). disk.read_waiting d now dir (omega arith)) dir1 (omega arith) whole
          (omega arith) in
      (
        left',
        record {
          medium = λ x. rest.medium x ∙ disk.read_medium d x;
          direction = rest.direction;
          position = omega (arith, rest.position);
          bytes = λ x. ground (
            arith,
            rest.bytes x,
            disk.read_medium d (2 * disk.position d1 + (x - (a + 2))),
            word_byte a ptr d x now dir more,
          );
        },
      )

  -- `k` blocks have gone from the disk in state `d` to the bytes from `a` on.
  record BlocksRead (k a : ℕ) (ptr : Buf) (d : Devices) (ptr' : Buf) (d' : Devices) : Type 0 where
    medium : (x : ℕ) → disk.medium d' x ≡ disk.medium d x
    bytes :
        (x : ℕ)
        → ptr' x ≡ (
            if leb a x && ltb x (a + 512 * k)
            then disk.medium d (2 * disk.position d + (x - a))
            else ptr x)

  read_rounds-BlocksRead :
      (fuel k a : ℕ) (ptr : Buf) (d : Devices)
      → disk.limit < fuel
      → disk.direction d ≡ input
      → disk.left d ≡ 256 * k
      → (ptr' : Buf) × (d' : Devices) × (read_rounds bus fuel k a ptr d ≡ done (ptr', d'))
        × BlocksRead k a ptr d ptr' d'
  unfolding read_rounds
  read_rounds-BlocksRead fuel zero a ptr d enough dir left =
      (ptr, d, refl, record { medium = λ x. refl; bytes = λ x. ground arith })
  read_rounds-BlocksRead fuel (suc k) a ptr d enough dir left =
      let (d1, busy, r1) =
        ata_busy_wait-Ready bus disk fuel d (omega (arith, disk.waiting_limit d)) in
      let (d2, drq, r2) = ata_drq_wait-Ready bus disk fuel d1 r1.idle (omega arith) in
      let (left3, block) =
        read_words-WordsRead 256 a ptr d2 (256 * k) (λ (some : 0 < 256). r2.idle)
          (r2.direction ∙ r1.direction ∙ dir) (omega (arith, r2.left, r1.left)) (omega arith)
          (omega arith) in
      let ptr3 : Buf = (read_words bus 256 a ptr d2).0 in
      let d3 : Devices = (read_words bus 256 a ptr d2).1 in
      let (ptr', d', ends, rest) =
        read_rounds-BlocksRead fuel k (a + 512) ptr3 d3 enough block.direction left3 in
      (
        ptr',
        d',
        rw (busy, drq) ends,
        record {
          medium = λ x. rest.medium x ∙ block.medium x ∙ r2.medium x ∙ r1.medium x;
          bytes = λ x. ground (
            arith,
            rest.bytes x,
            block.bytes x,
            block.position,
            r2.position,
            r1.position,
            block.medium (2 * disk.position d3 + (x - (a + 512))),
            r2.medium (2 * disk.position d3 + (x - (a + 512))),
            r1.medium (2 * disk.position d3 + (x - (a + 512))),
            r2.medium (2 * disk.position d2 + (x - a)),
            r1.medium (2 * disk.position d2 + (x - a)),
          );
        },
      )

  -- A number of blocks below 256 fits the eight bits.
  read_blocks-cut :
      (fuel : ℕ) (ptr : Buf) (lba n : ℕ) (d : Devices)
      → n < 256
      → read_blocks bus fuel ptr lba n d ≡ (
          ata_busy_wait bus fuel d >>= λ d'.
          read_rounds bus fuel n 0 ptr (send_command bus lba n 0x20 d'))
  unfolding read_blocks
  read_blocks-cut fuel ptr lba n d few = let cut : n % 256 ≡ n = omega arith in rw cut refl

  -- On an ATA disk that answers within `limit` polls, `read_blocks` of 1 to 255 blocks below
  -- block 2 ^ 23 ends with any fuel above that, leaves the medium as it was, and delivers what the
  -- block routine of the disk image delivers from the same medium.
  pub read_blocks-image :
      (fuel : ℕ) (ptr : Buf) (lba n : ℕ) (d : Devices)
      → disk.limit < fuel
      → 0 < n
      → n < 256
      → lba + n ≤ 2 ^ 23
      → (ptr' : Buf) × (d' : Devices) × (read_blocks bus fuel ptr lba n d ≡ done (ptr', d'))
        × ((x : ℕ) → disk.medium d' x ≡ disk.medium d x)
        × ((x : ℕ) → ptr' x ≡ Image.read_blocks ptr (disk.medium d) lba n x)
  read_blocks-image fuel ptr lba n d enough some few reach =
      let (d1, busy, r1) =
        ata_busy_wait-Ready bus disk fuel d (omega (arith, disk.waiting_limit d)) in
      let (dir, begun) = send_command-read bus disk lba n d1 r1.idle (omega arith) some few in
      let d2 : Devices = send_command bus lba n 0x20 d1 in
      let (ptr', d', ends, all) = read_rounds-BlocksRead fuel n 0 ptr d2 enough dir begun.left in
      (
        ptr',
        d',
        read_blocks-cut fuel ptr lba n d few ∙ rw busy ends,
        λ x. all.medium x ∙ begun.medium x ∙ r1.medium x,
        λ x. ground (
          arith,
          all.bytes x,
          begun.position,
          begun.medium (2 * disk.position d2 + x),
          r1.medium (2 * disk.position d2 + x),
          read_blocks_lem ptr (disk.medium d) lba n x reach,
        ),
      )
