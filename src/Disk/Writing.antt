-- ===== src/Disk/Writing.antt =====
-- filesystem/disk.c: `write_blocks` on an ATA disk, and the block routine of the disk image.
use if2230_2023_hexos.Prelude.{
  ℕ, zero, suc, ◌+◌, ◌-◌, ◌*◌, ◌%◌, ◌^◌, ◌≤◌, ◌<◌, ◌≡◌, refl, ◌∙◌, ◌&&◌, ◌==◌, leb, ltb,
  if◌then◌else◌, ◌>>=◌, Buf, IsBytes, load16, store, store16, done, arith,
}
use if2230_2023_hexos.Image
use if2230_2023_hexos.Image.Laws.{write_blocks_lem}
use if2230_2023_hexos.Ports.{Bus}
use if2230_2023_hexos.Disk.{ata_busy_wait, send_command, write_words, write_rounds, write_blocks}
use if2230_2023_hexos.Disk.Ata.{output, Ata}
use if2230_2023_hexos.Disk.Wait.{ata_busy_wait-Ready, ata_drq_wait-Ready}
use if2230_2023_hexos.Disk.Command.{send_command-write}

module _ (bus : Bus) (disk : Ata bus) (ptr : Buf) (bytes : IsBytes ptr) where
  open bus use {Devices, out16}

  -- The `w` bytes of `ptr` from `a` on are on the medium, from the transfer's position in `d` on.
  record Written (w a : ℕ) (d d' : Devices) : Type 0 where
    medium :
        (x : ℕ)
        → disk.medium d' x ≡ (
            if leb (2 * disk.position d) x && ltb x (2 * disk.position d + w)
            then ptr (a + (x - 2 * disk.position d))
            else disk.medium d x)

  word_bytes :
      (a : ℕ) (d : Devices) (x : ℕ)
      → disk.waiting d ≡ 0
      → disk.direction d ≡ output
      → 0 < disk.left d
      → disk.medium (out16 0x1F0 (load16 ptr a) d) x ≡ (
          if x == 2 * disk.position d
          then ptr a
          else if x == 2 * disk.position d + 1
          then ptr (a + 1)
          else disk.medium d x)
  unfolding store16 store load16
  word_bytes a d x idle dir more =
      ground (arith, disk.write_medium (load16 ptr a) d x idle dir more, bytes a, bytes (a + 1))

  write_words-Written :
      (k a : ℕ) (d : Devices) (n : ℕ)
      → (0 < k → disk.waiting d ≡ 0)
      → disk.direction d ≡ output
      → disk.left d ≡ k + n
      → n % 256 ≡ 0
      → k ≤ 256
      → (disk.left (write_words bus k a ptr d) ≡ n)
        × (disk.direction (write_words bus k a ptr d) ≡ output)
        × (disk.position (write_words bus k a ptr d) ≡ disk.position d + k)
        × Written (2 * k) a d (write_words bus k a ptr d)
  unfolding write_words
  write_words-Written zero a d n idle dir left whole small =
      (ground arith, dir, omega arith, record { medium = λ x. ground arith })
  write_words-Written (suc k) a d n idle dir left whole small =
      let now : disk.waiting d ≡ 0 = idle (omega arith) in
      let more : 0 < disk.left d = omega arith in
      let d1 : Devices = out16 0x1F0 (load16 ptr a) d in
      let (dir1, pos1, left1) = disk.write_transfer (load16 ptr a) d now dir more in
      let (left', dir', pos', rest) =
        write_words-Written k (a + 2) d1 n
          (λ (some : 0 < k). disk.write_waiting (load16 ptr a) d now dir (omega arith)) dir1
          (omega arith) whole (omega arith) in
      (
        left',
        dir',
        omega arith,
        record { medium = λ x. ground (arith, rest.medium x, word_bytes a d x now dir more) },
      )

  write_rounds-Written :
      (fuel k a : ℕ) (d : Devices)
      → disk.limit < fuel
      → disk.direction d ≡ output
      → disk.left d ≡ 256 * k
      → (d' : Devices) × (write_rounds bus fuel k a ptr d ≡ done d') × Written (512 * k) a d d'
  unfolding write_rounds
  write_rounds-Written fuel zero a d enough dir left =
      (d, refl, record { medium = λ x. ground arith })
  write_rounds-Written fuel (suc k) a d enough dir left =
      let (d1, busy, r1) =
        ata_busy_wait-Ready bus disk fuel d (omega (arith, disk.waiting_limit d)) in
      let (d2, drq, r2) = ata_drq_wait-Ready bus disk fuel d1 r1.idle (omega arith) in
      let (left3, dir3, pos3, block) =
        write_words-Written 256 a d2 (256 * k) (λ (some : 0 < 256). r2.idle)
          (r2.direction ∙ r1.direction ∙ dir) (omega (arith, r2.left, r1.left)) (omega arith)
          (omega arith) in
      let d3 : Devices = write_words bus 256 a ptr d2 in
      let (d', ends, rest) = write_rounds-Written fuel k (a + 512) d3 enough dir3 left3 in
      (
        d',
        rw (busy, drq) ends,
        record {
          medium = λ x. ground (
            arith,
            rest.medium x,
            block.medium x,
            r2.medium x,
            r1.medium x,
            r2.position,
            r1.position,
          );
        },
      )

  -- A number of blocks below 256 fits the eight bits.
  write_blocks-cut :
      (fuel lba n : ℕ) (d : Devices)
      → n < 256
      → write_blocks bus fuel ptr lba n d ≡ (
          ata_busy_wait bus fuel d >>= λ d'.
          write_rounds bus fuel n 0 ptr (send_command bus lba n 0x30 d'))
  unfolding write_blocks
  write_blocks-cut fuel lba n d few = let cut : n % 256 ≡ n = omega arith in rw cut refl

  -- On an ATA disk that answers within `limit` polls, `write_blocks` of 1 to 255 blocks of bytes below
  -- block 2 ^ 23 ends with any fuel above that, and leaves on the medium what the block routine of the
  -- disk image makes of it.
  pub write_blocks-image :
      (fuel lba n : ℕ) (d : Devices)
      → disk.limit < fuel
      → 0 < n
      → n < 256
      → lba + n ≤ 2 ^ 23
      → (d' : Devices) × (write_blocks bus fuel ptr lba n d ≡ done d')
        × ((x : ℕ) → disk.medium d' x ≡ Image.write_blocks ptr (disk.medium d) lba n x)
  write_blocks-image fuel lba n d enough some few reach =
      let (d1, busy, r1) =
        ata_busy_wait-Ready bus disk fuel d (omega (arith, disk.waiting_limit d)) in
      let (dir, begun) = send_command-write bus disk lba n d1 r1.idle (omega arith) some few in
      let d2 : Devices = send_command bus lba n 0x30 d1 in
      let (d', ends, all) = write_rounds-Written fuel n 0 d2 enough dir begun.left in
      (
        d',
        write_blocks-cut fuel lba n d few ∙ rw busy ends,
        λ x. ground (
          arith,
          all.medium x,
          begun.position,
          begun.medium x,
          r1.medium x,
          write_blocks_lem ptr (disk.medium d) lba n x reach,
        ),
      )
