-- ===== src/Interrupt/Reading.antt =====
-- interrupt.c: the system call that reads a file.
use if2230_2023_hexos.Prelude.{
  ℕ, ◌+◌, ◌-◌, ◌<◌, ◌≡◌, ◌≢◌, refl, true, ◌&&◌, ltb, leb, ◌==◌, if◌then◌else◌, Buf, IsBytes, load32,
  store, ℤ, pos, negsuc, minus_one, Run, done, ◌>>=◌, arith,
}
use if2230_2023_hexos.Ports.{Bus}
use if2230_2023_hexos.Framebuffer.{framebuffer_get_cursor}
use if2230_2023_hexos.Fat32.{DriverState}
use if2230_2023_hexos.Fat32.Layout.{cluster_low}
use if2230_2023_hexos.Fat32.Cluster.{byte_of}
use if2230_2023_hexos.Fat32.Read.{is_file_entry}
use if2230_2023_hexos.Fat32.Read.Outcomes.{
  loaded, Unchanged, ReadResult, bad_parent, not_found, too_small, overrun, success,
  read-ReadResult,
}
use if2230_2023_hexos.Interrupt.{
  CpuRegister, Kernel, request_at, put_back, store_code, call_read, syscall,
}

-- What the call leaves: the code alone, of a failure, or the file's bytes and the code 0.
pub data ReadCall {D : Type 0} (cpu : CpuRegister) (k : Kernel D) : Run (Kernel D) → Type 0 where
  refused :
      {k' : Kernel D} (code : ℤ)
      → code ≢ pos 0
      → ((x : ℕ) → k'.memory x ≡ store_code k.memory cpu.ecx code x)
      → Unchanged k.files k'.files
      → k'.machine.screen ≡ k.machine.screen
      → ReadCall cpu k (done k')
  delivered :
      {k' : Kernel D} (i : ℕ)
      → i < 64
      → is_file_entry (request_at k.memory cpu.ebx) (loaded (request_at k.memory cpu.ebx) k.files) i
        ≡ true
      → ((x : ℕ)
          → k'.memory x ≡ (
              if x == cpu.ecx
              then 0
              else if leb (load32 k.memory cpu.ebx) x && ltb x (load32 k.memory cpu.ebx + 512)
              then byte_of k.files.disk
                  (cluster_low (loaded (request_at k.memory cpu.ebx) k.files) i)
                  (x - load32 k.memory cpu.ebx)
              else k.memory x))
      → Unchanged k.files k'.files
      → k'.machine.screen ≡ k.machine.screen
      → ReadCall cpu k (done k')

-- Bytes that have not changed are put back where they were.
pub put_back-same :
    (memory : Buf) (p q : ℕ) (code : ℤ) (x : ℕ)
    → store_code (put_back memory p (λ a. memory (p + a))) q code x ≡ store_code memory q code x
unfolding put_back store_code store
put_back-same memory p q (pos n) x = ground arith
put_back-same memory p q (negsuc n) x = ground arith

module _ (bus : Bus) (cpu : CpuRegister) (k : Kernel bus.Devices) where
  open k use {memory, files}

  ReadCall-of_ReadResult :
      (d : bus.Devices) {r : Run (ℤ × Buf × DriverState)}
      → ReadResult
          (request_at memory cpu.ebx)
          files
          (is_file_entry (request_at memory cpu.ebx) (loaded (request_at memory cpu.ebx) files))
          (λ i. 512)
          r
      → ReadCall cpu k (
          r >>= λ (code, buf, files'). done (record k {
            machine = record (k.machine) { devices = d };
            files = files';
            memory = store_code (put_back memory (load32 memory cpu.ebx) buf) cpu.ecx code;
          }))
  unfolding request_at put_back store_code store
  ReadCall-of_ReadResult d (bad_parent bad same) =
      refused minus_one (λ p. cc) (put_back-same memory (load32 memory cpu.ebx) cpu.ecx minus_one)
        same refl
  ReadCall-of_ReadResult d (not_found fine all same) =
      refused (pos 3) (λ p. ground arith)
        (put_back-same memory (load32 memory cpu.ebx) cpu.ecx (pos 3)) same refl
  ReadCall-of_ReadResult d (too_small i fine high hit first over same) =
      refused (pos 2) (λ p. ground arith)
        (put_back-same memory (load32 memory cpu.ebx) cpu.ecx (pos 2)) same refl
  ReadCall-of_ReadResult d (overrun i fine high hit first fits over) = absurd (omega arith)
  ReadCall-of_ReadResult d (success {out} i fine high hit before fits inside bytes same) =
      delivered i high hit (λ x. ground (arith, bytes (x - load32 memory cpu.ebx))) same refl

  -- If the parent's table holds bytes, system call 0 always returns. On a failure only the byte for the
  -- code changes in the caller's memory; otherwise the 512 bytes at the request's `buf` become the
  -- first ones of the first cluster of an entry with the requested name and extension, the code
  -- is 0, and the rest of the memory is as it was. The disk, the FAT and the screen do not change.
  pub syscall-ReadCall :
      (fuel : ℕ)
      → cpu.eax ≡ 0
      → IsBytes (loaded (request_at memory cpu.ebx) files)
      → ReadCall cpu k (syscall bus fuel cpu k)
  unfolding syscall call_read
  syscall-ReadCall fuel call table =
      let is_0 : (cpu.eax == 0) ≡ true = ground arith in
      rw is_0 (
        ReadCall-of_ReadResult (framebuffer_get_cursor bus k.machine.devices).2
          (read-ReadResult (request_at memory cpu.ebx) files table))
