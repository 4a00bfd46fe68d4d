-- ===== src/Interrupt/Lookup.antt =====
-- interrupt.c and fat32.c: system call 0 of a user program as the lookup of a directory's map.
use if2230_2023_hexos.Prelude.{
  ℕ, ◌+◌, ◌-◌, ◌≤◌, ◌<◌, ◌≡◌, true, ◌&&◌, ltb, leb, ◌==◌, if◌then◌else◌, List, Option, none, some,
  Buf, load32, store, ℤ, pos, Run, done, ◌>>=◌, arith,
}
use if2230_2023_hexos.Ports.{Bus}
use if2230_2023_hexos.Framebuffer.{framebuffer_get_cursor}
use if2230_2023_hexos.Fat32.{DriverRequest, DriverState}
use if2230_2023_hexos.Fat32.Read.Outcomes.{Unchanged}
use if2230_2023_hexos.Fat32.Directory.{find, Asks}
use if2230_2023_hexos.Fat32.Directory.Answers.{Answer, absent, small, delivered}
use if2230_2023_hexos.Fat32.Directory.Blank.{IsBlank}
use if2230_2023_hexos.Fat32.Directory.Sessions.{Session, read-Session}
use if2230_2023_hexos.Interrupt.{
  CpuRegister, Kernel, request_at, put_back, store_code, call_read, syscall, main_interrupt_handler,
}
use if2230_2023_hexos.Interrupt.Reading.{put_back-same}

-- What the call leaves in the program's memory, by what the map has for its request.
pub data Looked {D : Type 0} (cpu : CpuRegister) (k : Kernel D)
    : Option DriverRequest → Run (Kernel D) → Type 0 where
  missing :
      {k' : Kernel D}
      → ((x : ℕ) → k'.memory x ≡ store_code k.memory cpu.ecx (pos 3) x)
      → Unchanged k.files k'.files
      → Looked cpu k none (done k')
  no_room :
      {k' : Kernel D} {r : DriverRequest}
      → (request_at k.memory cpu.ebx).buffer_size < r.buffer_size
      → ((x : ℕ) → k'.memory x ≡ store_code k.memory cpu.ecx (pos 2) x)
      → Unchanged k.files k'.files
      → Looked cpu k (some r) (done k')
  copied :
      {k' : Kernel D} {r : DriverRequest}
      → r.buffer_size ≤ (request_at k.memory cpu.ebx).buffer_size
      → ((x : ℕ)
          → k'.memory x ≡ (
              if x == cpu.ecx
              then 0
              else if leb (load32 k.memory cpu.ebx) x && ltb x (load32 k.memory cpu.ebx + 512)
              then r.buf (x - load32 k.memory cpu.ebx)
              else k.memory x))
      → Unchanged k.files k'.files
      → Looked cpu k (some r) (done k')

module _ (bus : Bus) (cpu : CpuRegister) (k : Kernel bus.Devices) where
  open k use {memory, files}

  abbrev request : DriverRequest
  request = request_at memory cpu.ebx

  Looked-of_Answer :
      (d : bus.Devices) {o : Option DriverRequest} {r : Run (ℤ × Buf × DriverState)}
      → Answer request files o r
      → Looked cpu k o (
          r >>= λ (code, buf, files'). done (record k {
            machine = record (k.machine) { devices = d };
            files = files';
            memory = store_code (put_back memory (load32 memory cpu.ebx) buf) cpu.ecx code;
          }))
  unfolding request_at put_back store_code store
  Looked-of_Answer d (absent same) =
      missing (put_back-same memory (load32 memory cpu.ebx) cpu.ecx (pos 3)) same
  Looked-of_Answer d (small over same) =
      no_room over (put_back-same memory (load32 memory cpu.ebx) cpu.ecx (pos 2)) same
  Looked-of_Answer d (delivered {out} fits bytes same) =
      copied fits (λ x. ground (arith, bytes (x - load32 memory cpu.ebx))) same

  -- Begin with a blank directory and make any session on it. Then the interrupt 0x30 for system call 0
  -- looks up a request of the program for a name in this directory, neither empty nor that of the directory's
  -- own entry, as in a finite map: of the program's memory only the byte for the code changes, to 3 if no call has stored a
  -- file of that name and extension, or to 2 if the program's buffer is too small for the one that
  -- has; otherwise it becomes 0, and the 512 bytes at the request's `buf` become the first ones stored.
  pub interrupt-Looked :
      (fuel : ℕ) (s : DriverState) {stored : List DriverRequest}
      → cpu.eax ≡ 0
      → IsBlank request.parent_cluster_number s
      → Session request.parent_cluster_number s files stored
      → Asks request.parent_cluster_number s.disk request
      → Looked cpu k (find request stored) (main_interrupt_handler bus fuel cpu 0x30 k)
  unfolding main_interrupt_handler syscall call_read
  interrupt-Looked fuel s call blank calls asks =
      let is_0 : (cpu.eax == 0) ≡ true = ground arith in
      rw is_0 (
        Looked-of_Answer (framebuffer_get_cursor bus k.machine.devices).2
          (read-Session request s files blank calls asks))
