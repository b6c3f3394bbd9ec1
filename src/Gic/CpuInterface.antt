-- ===== src/Gic/CpuInterface.antt =====
-- `impl MemoryMappedDevice for CpuInterface`. A call takes the bytes that the guest writes, or how
-- many it reads.
use icewind.Common.{ℕ, bit_and, List, ◌==◌, if◌then◌else◌, Outcome, ok, panic, ◌>>=◌, u8, of_bool}
use icewind.Gic.Defs.{Controller, acknowledge, eoi}
use icewind.Gic.Bytes.{written, copied}

-- what `read` answers with, and the state after it
pub response : Controller → ℕ → Outcome (Controller × ℕ)
response c offset =
    if offset == 0x0000
    then ok (c, of_bool c.cpu_enabled)
    else if offset == 0x000c
    then acknowledge c
    else if offset == 0x00fc
    then ok (c, 0)
    else panic

unfoldable pub read : Controller → ℕ → ℕ → Outcome (Controller × List ℕ)
unfolding response
read c offset len = do (c', r) ← response c offset; bytes ← copied len r; ok (c', bytes)

unfoldable pub write : Controller → ℕ → List ℕ → Outcome Controller
write c offset bytes = do
  value ← written bytes
  if offset == 0x0000
      then ok (record c { cpu_enabled = bit_and value 1 == 1 })
      else if offset == 0x0004
      then ok (record c { cpu_pmr = u8 (bit_and value 0xff) })
      else if offset == 0x0010
      then eoi c value
      else panic
