-- ===== src/Gic/Run.antt =====
-- Any sequence of accesses by the devices and the guest.
mod Defs
use Defs.{
  Access, line_up, line_down, cpu_read, cpu_write, distributor_read, distributor_write, IsValue,
  IsAllowed, AllAllowed, perform, run,
}
use icewind.Common.{
  ℕ, zero, suc, ◌+◌, ◌-◌, ◌≤◌, ◌<◌, ◌≡◌, refl, ◌⊎◌, inl, inr, List, [], ◌∷◌, arith, length, Outcome,
  ok, panic, Returns, Returns-bind, Returns-map, ◌>>=◌, ==_of_eq, from_le_bytes32, Returns-elim,
  if◌then◌else◌, ◌==◌, bit_and, u8, ◌*◌, ◌/◌,
}
unfoldable pub use Defs.*
use icewind.Gic.Defs.{Controller, IrqLine, acknowledge, eoi}
use icewind.Gic.Chain.{IsValid}
use icewind.Gic.Serve.{raise-IsValid, rescind-IsValid}
use icewind.Gic.Cpu.{acknowledge-IsValid, eoi-IsValid}
use icewind.Gic.Bytes.{written, copied}
use icewind.Gic.CpuInterface
use icewind.Gic.Distributor
use icewind.Gic.Distributor.{gather}
use icewind.Gic.Distributor.Safety.{write_register-IsValid}
use icewind.Gic.Distributor.Lines.{lines_for_bitvector_lem}

written_total : (bytes : List ℕ) → IsValue bytes → (x : ℕ) × (written bytes ≡ ok x)
unfolding written
written_total [] h = absurd (omega arith)
written_total (a ∷ []) h = (a, refl)
written_total (a ∷ b ∷ []) h = absurd (omega arith)
written_total (a ∷ b ∷ c ∷ []) h = absurd (omega arith)
written_total (a ∷ b ∷ c ∷ d ∷ []) h = (from_le_bytes32 a b c d, refl)
written_total (a ∷ b ∷ c ∷ d ∷ e ∷ r) h = absurd (omega arith)

module _ (c : Controller) (v : IsValid c) where
  cpu_write-IsValid :
      (offset : ℕ) (bytes : List ℕ)
      → IsAllowed (cpu_write offset bytes)
      → Returns (CpuInterface.write c offset bytes) IsValid
  unfolding CpuInterface.write
  cpu_write-IsValid offset bytes (at, h) = let (x, e) = written_total bytes h in rw e (go x at)
    where
      same :
          (c' : Controller)
          → c'.lines ≡ c.lines
          → c'.cpu_irq_line_running ≡ c.cpu_irq_line_running
          → c'.cpu_irq_line_pending ≡ c.cpu_irq_line_pending
          → IsValid c'
      same c' l r p = record {
        serving = record {
          size = rw l v.serving.size;
          bytes = rw l v.serving.bytes;
          chain = rw (l, r) v.serving.chain;
        };
        pending = rw (l, p) v.pending;
      }

      go :
          (x : ℕ)
          → (offset ≡ 0x0000) ⊎ (offset ≡ 0x0004) ⊎ (offset ≡ 0x0010)
          → Returns
              (if offset == 0x0000
                then ok (record c { cpu_enabled = bit_and x 1 == 1 })
                else if offset == 0x0004
                then ok (record c { cpu_pmr = u8 (bit_and x 0xff) })
                else if offset == 0x0010
                then eoi c x
                else panic)
              IsValid
      go x (inl e) = rw e (same _ refl refl refl)
      go x (inr (inl e)) = rw e (same _ refl refl refl)
      go x (inr (inr e)) = rw e (eoi-IsValid c x v)

  cpu_read-IsValid :
      (offset len : ℕ)
      → IsAllowed (cpu_read offset len)
      → Returns (perform (cpu_read offset len) c) IsValid
  unfolding perform CpuInterface.read copied
  cpu_read-IsValid offset len (inl at, four) = rw (at, four) v
  cpu_read-IsValid offset len (inr (inl at), four) =
      let ((c', r), e, (v', _)) = Returns-elim (acknowledge c) _ (acknowledge-IsValid c v) in
      rw (at, four, e) v'
  cpu_read-IsValid offset len (inr (inr at), four) = rw (at, four) v

  gather_total :
      (base bits : ℕ) (field : IrqLine → ℕ) (shift : ℕ)
      → 8 * base / bits ≤ 1019
      → Returns (gather c base 4 bits field shift) (λ _. Unit)
  unfolding gather
  gather_total base bits field shift low =
      rw (lines_for_bitvector_lem c base 4 bits (omega (arith, v.serving.size)) low) tt

  response_total :
      (offset : ℕ)
      → ((0x0800 ≤ offset) × (offset ≤ 0x0bfb)) ⊎ ((0x0c00 ≤ offset) × (offset ≤ 0x0cfe))
      → Returns (Distributor.response c offset) (λ _. Unit)
  unfolding Distributor.response
  response_total offset (inl (lo, hi)) =
      let arm : Distributor.response c offset ≡ gather c (offset - 0x0800) 4 8 (λ l. l.cpu_mask) 8 =
        ground arith in
      rw arm (gather_total (offset - 0x0800) 8 (λ l. l.cpu_mask) 8 (omega arith))
  response_total offset (inr (lo, hi)) =
      let arm : Distributor.response c offset ≡ gather c (offset - 0x0c00) 4 2 (λ l. l.config) 2 =
        ground arith in
      rw arm (gather_total (offset - 0x0c00) 2 (λ l. l.config) 2 (omega arith))

  distributor_read-IsValid :
      (offset len : ℕ)
      → IsAllowed (distributor_read offset len)
      → Returns (perform (distributor_read offset len) c) IsValid
  unfolding perform Distributor.read copied
  distributor_read-IsValid offset len (at, four) =
      let (r, e, _) =
        Returns-elim (Distributor.response c offset) (λ _. Unit) (response_total offset at) in
      rw (four, e) v

-- Every allowed access returns, and keeps the invariant.
pub perform-IsValid :
    (a : Access) (c : Controller) → IsValid c → IsAllowed a → Returns (perform a c) IsValid
unfolding perform Distributor.write
perform-IsValid (line_up i) c v h = raise-IsValid c i v (omega (arith, v.serving.size))
perform-IsValid (line_down i) c v h = rescind-IsValid c i v (omega (arith, v.serving.size))
perform-IsValid (cpu_read offset len) c v h = cpu_read-IsValid c v offset len h
perform-IsValid (distributor_read offset len) c v h = distributor_read-IsValid c v offset len h
perform-IsValid (cpu_write offset bytes) c v h = cpu_write-IsValid c v offset bytes h
perform-IsValid (distributor_write offset bytes) c v (safe, h) =
    let (x, e) = written_total bytes h in rw e (write_register-IsValid c offset x v safe)

-- From a valid state, any sequence of allowed accesses runs to its end: no access panics, the
-- loop of `eoi` ends, and the state that is reached is valid. Allowed are calls of `raise` and
-- `rescind` for a line that exists, reads of four bytes and writes of one or four at the offsets
-- that `IsAllowed` lists; the writes of priorities are not among them.
pub run-IsValid :
    (as' : List Access) (c : Controller) → IsValid c → AllAllowed as' → Returns (run as' c) IsValid
unfolding run
run-IsValid [] c v h = v
run-IsValid (a ∷ as') c v (h, hs) =
    Returns-bind (perform a c) (run as') IsValid IsValid (perform-IsValid a c v h)
      λ c' v'. run-IsValid as' c' v' hs
