-- ===== src/MemCopy/Machine.antt =====
-- `MemCopy` (tclpim_functions.cc) with the memory that answers its requests: one clock of the
-- function, and the answer to the request that it sent, if any, before the next clock.
use sst_pim.Prelude.{
  ℕ, zero, suc, ◌+◌, ◌-◌, leb, ltb, ◌&&◌, Bool, true, false, List, [], ◌∷◌, length, get_or,
  if◌then◌else◌, Outcome, ok, fault, fatal, ◌>>=◌,
}
use sst_pim.Pimdef.{sram_base, sram_size}
use sst_pim.Fsm.{MemCopy}
use sst_pim.Tclpim.{Tclpim, DramRequest, Completion, copy_read, copy_write, mul_read, mul_write}
use sst_pim.MemCopy.{clock, complete_read, complete_write}
use sst_pim.Memory.{Backing}

module _ (b : Backing) where
  open b use {Store, byte, set, get}

  pub record Machine : Type 0 where
    pub device : Tclpim
    pub copy : MemCopy
    pub store : Store

  -- The completion of this function; the others are not its own.
  unfoldable pub complete : Completion → List ℕ → Tclpim → MemCopy → Outcome (Tclpim × MemCopy)
  complete (copy_read next) d t m = complete_read next d t m
  complete (copy_write next) d t m = complete_write next t m
  complete mul_read d t m = fault fatal
  complete (mul_write next) d t m = fault fatal

  -- The memory answers one request: a write is stored, a read returns the bytes.
  unfoldable pub answer : DramRequest → Machine → Outcome Machine
  unfolding complete
  answer r mc =
      if r.is_write
      then (complete r.completion r.payload mc.device mc.copy >>= λ (t, m).
          ok (record { device = t; copy = m; store = set mc.store r.address r.payload }))
      else (complete r.completion (get mc.store r.address (length r.payload)) mc.device mc.copy
          >>= λ (t, m). ok (record { device = t; copy = m; store = mc.store }))

  unfoldable pub answer_all : List DramRequest → Machine → Outcome Machine
  unfolding answer
  answer_all [] mc = ok mc
  answer_all (r ∷ rs) mc = answer r mc >>= λ mc'. answer_all rs mc'

  unfoldable pub cycle : Machine → Outcome (Machine × Bool)
  unfolding answer_all
  cycle mc = clock mc.device mc.copy >>= λ (t, m, finished).
      answer_all t.issued (record { device = record t { issued = [] }; copy = m; store = mc.store })
      >>= λ mc'. ok (mc', finished)

  unfoldable pub drive_on :
      (Machine → Outcome (Machine × Bool)) → Machine × Bool → Outcome (Machine × Bool)
  drive_on rest (mc', true) = ok (mc', true)
  drive_on rest (mc', false) = rest mc'

  -- Up to `n` cycles; `true` when the function has reported that it is done.
  unfoldable pub drive : ℕ → Machine → Outcome (Machine × Bool)
  unfolding drive_on
  drive zero mc = ok (mc, false)
  drive (suc n) mc = cycle mc >>= drive_on (drive n)

  -- A clock of the function, which leaves its requests open, and the answers to all open requests.
  unfoldable pub tick : Machine → Outcome (Machine × Bool)
  tick mc = clock mc.device mc.copy >>= λ (t, m, finished).
      ok (record { device = t; copy = m; store = mc.store }, finished)

  unfoldable pub reply : Machine → Outcome Machine
  unfolding answer_all
  reply mc = answer_all mc.device.issued (record mc { device = record mc.device { issued = [] } })

  -- The bytes at an address: of the scratchpad in its first window, of the memory elsewhere.
  unfoldable pub view : Machine → ℕ → ℕ
  view mc x =
      if leb sram_base x && ltb x (sram_base + sram_size)
      then get_or mc.device.sram (x - sram_base) 0
      else byte mc.store x
