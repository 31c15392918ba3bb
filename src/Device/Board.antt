-- ===== src/Device/Board.antt =====
-- The device of tclpim.cc on a board: a memory that answers the requests of each clock before the
-- next one, and a host that writes to the function registers.
use sst_pim.Prelude.{
  ℕ, zero, suc, ◌+◌, ◌-◌, leb, ltb, ◌&&◌, Bool, true, false, List, [], ◌∷◌, length, get_or,
  if◌then◌else◌, to_bytes, Outcome, ok, ◌>>=◌, ◌≡◌,
}
use sst_pim.Pimdef.{sram_base, sram_size}
use sst_pim.Tclpim
use sst_pim.Tclpim.{Tclpim, DramRequest}
use sst_pim.Tclpim.Registers.{register}
use sst_pim.Memory.{Backing}
use sst_pim.Device

-- A host's writes of 64-bit values to the register of function `n`, in order.
unfoldable pub write_words : ℕ → Tclpim → List ℕ → Outcome Tclpim
write_words n t [] = ok t
write_words n t (d ∷ ds) =
    Tclpim.write t (register n) 8 (to_bytes 8 d) >>= λ t'. write_words n t' ds

module _ (b : Backing) where
  open b use {Store, byte, set, get}

  pub record Board : Type 0 where
    pub device : Tclpim
    pub store : Store

  -- The memory answers one request, and the completion that waits for it is called.
  unfoldable pub answer : DramRequest → Board → Outcome Board
  answer r bd =
      if r.is_write
      then (Device.complete r.completion r.payload bd.device >>= λ t.
          ok (record { device = t; store = set bd.store r.address r.payload }))
      else (Device.complete r.completion (get bd.store r.address (length r.payload)) bd.device
          >>= λ t. ok (record { device = t; store = bd.store }))

  unfoldable pub answer_all : List DramRequest → Board → Outcome Board
  unfolding answer
  answer_all [] bd = ok bd
  answer_all (r ∷ rs) bd = answer r bd >>= λ bd'. answer_all rs bd'

  -- A clock of the device at cycle `c`, and the answers to its requests.
  unfoldable pub cycle : ℕ → Board → Outcome (Board × Bool)
  unfolding answer_all
  cycle c bd = Device.clock c bd.device >>= λ (t, finished).
      answer_all t.issued (record { device = record t { issued = [] }; store = bd.store })
      >>= λ bd'. ok (bd', finished)

  -- A cycle from its two parts.
  pub cycle_of :
      (c : ℕ) (bd bd' : Board) (t : Tclpim) (d : Bool)
      → Device.clock c bd.device ≡ ok (t, d)
      → answer_all t.issued (record { device = record t { issued = [] }; store = bd.store })
        ≡ ok bd'
      → cycle c bd ≡ ok (bd', d)
  unfolding cycle
  cycle_of c bd bd' t d e a = rw e (rw a)

  unfoldable pub drive_on : (Board → Outcome (Board × Bool)) → Board × Bool → Outcome (Board × Bool)
  drive_on rest (bd, true) = ok (bd, true)
  drive_on rest (bd, false) = rest bd

  -- Up to `n` cycles from cycle `c` on; `true` when the device has reported the end of a function.
  unfoldable pub drive : ℕ → ℕ → Board → Outcome (Board × Bool)
  unfolding drive_on
  drive c zero bd = ok (bd, false)
  drive c (suc n) bd = cycle c bd >>= drive_on (drive (c + 1) n)

  -- A drive from its first cycle.
  pub drive_done :
      (c n : ℕ) (bd bd' : Board) → cycle c bd ≡ ok (bd', true) → drive c (suc n) bd ≡ ok (bd', true)
  unfolding drive
  drive_done c n bd bd' e = rw e

  pub drive_next :
      (c n : ℕ) (bd bd' : Board) (r : Outcome (Board × Bool))
      → cycle c bd ≡ ok (bd', false)
      → drive (c + 1) n bd' ≡ r
      → drive c (suc n) bd ≡ r
  unfolding drive
  drive_next c n bd bd' r e h = rw e h

  -- A clock of the device, which leaves its requests open, and the answers to all open requests.
  unfoldable pub tick : Board → Outcome (Board × Bool)
  tick bd = Device.clock (bd.device.cycle + 1) bd.device >>= λ (t, finished).
      ok (record { device = t; store = bd.store }, finished)

  unfoldable pub reply : Board → Outcome Board
  unfolding answer_all
  reply bd = answer_all bd.device.issued (record bd { device = record bd.device { issued = [] } })

  -- The bytes at an address, as `MemCopy.Machine.view` has them.
  unfoldable pub view : Board → ℕ → ℕ
  view bd x =
      if leb sram_base x && ltb x (sram_base + sram_size)
      then get_or bd.device.sram (x - sram_base) 0
      else byte bd.store x
