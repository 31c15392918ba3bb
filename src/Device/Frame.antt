-- ===== src/Device/Frame.antt =====
-- What the functions of the device do depends on its registers only where they access them: a
-- clock or a completion that succeeds on a device without registers does the same on any other.
use sst_pim.Prelude.{ℕ, ◌*◌, ◌≡◌, arith, Bool, List, [], ok, resize, outcome_cases, inl, inr}
use sst_pim.Decoder.{PimAccessType, decode}
use sst_pim.Fsm.{DmaState, MemCopy, MulVecByScalar}
use sst_pim.FuncState.{FuncState}
use sst_pim.Tclpim.{
  Tclpim, lookup, read, write, read_by_type, write_by_type, read_sram, read_func, write_sram,
  write_func,
}
use sst_pim.MemCopy
use sst_pim.MulVec

-- A device with other registers, at another cycle.
abbrev pub with_registers : Tclpim → ℕ → List (ℕ × FuncState) → Tclpim
with_registers t c fs = record t { cycle = c; func_state = fs }

read_frame :
    (k : PimAccessType) (t : Tclpim) (a n c : ℕ) (fs : List (ℕ × FuncState)) (buffer out : List ℕ)
    → t.func_state ≡ []
    → read_by_type k t a n buffer ≡ ok out
    → read_by_type k (with_registers t c fs) a n buffer ≡ ok out
unfolding read_by_type read_sram read_func lookup
read_frame k t a n c fs buffer out e h = ground arith

write_frame :
    (k : PimAccessType) (t t' : Tclpim) (a n c : ℕ) (fs : List (ℕ × FuncState)) (payload : List ℕ)
    → t.func_state ≡ []
    → write_by_type k t a n payload ≡ ok t'
    → (write_by_type k (with_registers t c fs) a n payload ≡ ok (with_registers t' c fs))
      × (t'.func_state ≡ [])
      × (t'.issued ≡ t.issued)
unfolding write_by_type write_sram write_func lookup
write_frame k t t' a n c fs payload e h = (ground arith, ground arith, ground arith)

copy_read_frame :
    (t t' : Tclpim) (m m' : MemCopy) (n c : ℕ) (d : Bool) (fs : List (ℕ × FuncState))
    → t.func_state ≡ []
    → MemCopy.clock_read t m n ≡ ok (t', m', d)
    → (MemCopy.clock_read (with_registers t c fs) m n ≡ ok (with_registers t' c fs, m', d))
      × (t'.func_state ≡ [])
unfolding MemCopy.clock_read MemCopy.issue read
copy_read_frame t t' m m' n c d fs e h =
    ground (arith, read_frame (decode m.src).access_type t m.src n c fs t.buffer)

copy_write_frame :
    (t t' : Tclpim) (m m' : MemCopy) (w n c : ℕ) (d : Bool) (fs : List (ℕ × FuncState))
    → t.func_state ≡ []
    → MemCopy.clock_write t m w n ≡ ok (t', m', d)
    → (MemCopy.clock_write (with_registers t c fs) m w n ≡ ok (with_registers t' c fs, m', d))
      × (t'.func_state ≡ [])
unfolding MemCopy.clock_write MemCopy.issue write
copy_write_frame t t' m m' w n c d fs e h =
    elim (outcome_cases (write_by_type (decode m.dst).access_type t m.dst n t.buffer)) [
      | inl (t2, e2) ↦
          ground (arith, e2, write_frame (decode m.dst).access_type t t2 m.dst n c fs t.buffer e e2)
      | inr (k, e2) ↦ ground (arith, e2)
    ]

copy_state_frame :
    (k : DmaState) (t t' : Tclpim) (m m' : MemCopy) (w n c : ℕ) (d : Bool)
    (fs : List (ℕ × FuncState))
    → t.func_state ≡ []
    → MemCopy.clock_state k t m w n ≡ ok (t', m', d)
    → (MemCopy.clock_state k (with_registers t c fs) m w n ≡ ok (with_registers t' c fs, m', d))
      × (t'.func_state ≡ [])
unfolding MemCopy.clock_state
copy_state_frame DmaState.read t t' m m' w n c d fs e h = copy_read_frame t t' m m' n c d fs e h
copy_state_frame DmaState.write t t' m m' w n c d fs e h = copy_write_frame t t' m m' w n c d fs e h
copy_state_frame DmaState.done t t' m m' w n c d fs e h = ground arith
copy_state_frame DmaState.idle t t' m m' w n c d fs e h = ground arith
copy_state_frame DmaState.waiting t t' m m' w n c d fs e h = ground arith

-- A clock of `MemCopy` that succeeds without registers.
pub copy_clock_frame :
    (t t' : Tclpim) (m m' : MemCopy) (c : ℕ) (d : Bool) (fs : List (ℕ × FuncState))
    → t.func_state ≡ []
    → MemCopy.clock t m ≡ ok (t', m', d)
    → (MemCopy.clock (with_registers t c fs) m ≡ ok (with_registers t' c fs, m', d))
      × (t'.func_state ≡ [])
unfolding MemCopy.clock
copy_clock_frame t t' m m' c d fs e h =
    copy_state_frame m.dma_state
      (record t { buffer = resize t.buffer (MemCopy.chunk_words m.word_counter * 8) 0 }) t' m m'
      (MemCopy.chunk_words m.word_counter) (MemCopy.chunk_words m.word_counter * 8) c d fs e h

-- A clock of `MulVecByScalar` does not look at the registers at all.
pub mul_clock_frame :
    (t t' : Tclpim) (m m' : MulVecByScalar) (c : ℕ) (d : Bool) (fs : List (ℕ × FuncState))
    → MulVec.clock t m ≡ ok (t', m', d)
    → (MulVec.clock (with_registers t c fs) m ≡ ok (with_registers t' c fs, m', d))
      × (t'.func_state ≡ t.func_state)
unfolding MulVec.clock MulVec.clock_state MemCopy.issue
mul_clock_frame t t' m m' c d fs h = ground arith
