-- ===== src/Device/Sharing.antt =====
-- The functions share one buffer (pim.h, `PIM::buffer`), and every clock of a running function
-- resizes it, also while the function waits (tclpim_functions.cc and userpim_functions.cc).
use sst_pim.Prelude.{
  ℕ, ◌*◌, ◌≡◌, ◌≢◌, ◌⊎◌, refl, arith, List, length, resize, length-resize, some, ok, fault,
  assertion, false, ◌∷◌, [],
}
use sst_pim.Pimdef.{Fstate, func_num_f1, func_num_u5}
use sst_pim.Fsm.{DmaState, MemCopy, MulVecByScalar, mem_copy, mul_vec}
use sst_pim.FuncState.{FuncState}
use sst_pim.Tclpim.{Tclpim, copy_read, lookup, update}
use sst_pim.MemCopy
use sst_pim.MulVec
use sst_pim.Device.{step_function, fsm_clock, clock_functions, clock, complete}
use sst_pim.Device.Clock.{Installed, is_running_of}

-- A function that waits changes nothing but the size of the buffer.
fsm_wait_copy :
    (t : Tclpim) (m : MemCopy)
    → m.dma_state ≡ DmaState.waiting
    → MemCopy.clock t m
      ≡ ok (
        record t { buffer = resize t.buffer (MemCopy.chunk_words m.word_counter * 8) 0 },
        m,
        false,
      )
unfolding MemCopy.clock MemCopy.clock_state
fsm_wait_copy t m w = ground arith

fsm_wait_mul :
    (t : Tclpim) (u : MulVecByScalar)
    → (u.dma_state ≡ DmaState.waiting) ⊎ (u.dma_state ≡ DmaState.idle)
    → MulVec.clock t u
      ≡ ok (
        record t { buffer = resize t.buffer (MemCopy.chunk_words u.word_counter * 8) 0 },
        u,
        false,
      )
unfolding MulVec.clock MulVec.clock_state
fsm_wait_mul t u w = ground arith

step_wait_copy :
    (t : Tclpim) (s1 s5 : FuncState) (m : MemCopy)
    → Installed t s1 s5
    → s1.exec ≡ some (mem_copy m)
    → m.dma_state ≡ DmaState.waiting
    → step_function func_num_f1 s1 t
      ≡ ok (
        record t {
          buffer = resize t.buffer (MemCopy.chunk_words m.word_counter * 8) 0;
          func_state = (func_num_f1, s1) ∷ (func_num_u5, s5) ∷ [];
        },
        false,
      )
unfolding step_function fsm_clock lookup update
step_wait_copy t s1 s5 m i x w = ground (arith, fsm_wait_copy t m w)

step_wait_mul :
    (t : Tclpim) (s1 s5 : FuncState) (u : MulVecByScalar)
    → Installed t s1 s5
    → s5.exec ≡ some (mul_vec u)
    → (u.dma_state ≡ DmaState.waiting) ⊎ (u.dma_state ≡ DmaState.idle)
    → step_function func_num_u5 s5 t
      ≡ ok (
        record t {
          buffer = resize t.buffer (MemCopy.chunk_words u.word_counter * 8) 0;
          func_state = (func_num_f1, s1) ∷ (func_num_u5, s5) ∷ [];
        },
        false,
      )
unfolding step_function fsm_clock lookup update
step_wait_mul t s1 s5 u i x w = ground (arith, fsm_wait_mul t u w)

-- A completion whose data has not the size of the buffer fails its assertion.
wrong_size :
    (next : DmaState) (d : List ℕ) (t : Tclpim) (s1 s5 : FuncState) (m : MemCopy)
    → Installed t s1 s5
    → s1.exec ≡ some (mem_copy m)
    → length t.buffer ≢ length d
    → complete (copy_read next) d t ≡ fault assertion
unfolding complete lookup MemCopy.complete_read
wrong_size next d t s1 s5 m i x n = ground arith

-- One function waits for the bytes of a read while the other runs too, waiting or without work.
-- The clock of the device leaves the buffer at the size of the other's transfer; the completion of
-- the read then fails its assertion, whenever its data has another size.
pub shared_buffer_fault :
    (c : ℕ) (t : Tclpim) (s1 s5 : FuncState) (m : MemCopy) (u : MulVecByScalar) (next : DmaState)
    (d : List ℕ)
    → Installed t s1 s5
    → s1.fstate ≡ Fstate.running
    → s5.fstate ≡ Fstate.running
    → s1.exec ≡ some (mem_copy m)
    → s5.exec ≡ some (mul_vec u)
    → m.dma_state ≡ DmaState.waiting
    → (u.dma_state ≡ DmaState.waiting) ⊎ (u.dma_state ≡ DmaState.idle)
    → length d ≢ MemCopy.chunk_words u.word_counter * 8
    → (t' : Tclpim) × (clock c t ≡ ok (t', false))
      × (complete (copy_read next) d t' ≡ fault assertion)
unfolding clock clock_functions lookup
shared_buffer_fault c t s1 s5 m u next d i r1 r5 x1 x5 w1 w5 n =
    let n1 : ℕ = MemCopy.chunk_words m.word_counter * 8 in
    let n5 : ℕ = MemCopy.chunk_words u.word_counter * 8 in
    let t1 : Tclpim = record t {
      cycle = c;
      buffer = resize t.buffer n1 0;
      func_state = (func_num_f1, s1) ∷ (func_num_u5, s5) ∷ [];
    } in
    let t2 : Tclpim = record t1 { buffer = resize t1.buffer n5 0 } in
    (
      t2,
      ground (
        arith,
        is_running_of s1 r1,
        is_running_of s5 r5,
        step_wait_copy (record t { cycle = c }) s1 s5 m i x1 w1,
        step_wait_mul t1 s1 s5 u refl x5 w5,
      ),
      wrong_size next d t2 s1 s5 m refl x1 (ground (arith, length-resize t1.buffer n5 0)),
    )
