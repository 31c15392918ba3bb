-- ===== src/MulVec.antt =====
-- sstcomp/PIMBackend/userpim_functions.cc: `MulVecByScalar::clock` and the completions of the
-- requests that it sends.
use sst_pim.Prelude.{
  ℕ, zero, suc, ◌+◌, ◌*◌, ◌/◌, ◌%◌, ◌-◌, ◌==◌, leb, Bool, true, false, List, [], ◌∷◌, ◌++◌, length,
  take, drop, resize, to_bytes, of_bytes, Outcome, ok, check, assertion, out_of_range, ◌>>=◌, ◌>>◌,
}
use sst_pim.Pimdef.{u64}
use sst_pim.Fsm.{DmaState, MulVecByScalar}
use sst_pim.Tclpim.{Tclpim, mul_read, mul_write}
use sst_pim.MemCopy.{issue, chunk_words, next_state}
pub mod Scale
pub mod Machine
pub mod Chunks
pub mod Run
pub mod Patient
pub mod Rests
pub mod Settling

-- The cases of the clock; `t` has its buffer resized.
unfoldable pub clock_state :
    DmaState → Tclpim → MulVecByScalar → ℕ → ℕ → Outcome (Tclpim × MulVecByScalar × Bool)
unfolding issue
clock_state DmaState.read t m words bytes = ok (
  issue t m.src false mul_read,
  record m { dma_state = DmaState.waiting; src = u64 (m.src + bytes) },
  false,
)
clock_state DmaState.write t m words bytes = do
  check (leb words m.word_counter) assertion
  let left = m.word_counter - words
  ok (
    issue t m.dst true (mul_write (next_state left)),
    record m { word_counter = left; dst = u64 (m.dst + bytes); dma_state = DmaState.waiting },
    false,
  )
clock_state DmaState.done t m words bytes = ok (t, record m { dma_state = DmaState.idle }, true)
clock_state _ t m words bytes = ok (t, m, false)

-- `MulVecByScalar::clock`
unfoldable pub clock : Tclpim → MulVecByScalar → Outcome (Tclpim × MulVecByScalar × Bool)
unfolding clock_state
clock t m =
    let words = chunk_words m.word_counter in
    let bytes = words * 8 in
    clock_state m.dma_state (record t { buffer = resize t.buffer bytes 0 }) m words bytes

-- One round of the loop in the read's completion: the word of eight bytes, times the scalar.
unfoldable pub scaled_word : ℕ → List ℕ → List ℕ
scaled_word scalar d = to_bytes 8 (u64 (scalar * of_bytes (take 8 d)))

-- The loop over `n` words of the data.
unfoldable pub scale_words : ℕ → ℕ → List ℕ → List ℕ
scale_words scalar zero d = []
scale_words scalar (suc n) d = scaled_word scalar d ++ scale_words scalar n (drop 8 d)

-- The completion of a read. A last word that is cut short is read past the end of the data.
unfoldable pub complete_read : List ℕ → Tclpim → MulVecByScalar → Outcome (Tclpim × MulVecByScalar)
unfolding scale_words
complete_read d t m = do
  check (length t.buffer == length d) assertion
  check (length d % 8 == 0) out_of_range
  ok (
    record t { buffer = scale_words m.scalar (length d / 8) d },
    record m { dma_state = DmaState.write },
  )

-- The completion of a write.
unfoldable pub complete_write :
    DmaState → Tclpim → MulVecByScalar → Outcome (Tclpim × MulVecByScalar)
complete_write next t m = ok (t, record m { dma_state = next })
