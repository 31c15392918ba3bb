-- ===== src/MemCopy.antt =====
-- sstcomp/PIMBackend/tclpim_functions.cc: `MemCopy::clock`, the requests that it sends and their
-- completions. A completion is run by `complete` when the backend calls it.
use sst_pim.Prelude.{
  ℕ, ◌+◌, ◌*◌, ◌-◌, ◌==◌, leb, ltb, Bool, true, false, List, [], ◌∷◌, ◌++◌, length, resize,
  if◌then◌else◌, Outcome, ok, check, assertion, ◌>>=◌, ◌>>◌,
}
use sst_pim.Pimdef.{u64}
use sst_pim.Fsm.{DmaState, MemCopy}
use sst_pim.Tclpim.{Tclpim, DramRequest, Completion, copy_read, copy_write, read, write}
pub mod Machine
pub mod Chunks
pub mod Writes
pub mod Transfer
pub mod Run
pub mod Zero
pub mod Patient
pub mod Rests
pub mod Settling

-- The words of one transfer: at most 64.
abbrev pub chunk_words : ℕ → ℕ
chunk_words word_counter = if leb 64 word_counter then 64 else word_counter

-- `m_issueDRAMRequest(address, &buffer, is_write, completion)`
unfoldable pub issue : Tclpim → ℕ → Bool → Completion → Tclpim
issue t a w c = record t {
  issued =
      t.issued ++ (record { address = a; payload = t.buffer; is_write = w; completion = c } ∷ []);
}

-- The case READ.
unfoldable pub clock_read : Tclpim → MemCopy → ℕ → Outcome (Tclpim × MemCopy × Bool)
unfolding issue
clock_read t m bytes =
    if m.src_is_sram
    then (read t m.src bytes t.buffer >>= λ payload. ok (
      record t { buffer = payload },
      record m { dma_state = DmaState.write; src = u64 (m.src + bytes) },
      false,
    ))
    else ok (
      issue t m.src false (copy_read DmaState.write),
      record m { dma_state = DmaState.waiting; src = u64 (m.src + bytes) },
      false,
    )

-- The state after a write: read on while words are left.
abbrev pub next_state : ℕ → DmaState
next_state word_counter = if ltb 0 word_counter then DmaState.read else DmaState.done

-- The case WRITE.
unfoldable pub clock_write : Tclpim → MemCopy → ℕ → ℕ → Outcome (Tclpim × MemCopy × Bool)
unfolding issue
clock_write t m words bytes = do
  check (leb words m.word_counter) assertion
  let left = m.word_counter - words
  let m' = record m { word_counter = left; dst = u64 (m.dst + bytes) }
  if m.dst_is_sram
      then (write t m.dst bytes t.buffer >>= λ t'.
          ok (t', record m' { dma_state = next_state left }, false))
      else ok (
        issue t m.dst true (copy_write (next_state left)),
        record m' { dma_state = DmaState.waiting },
        false,
      )

unfoldable pub clock_state : DmaState → Tclpim → MemCopy → ℕ → ℕ → Outcome (Tclpim × MemCopy × Bool)
unfolding clock_read clock_write
clock_state DmaState.read t m words bytes = clock_read t m bytes
clock_state DmaState.write t m words bytes = clock_write t m words bytes
clock_state DmaState.done t m words bytes = ok (t, record m { dma_state = DmaState.idle }, true)
clock_state _ t m words bytes = ok (t, m, false)

-- `MemCopy::clock`: the device and the function after it, and whether the function has finished.
unfoldable pub clock : Tclpim → MemCopy → Outcome (Tclpim × MemCopy × Bool)
unfolding clock_state
clock t m =
    let words = chunk_words m.word_counter in
    let bytes = words * 8 in
    clock_state m.dma_state (record t { buffer = resize t.buffer bytes 0 }) m words bytes

-- The completion of `sequence_dram_read`: the data replaces the buffer, which must have its size.
unfoldable pub complete_read : DmaState → List ℕ → Tclpim → MemCopy → Outcome (Tclpim × MemCopy)
complete_read next d t m = do
  check (length t.buffer == length d) assertion
  ok (record t { buffer = d }, record m { dma_state = next })

-- The completion of `sequence_dram_write`.
unfoldable pub complete_write : DmaState → Tclpim → MemCopy → Outcome (Tclpim × MemCopy)
complete_write next t m = ok (t, record m { dma_state = next })
