-- ===== src/MemCopy/Patient.antt =====
-- `MemCopy` (tclpim_functions.cc) with a memory that answers each request any number of clocks
-- later: the states between two moves, at rest and waiting.
use sst_pim.Prelude.{
  ℕ, ◌+◌, ◌*◌, ◌%◌, ◌<◌, ◌≡◌, refl, sym, ◌∙◌, arith, true, false, List, [], ◌∷◌, length, resize,
  length-resize, overwrite_at, ok, eq→beq,
}
use sst_pim.Pimdef.{sram_size}
use sst_pim.Fsm.{DmaState, MemCopy}
use sst_pim.Tclpim.{Tclpim, copy_read, copy_write}
use sst_pim.Tclpim.Scratchpad.{Fits}
use sst_pim.MemCopy.{clock, clock_state, chunk_words, complete_read, complete_write, issue}
use sst_pim.Memory.{Backing, length-fetch}
use sst_pim.MemCopy.Machine.{Machine, answer, answer_all, complete, view, tick, reply}
use sst_pim.MemCopy.Chunks.{
  Placed, Placed-Fits, IsQuiet, after_read, clock_of_read, clock_read_scratch, clock_read_memory,
  scratch-fetch, memory-fetch,
}
use sst_pim.MemCopy.Writes.{wrote, clock_of_write, clock_write_scratch, clock_write_memory}

module _ (b : Backing) where
  open b use {length-get}

  -- The bytes of the chunk that the function is at.
  abbrev pub chunk : Machine b → ℕ
  chunk mc = chunk_words mc.copy.word_counter * 8

  -- The request of a read, sent with whatever the buffer held, and the buffer since then.
  abbrev pub waiting_read : Machine b → List ℕ → List ℕ → Machine b
  waiting_read mc sent buffer = record mc {
    device = record mc.device {
      buffer = buffer;
      issued =
          record {
            address = mc.copy.src;
            payload = sent;
            is_write = false;
            completion = copy_read DmaState.write;
          }
          ∷ [];
    };
    copy = record mc.copy { dma_state = DmaState.waiting; src = mc.copy.src + chunk mc };
  }

  -- The function after a write of the bytes that were read.
  abbrev pub after_write : Machine b → MemCopy
  after_write mc = wrote (after_read b mc).copy (chunk mc)

  -- The request of a write after a read, and the buffer since then.
  abbrev pub waiting_write : Machine b → List ℕ → Machine b
  waiting_write mc buffer = record mc {
    device = record mc.device {
      buffer = buffer;
      issued =
          record {
            address = mc.copy.dst;
            payload = (after_read b mc).device.buffer;
            is_write = true;
            completion = copy_write (after_write mc).dma_state;
          }
          ∷ [];
    };
    copy = record (after_write mc) { dma_state = DmaState.waiting };
  }

  -- A clock while the function waits: only the buffer is resized.
  pub tick_waiting :
      (mc : Machine b)
      → mc.copy.dma_state ≡ DmaState.waiting
      → tick b mc
        ≡ ok (
          record mc { device = record mc.device { buffer = resize mc.device.buffer (chunk mc) 0 } },
          false,
        )
  unfolding tick clock clock_state
  tick_waiting mc w = ground arith

  pub tick-read_sram :
      (mc : Machine b)
      → IsQuiet b mc
      → mc.copy.dma_state ≡ DmaState.read
      → 0 < mc.copy.word_counter
      → mc.copy.src_is_sram ≡ true
      → Placed true mc.copy.src (chunk mc)
      → tick b mc ≡ ok (after_read b mc, false)
  unfolding tick
  tick-read_sram mc q st w k p =
      let n : ℕ = chunk mc in
      let t : Tclpim = record mc.device { buffer = resize mc.device.buffer n 0 } in
      let f : Fits t mc.copy.src n = Placed-Fits t mc.copy.src n p (ground arith) q.whole in
      let l : length t.buffer ≡ n = length-resize mc.device.buffer n 0 in
      rw (clock_of_read mc.device mc.copy st) (
        rw (clock_read_scratch t mc.copy n k f l (omega arith))
          (ground (arith, scratch-fetch b mc mc.copy.src n p (ground arith) q.whole)))

  pub tick-read_memory :
      (mc : Machine b)
      → IsQuiet b mc
      → mc.copy.dma_state ≡ DmaState.read
      → mc.copy.src_is_sram ≡ false
      → Placed false mc.copy.src (chunk mc)
      → let buffer = resize mc.device.buffer (chunk mc) 0 in
        tick b mc ≡ ok (waiting_read mc buffer buffer, false)
  unfolding tick issue
  tick-read_memory mc q st k p =
      let n : ℕ = chunk mc in
      let t : Tclpim = record mc.device { buffer = resize mc.device.buffer n 0 } in
      rw (clock_of_read mc.device mc.copy st)
        (rw (clock_read_memory t mc.copy n k (omega arith)) (ground (arith, q.none_issued)))

  pub reply_read :
      (mc : Machine b) (sent buffer : List ℕ)
      → IsQuiet b mc
      → length sent ≡ chunk mc
      → length buffer ≡ chunk mc
      → Placed false mc.copy.src (chunk mc)
      → reply b (waiting_read mc sent buffer) ≡ ok (after_read b mc)
  unfolding reply answer_all answer complete complete_read
  reply_read mc sent buffer q l m p =
      rw
        (
          l,
          eq→beq _ _ (m ∙ sym (length-get mc.store mc.copy.src (chunk mc))),
          memory-fetch b mc mc.copy.src (chunk mc) p,
        )
        (ground (arith, q.none_issued))

  pub tick_write_sram :
      (mc : Machine b)
      → IsQuiet b mc
      → 0 < mc.copy.word_counter
      → mc.copy.dst_is_sram ≡ true
      → Placed true mc.copy.dst (chunk mc)
      → let bytes = (after_read b mc).device.buffer in
        tick b (after_read b mc)
        ≡ ok (
          record (after_read b mc) {
            device = record (after_read b mc).device {
              sram = overwrite_at (mc.copy.dst % sram_size) bytes mc.device.sram;
            };
            copy = after_write mc;
          },
          false,
        )
  unfolding tick
  tick_write_sram mc q w k p =
      let mid : Machine b = after_read b mc in
      let t : Tclpim = mid.device in
      let l : length t.buffer ≡ chunk mc = length-fetch (view b mc) mc.copy.src (chunk mc) in
      rw (clock_of_write t mid.copy refl l) (
        rw
          (clock_write_scratch t mid.copy (chunk mc) k
            (Placed-Fits t mc.copy.dst (chunk mc) p (ground arith) q.whole) (sym l) (omega arith))
          refl)

  pub tick_write_memory :
      (mc : Machine b)
      → IsQuiet b mc
      → mc.copy.dst_is_sram ≡ false
      → Placed false mc.copy.dst (chunk mc)
      → tick b (after_read b mc) ≡ ok (waiting_write mc (after_read b mc).device.buffer, false)
  unfolding tick issue
  tick_write_memory mc q k p =
      let mid : Machine b = after_read b mc in
      let t : Tclpim = mid.device in
      let l : length t.buffer ≡ chunk mc = length-fetch (view b mc) mc.copy.src (chunk mc) in
      rw (clock_of_write t mid.copy refl l)
        (rw (clock_write_memory t mid.copy (chunk mc) k (omega arith)) (rw q.none_issued refl))

  -- The machine after the answer to a write.
  abbrev pub stored : Machine b → List ℕ → Machine b
  stored mc buffer = record {
    device = record mc.device { buffer = buffer; issued = [] };
    copy = after_write mc;
    store = b.set mc.store mc.copy.dst (after_read b mc).device.buffer;
  }

  pub reply_write :
      (mc : Machine b) (buffer : List ℕ) → reply b (waiting_write mc buffer) ≡ ok (stored mc buffer)
  unfolding reply answer_all answer complete complete_write
  reply_write mc buffer = refl
