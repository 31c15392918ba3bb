-- ===== src/MulVec/Patient.antt =====
-- `MulVecByScalar` (userpim_functions.cc) with a memory that answers each request any number of
-- clocks later: the states between two moves, and what is still to be scaled in each.
use sst_pim.Prelude.{
  ℕ, ◌+◌, ◌*◌, ◌^◌, ◌<◌, ◌≡◌, refl, arith, true, false, List, [], ◌∷◌, length, resize, ok,
}
use sst_pim.Fsm.{DmaState}
use sst_pim.Tclpim.{mul_read, mul_write}
use sst_pim.MemCopy.{chunk_words, issue}
use sst_pim.Memory.{Backing}
use sst_pim.MulVec.{clock, clock_state, complete_read, complete_write, scale_words}
use sst_pim.MulVec.Scale.{length-scale_words}
use sst_pim.MulVec.Machine.{Machine, complete, answer, answer_all, tick, reply}
use sst_pim.MulVec.Chunks.{next_chunk, clock_of_read, clock_of_write}

module _ (b : Backing) where
  open b use {Store, byte, set, get, length-get}

  abbrev pub words : Machine b → ℕ
  words mc = chunk_words mc.mul.word_counter

  abbrev pub chunk : Machine b → ℕ
  chunk mc = words mc * 8

  -- The words that a read of the chunk leaves in the buffer.
  abbrev pub products : Machine b → List ℕ
  products mc = scale_words mc.mul.scalar (words mc) (get mc.store mc.mul.src (chunk mc))

  abbrev pub after_read : Machine b → Machine b
  after_read mc = record mc {
    device = record mc.device { buffer = products mc };
    mul = record mc.mul { dma_state = DmaState.write; src = mc.mul.src + chunk mc };
  }

  -- The request of a read, sent with whatever the buffer held, and the buffer since then.
  abbrev pub waiting_read : Machine b → List ℕ → List ℕ → Machine b
  waiting_read mc sent buffer = record mc {
    device = record mc.device {
      buffer = buffer;
      issued =
          record { address = mc.mul.src; payload = sent; is_write = false; completion = mul_read }
          ∷ [];
    };
    mul = record mc.mul { dma_state = DmaState.waiting; src = mc.mul.src + chunk mc };
  }

  -- The request of a write after a read, and the buffer since then.
  abbrev pub waiting_write : Machine b → List ℕ → Machine b
  waiting_write mc buffer = record mc {
    device = record mc.device {
      buffer = buffer;
      issued =
          record {
            address = mc.mul.dst;
            payload = products mc;
            is_write = true;
            completion = mul_write (next_chunk mc.mul).dma_state;
          }
          ∷ [];
    };
    mul = record (next_chunk mc.mul) { dma_state = DmaState.waiting };
  }

  -- The machine after the answer to a write.
  abbrev pub stored : Machine b → List ℕ → Machine b
  stored mc buffer = record {
    device = record mc.device { buffer = buffer; issued = [] };
    mul = next_chunk mc.mul;
    store = set mc.store mc.mul.dst (products mc);
  }

  pub tick_waiting :
      (mc : Machine b)
      → mc.mul.dma_state ≡ DmaState.waiting
      → tick b mc
        ≡ ok (
          record mc { device = record mc.device { buffer = resize mc.device.buffer (chunk mc) 0 } },
          false,
        )
  unfolding tick clock clock_state
  tick_waiting mc w = ground arith

  pub tick-read :
      (mc : Machine b)
      → mc.device.issued ≡ []
      → mc.mul.dma_state ≡ DmaState.read
      → mc.mul.src + chunk mc < 2 ^ 64
      → let buffer = resize mc.device.buffer (chunk mc) 0 in
        tick b mc ≡ ok (waiting_read mc buffer buffer, false)
  unfolding tick issue
  tick-read mc i st z = rw (clock_of_read mc.device mc.mul st z) (ground (arith, i))

  pub reply_read :
      (mc : Machine b) (sent buffer : List ℕ)
      → mc.device.issued ≡ []
      → length sent ≡ chunk mc
      → length buffer ≡ chunk mc
      → reply b (waiting_read mc sent buffer) ≡ ok (after_read mc)
  unfolding reply answer_all answer complete complete_read
  reply_read mc sent buffer i l m =
      rw (l, m) (rw (length-get mc.store mc.mul.src (chunk mc)) (ground (arith, i)))

  pub tick_write :
      (mc : Machine b)
      → mc.device.issued ≡ []
      → mc.mul.dst + chunk mc < 2 ^ 64
      → tick b (after_read mc) ≡ ok (waiting_write mc (products mc), false)
  unfolding tick issue
  tick_write mc i z =
      let mid : Machine b = after_read mc in
      let l : length (products mc) ≡ chunk mc =
        length-scale_words mc.mul.scalar (words mc) (get mc.store mc.mul.src (chunk mc)) in
      rw (clock_of_write mid.device mid.mul refl l z) (rw i refl)

  pub reply_write :
      (mc : Machine b) (buffer : List ℕ) → reply b (waiting_write mc buffer) ≡ ok (stored mc buffer)
  unfolding reply answer_all answer complete complete_write
  reply_write mc buffer = refl
