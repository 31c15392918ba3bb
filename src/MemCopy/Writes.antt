-- ===== src/MemCopy/Writes.antt =====
-- One write of `MemCopy` (tclpim_functions.cc), to the scratchpad or the memory.
use sst_pim.Prelude.{
  ℕ, ◌+◌, ◌-◌, ◌*◌, ◌%◌, ◌^◌, ◌≤◌, ◌<◌, ◌≡◌, refl, ◌∙◌, ap, arith, leb, ltb, ◌&&◌, true, false,
  List, [], length, get_or, overwrite_at, resize_same, get_or-overwrite_at, if◌then◌else◌, ok,
}
use sst_pim.Pimdef.{sram_base, sram_size}
use sst_pim.Fsm.{DmaState, MemCopy}
use sst_pim.Tclpim.{Tclpim, copy_write}
use sst_pim.Tclpim.Scratchpad.{Fits, write_sram_lem}
use sst_pim.MemCopy.{clock, clock_write, clock_state, chunk_words, next_state, issue}
use sst_pim.Memory.{Backing}
use sst_pim.MemCopy.Machine.{Machine, answer_all, cycle, view}
use sst_pim.MemCopy.Chunks.{Placed, Placed-Fits, IsQuiet, answer_write}

-- What `MemCopy` keeps after a write of `n` bytes.
abbrev pub wrote : MemCopy → ℕ → MemCopy
wrote m n =
    let left = m.word_counter - chunk_words m.word_counter in
    record m { dma_state = next_state left; word_counter = left; dst = m.dst + n }

-- The case WRITE of the clock, to the scratchpad and to the memory.
pub clock_write_scratch :
    (t : Tclpim) (m : MemCopy) (n : ℕ)
    → m.dst_is_sram ≡ true
    → Fits t m.dst n
    → n ≡ length t.buffer
    → m.dst + n < 2 ^ 64
    → clock_write t m (chunk_words m.word_counter) n
      ≡ ok (record t { sram = overwrite_at (m.dst % sram_size) t.buffer t.sram }, wrote m n, false)
unfolding clock_write
clock_write_scratch t m n k f l z = ground (arith, write_sram_lem t m.dst n t.buffer f l)

pub clock_write_memory :
    (t : Tclpim) (m : MemCopy) (n : ℕ)
    → m.dst_is_sram ≡ false
    → m.dst + n < 2 ^ 64
    → clock_write t m (chunk_words m.word_counter) n
      ≡ ok (
        issue t m.dst true (copy_write (next_state (m.word_counter - chunk_words m.word_counter))),
        record (wrote m n) { dma_state = DmaState.waiting },
        false,
      )
unfolding clock_write
clock_write_memory t m n k z = ground arith

pub clock_of_write :
    (t : Tclpim) (m : MemCopy)
    → m.dma_state ≡ DmaState.write
    → length t.buffer ≡ chunk_words m.word_counter * 8
    → clock t m ≡ clock_write t m (chunk_words m.word_counter) (chunk_words m.word_counter * 8)
unfolding clock clock_state
clock_of_write t m st l = ground (arith, resize_same t.buffer (chunk_words m.word_counter * 8) 0 l)

shift : (x a : ℕ) → sram_base ≤ a → (x - sram_base) - (a - sram_base) ≡ x - a
shift x a h = omega arith

module _ (b : Backing) where
  open b use {Store, byte, set, byte-set}

  -- What a write does to the bytes.
  abbrev pub Written : Machine b → Machine b → Type 0
  Written mc mc' =
      (x : ℕ)
      → view b mc' x ≡ (
          if leb mc.copy.dst x && ltb x (mc.copy.dst + length mc.device.buffer)
          then get_or mc.device.buffer (x - mc.copy.dst) 0
          else view b mc x)

  pub scratch-Written :
      (mc mc' : Machine b)
      → Placed true mc.copy.dst (length mc.device.buffer)
      → 0 < length mc.device.buffer
      → length mc.device.sram ≡ sram_size
      → mc'.device.sram ≡ overwrite_at (mc.copy.dst % sram_size) mc.device.buffer mc.device.sram
      → mc'.store ≡ mc.store
      → Written mc mc'
  unfolding view
  scratch-Written mc mc' p z w e f x =
      let bs : List ℕ = mc.device.buffer in
      let k : ℕ = mc.copy.dst - sram_base in
      let o : mc.copy.dst % sram_size ≡ k = omega arith in
      let e' : mc'.device.sram ≡ overwrite_at k bs mc.device.sram =
        e ∙ ap (λ i. overwrite_at i bs mc.device.sram) o in
      let sh : get_or bs ((x - sram_base) - k) 0 ≡ get_or bs (x - mc.copy.dst) 0 =
        ap (λ i. get_or bs i 0) (shift x mc.copy.dst p.0) in
      ground (
        arith,
        ap (λ xs. get_or xs (x - sram_base) 0) e',
        get_or-overwrite_at k bs mc.device.sram (x - sram_base) 0 (omega arith),
        sh,
        ap (λ s. byte s x) f,
      )

  pub memory-Written :
      (mc mc' : Machine b)
      → Placed false mc.copy.dst (length mc.device.buffer)
      → mc'.device.sram ≡ mc.device.sram
      → mc'.store ≡ set mc.store mc.copy.dst mc.device.buffer
      → Written mc mc'
  unfolding view
  memory-Written mc mc' p e f x = ground (arith, byte-set mc.store mc.copy.dst mc.device.buffer x)

  -- A write to the scratchpad.
  pub cycle_write_sram :
      (mc : Machine b)
      → IsQuiet b mc
      → mc.copy.dma_state ≡ DmaState.write
      → length mc.device.buffer ≡ chunk_words mc.copy.word_counter * 8
      → 0 < mc.copy.word_counter
      → mc.copy.dst_is_sram ≡ true
      → Placed true mc.copy.dst (length mc.device.buffer)
      → cycle b mc
        ≡ ok (
          record mc {
            device = record mc.device {
              sram = overwrite_at (mc.copy.dst % sram_size) mc.device.buffer mc.device.sram;
            };
            copy = wrote mc.copy (length mc.device.buffer);
          },
          false,
        )
  unfolding cycle answer_all
  cycle_write_sram mc q st l w k p =
      let t : Tclpim = mc.device in
      rw (clock_of_write t mc.copy st l, ← l)
        (rw
          (clock_write_scratch t mc.copy (length t.buffer) k
            (Placed-Fits t mc.copy.dst (length t.buffer) p (ground arith) q.whole) refl
            (omega arith))
          (ground arith))

  -- A write to the memory, answered.
  pub cycle_write_memory :
      (mc : Machine b)
      → IsQuiet b mc
      → mc.copy.dma_state ≡ DmaState.write
      → length mc.device.buffer ≡ chunk_words mc.copy.word_counter * 8
      → mc.copy.dst_is_sram ≡ false
      → Placed false mc.copy.dst (length mc.device.buffer)
      → cycle b mc
        ≡ ok (
          record mc {
            store = set mc.store mc.copy.dst mc.device.buffer;
            copy = wrote mc.copy (length mc.device.buffer);
          },
          false,
        )
  unfolding cycle issue
  cycle_write_memory mc q st l k p =
      let t : Tclpim = mc.device in
      let n : ℕ = length t.buffer in
      let next : DmaState = next_state (mc.copy.word_counter - chunk_words mc.copy.word_counter) in
      rw (clock_of_write t mc.copy st l, ← l)
        (rw (clock_write_memory t mc.copy n k (omega arith)) (
          rw
            (answer_write b t.issued mc.copy.dst next (record t { issued = [] })
              (record (wrote mc.copy n) { dma_state = DmaState.waiting }) mc.store q.none_issued)
            (ground arith)))
