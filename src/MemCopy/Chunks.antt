-- ===== src/MemCopy/Chunks.antt =====
-- One read and one write of `MemCopy`, from and to the scratchpad or the memory.
use sst_pim.Prelude.{
  ℕ, ◌+◌, ◌-◌, ◌*◌, ◌%◌, ◌^◌, ◌≤◌, ◌<◌, ◌≡◌, ◌⊎◌, sym, ◌∙◌, ap, arith, Bool, true, false, eq→beq,
  List, [], ◌∷◌, ◌++◌, length, get_or, take, drop, resize, length-resize, overwrite_all,
  get_or-take, get_or-drop, length-take, length-drop, ok,
}
use sst_pim.Pimdef.{func_base, sram_base, sram_size, dram_base}
use sst_pim.Fsm.{DmaState, MemCopy}
use sst_pim.Tclpim.{Tclpim, DramRequest, copy_read, copy_write}
use sst_pim.Tclpim.Scratchpad.{Fits, read_sram_lem}
use sst_pim.MemCopy.{
  clock, clock_read, clock_state, chunk_words, complete_read, complete_write, issue,
}
use sst_pim.Memory.{Backing, fetch, fetch_ext}
use sst_pim.MemCopy.Machine.{Machine, complete, answer, answer_all, cycle, view}

-- Where a range of `n` bytes lies: in the first window of the scratchpad, or clear of the
-- function registers and the scratchpad, and below the end of the address space.
abbrev pub Placed : Bool → ℕ → ℕ → Type 0
Placed true a n = (sram_base ≤ a) × (a + n ≤ sram_base + sram_size)
Placed false a n = ((a + n ≤ func_base) ⊎ (dram_base ≤ a)) × (a + n < 2 ^ 64)

pub Placed-Fits :
    (t : Tclpim) (a n : ℕ) → Placed true a n → 0 < n → length t.sram ≡ sram_size → Fits t a n
Placed-Fits t a n p z w = omega arith

pub Placed-lt : (k : Bool) (a n : ℕ) → Placed k a n → a + n < 2 ^ 64
Placed-lt true a n p = omega arith
Placed-lt false a n p = omega arith

-- The case READ of the clock, from the scratchpad and from the memory.
pub clock_read_scratch :
    (t : Tclpim) (m : MemCopy) (n : ℕ)
    → m.src_is_sram ≡ true
    → Fits t m.src n
    → length t.buffer ≡ n
    → m.src + n < 2 ^ 64
    → clock_read t m n
      ≡ ok (
        record t { buffer = take n (drop (m.src % sram_size) t.sram) },
        record m { dma_state = DmaState.write; src = m.src + n },
        false,
      )
unfolding clock_read
clock_read_scratch t m n k f l z = ground (
  arith,
  read_sram_lem t m.src n t.buffer f (omega arith),
  overwrite_all (take n (drop (m.src % sram_size) t.sram)) t.buffer (
      length-take n (drop (m.src % sram_size) t.sram)
        (omega (arith, length-drop (m.src % sram_size) t.sram, f.room, f.whole))
      ∙ sym l),
)

pub clock_read_memory :
    (t : Tclpim) (m : MemCopy) (n : ℕ)
    → m.src_is_sram ≡ false
    → m.src + n < 2 ^ 64
    → clock_read t m n
      ≡ ok (
        issue t m.src false (copy_read DmaState.write),
        record m { dma_state = DmaState.waiting; src = m.src + n },
        false,
      )
unfolding clock_read
clock_read_memory t m n k z = ground arith

pub clock_of_read :
    (t : Tclpim) (m : MemCopy)
    → m.dma_state ≡ DmaState.read
    → clock t m
      ≡ clock_read
          (record t { buffer = resize t.buffer (chunk_words m.word_counter * 8) 0 })
          m
          (chunk_words m.word_counter * 8)
unfolding clock clock_state
clock_of_read t m st = ground arith

module _ (b : Backing) where
  open b use {Store, byte, set, get, length-get, get_or-get, byte-set}

  -- Between two cycles no request is open.
  pub record IsQuiet (mc : Machine b) : Type 0 where
    pub none_issued : mc.device.issued ≡ []
    pub whole : length mc.device.sram ≡ sram_size

  pub view_scratch :
      (mc : Machine b) (x : ℕ)
      → sram_base ≤ x
      → x < sram_base + sram_size
      → view b mc x ≡ get_or mc.device.sram (x - sram_base) 0
  unfolding view
  view_scratch mc x h k = ground arith

  pub view_memory :
      (mc : Machine b) (x : ℕ) → (x < func_base) ⊎ (dram_base ≤ x) → view b mc x ≡ byte mc.store x
  unfolding view
  view_memory mc x h = ground arith

  -- The bytes that the scratchpad's branch of a read delivers are those of the view.
  pub scratch-fetch :
      (mc : Machine b) (a n : ℕ)
      → Placed true a n
      → 0 < n
      → length mc.device.sram ≡ sram_size
      → take n (drop (a % sram_size) mc.device.sram) ≡ fetch (view b mc) a n
  scratch-fetch mc a n p z w =
      fetch_ext (view b mc) a n (take n (drop (a % sram_size) mc.device.sram)) long same
    where
      long : length (take n (drop (a % sram_size) mc.device.sram)) ≡ n
      long =
          length-take n (drop (a % sram_size) mc.device.sram)
            (omega (arith, length-drop (a % sram_size) mc.device.sram))

      same :
          (i : ℕ)
          → i < n
          → get_or (take n (drop (a % sram_size) mc.device.sram)) i 0 ≡ view b mc (a + i)
      same i h =
          get_or-take n (drop (a % sram_size) mc.device.sram) i 0 h
          ∙ get_or-drop (a % sram_size) mc.device.sram i 0
          ∙ ap (λ j. get_or mc.device.sram j 0) (omega arith)
          ∙ sym (view_scratch mc (a + i) (omega arith) (omega arith))

  -- The bytes that the memory delivers are those of the view.
  pub memory-fetch :
      (mc : Machine b) (a n : ℕ) → Placed false a n → get mc.store a n ≡ fetch (view b mc) a n
  memory-fetch mc a n p =
      fetch_ext (view b mc) a n (get mc.store a n) (length-get mc.store a n)
        λ i h. get_or-get mc.store a n i h ∙ sym (view_memory mc (a + i) (ground arith))

  -- What a read leaves: the bytes of the view in the buffer, and the source moved on.
  abbrev pub after_read : Machine b → Machine b
  after_read mc = record mc {
    device = record mc.device {
      buffer = fetch (view b mc) mc.copy.src (chunk_words mc.copy.word_counter * 8);
    };
    copy = record mc.copy {
      dma_state = DmaState.write;
      src = mc.copy.src + chunk_words mc.copy.word_counter * 8;
    };
  }

  -- A single read request, answered with as many bytes as the buffer has.
  answer_read :
      (old : List DramRequest) (a : ℕ) (next : DmaState) (t : Tclpim) (m : MemCopy) (s : Store)
      → old ≡ []
      → answer_all b
          (old
            ++ (record {
              address = a;
              payload = t.buffer;
              is_write = false;
              completion = copy_read next;
            }
                ∷ []))
          (record { device = t; copy = m; store = s })
        ≡ ok (record {
          device = record t { buffer = get s a (length t.buffer) };
          copy = record m { dma_state = next };
          store = s;
        })
  unfolding answer_all answer complete complete_read
  answer_read old a next t m s o = rw o (rw (eq→beq _ _ (sym (length-get s a (length t.buffer)))))

  -- A single write request, answered: the bytes of the request are stored.
  pub answer_write :
      (old : List DramRequest) (a : ℕ) (next : DmaState) (t : Tclpim) (m : MemCopy) (s : Store)
      → old ≡ []
      → answer_all b
          (old
            ++ (record {
              address = a;
              payload = t.buffer;
              is_write = true;
              completion = copy_write next;
            }
                ∷ []))
          (record { device = t; copy = m; store = s })
        ≡ ok (record { device = t; copy = record m { dma_state = next }; store = set s a t.buffer })
  unfolding answer_all answer complete complete_write
  answer_write old a next t m s o = rw o

  -- A read from the scratchpad.
  pub cycle_read_sram :
      (mc : Machine b)
      → IsQuiet mc
      → mc.copy.dma_state ≡ DmaState.read
      → 0 < mc.copy.word_counter
      → mc.copy.src_is_sram ≡ true
      → Placed true mc.copy.src (chunk_words mc.copy.word_counter * 8)
      → cycle b mc ≡ ok (after_read mc, false)
  unfolding cycle answer_all
  cycle_read_sram mc q st w k p =
      let n : ℕ = chunk_words mc.copy.word_counter * 8 in
      let t : Tclpim = record mc.device { buffer = resize mc.device.buffer n 0 } in
      let f : Fits t mc.copy.src n = Placed-Fits t mc.copy.src n p (ground arith) q.whole in
      let l : length t.buffer ≡ n = length-resize mc.device.buffer n 0 in
      rw (clock_of_read mc.device mc.copy st) (
        rw (clock_read_scratch t mc.copy n k f l (omega arith))
          (ground (arith, scratch-fetch mc mc.copy.src n p (ground arith) q.whole)))

  -- A read from the memory, answered.
  pub cycle_read_memory :
      (mc : Machine b)
      → IsQuiet mc
      → mc.copy.dma_state ≡ DmaState.read
      → 0 < mc.copy.word_counter
      → mc.copy.src_is_sram ≡ false
      → Placed false mc.copy.src (chunk_words mc.copy.word_counter * 8)
      → cycle b mc ≡ ok (after_read mc, false)
  unfolding cycle issue
  cycle_read_memory mc q st w k p =
      let n : ℕ = chunk_words mc.copy.word_counter * 8 in
      let t : Tclpim = record mc.device { buffer = resize mc.device.buffer n 0 } in
      let m : MemCopy = record mc.copy { dma_state = DmaState.waiting; src = mc.copy.src + n } in
      rw (clock_of_read mc.device mc.copy st) (
        rw (clock_read_memory t mc.copy n k (omega arith)) (
          rw
            (answer_read mc.device.issued mc.copy.src DmaState.write (record t { issued = [] }) m
              mc.store q.none_issued)
            (ground (arith, length-resize mc.device.buffer n 0, memory-fetch mc mc.copy.src n p))))
