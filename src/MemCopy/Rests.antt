-- ===== src/MemCopy/Rests.antt =====
-- `MemCopy` (tclpim_functions.cc) with a memory that answers any number of clocks later: its states
-- at rest and waiting, and what is still to be copied in each.
use sst_pim.Prelude.{
  ℕ, suc, ◌+◌, ◌-◌, ◌*◌, ◌≤◌, ◌<◌, ◌≡◌, ◌⊎◌, sym, arith, ltb, false, Bool-cases, subst, List,
  length, inl, inr,
}
use sst_pim.Fsm.{DmaState}
use sst_pim.Tclpim.{Tclpim}
use sst_pim.MemCopy.{chunk_words}
use sst_pim.Memory.{Backing, length-fetch, get_or-fetch}
use sst_pim.MemCopy.Machine.{Machine, view}
use sst_pim.MemCopy.Chunks.{Placed, IsQuiet, after_read}
use sst_pim.MemCopy.Writes.{Written}
use sst_pim.MemCopy.Transfer.{Copied, Copied-trans, cycles, Placed-part, Placed-rest}
use sst_pim.MemCopy.Patient.{chunk, waiting_read, waiting_write, after_write}

-- `Goal` is what the bytes are to fulfil at the end.
module _ (b : Backing) (Goal : (ℕ → ℕ) → Type 0) where
  -- Before a read, with at most `k` chunks left: copying the rest reaches the goal.
  pub record Reads (k : ℕ) (mc : Machine b) : Type 0 where
    pub quiet : IsQuiet b mc
    pub reading : mc.copy.dma_state ≡ DmaState.read
    pub left : 0 < mc.copy.word_counter
    pub bound : mc.copy.word_counter ≤ 64 * k
    pub from : Placed mc.copy.src_is_sram mc.copy.src (mc.copy.word_counter * 8)
    pub to : Placed mc.copy.dst_is_sram mc.copy.dst (mc.copy.word_counter * 8)
    pub order : (mc.copy.dst ≤ mc.copy.src) ⊎ (mc.copy.src + mc.copy.word_counter * 8 ≤ mc.copy.dst)
    pub goal :
        (v : ℕ → ℕ)
        → Copied (view b mc) v mc.copy.src mc.copy.dst (mc.copy.word_counter * 8)
        → Goal v

  -- All is copied, and the function has not yet reported it.
  pub record Done (mc : Machine b) : Type 0 where
    pub quiet : IsQuiet b mc
    pub done : mc.copy.dma_state ≡ DmaState.done
    pub goal : Goal (view b mc)

  pub record Finished (mc : Machine b) : Type 0 where
    pub quiet : IsQuiet b mc
    pub idle : mc.copy.dma_state ≡ DmaState.idle
    pub goal : Goal (view b mc)

  -- At rest and waiting, by the clocks that are enough once each answer follows its request.
  pub data Rest : ℕ → Machine b → Type 0 where
    reads : (k : ℕ) {mc : Machine b} → Reads k mc → Rest (cycles k) mc
    writes : (k : ℕ) {mc : Machine b} → Reads (suc k) mc → Rest (suc (cycles k)) (after_read b mc)
    done : (k : ℕ) {mc : Machine b} → Done mc → Rest (cycles k) mc

  pub data Waits : ℕ → Machine b → Type 0 where
    read :
        (k : ℕ) {mc : Machine b} (sent buffer : List ℕ)
        → length sent ≡ chunk b mc
        → length buffer ≡ chunk b mc
        → mc.copy.src_is_sram ≡ false
        → Reads (suc k) mc
        → Waits (suc (cycles k)) (waiting_read b mc sent buffer)
    write :
        (k : ℕ) {mc : Machine b} (buffer : List ℕ)
        → mc.copy.dst_is_sram ≡ false
        → Reads (suc k) mc
        → Waits (cycles k) (waiting_write b mc buffer)

  chunk_le : (mc : Machine b) → chunk b mc ≤ mc.copy.word_counter * 8
  chunk_le mc = ground arith

  pub from_chunk :
      {k : ℕ} {mc : Machine b} → Reads k mc → Placed mc.copy.src_is_sram mc.copy.src (chunk b mc)
  from_chunk {k} {mc} r =
      Placed-part mc.copy.src_is_sram mc.copy.src (mc.copy.word_counter * 8) (chunk b mc) r.from
        (chunk_le mc)

  pub to_chunk :
      {k : ℕ} {mc : Machine b} → Reads k mc → Placed mc.copy.dst_is_sram mc.copy.dst (chunk b mc)
  to_chunk {k} {mc} r =
      Placed-part mc.copy.dst_is_sram mc.copy.dst (mc.copy.word_counter * 8) (chunk b mc) r.to
        (chunk_le mc)

  -- The function after a write, with the device and the store as they are then.
  abbrev pub written : Machine b → Tclpim → b.Store → Machine b
  written mc d s = record { device = d; copy = after_write b mc; store = s }

  -- After the write of a chunk the rest of the chunks is left, or all is copied.
  pub chunk-Rest :
      (k : ℕ) (mc : Machine b) (d : Tclpim) (s : b.Store)
      → Reads (suc k) mc
      → IsQuiet b (written mc d s)
      → Copied (view b mc) (view b (written mc d s)) mc.copy.src mc.copy.dst (chunk b mc)
      → Rest (cycles k) (written mc d s)
  chunk-Rest k mc d s r q c =
      let wc : ℕ = mc.copy.word_counter in
      let n : ℕ = chunk b mc in
      let left : ℕ = wc - chunk_words wc in
      let mc1 : Machine b = written mc d s in
      let w = r.left in
      let f = r.bound in
      let o = r.order in
      let rest : wc * 8 - n ≡ left * 8 = ground arith in
      elim (Bool-cases (ltb 0 left)) [
        | inl more ↦ reads k (record {
          quiet = q;
          reading = ground arith;
          left = ground arith;
          bound = ground arith;
          from =
              subst (λ j. Placed mc.copy.src_is_sram (mc.copy.src + n) j) rest
                (Placed-rest mc.copy.src_is_sram mc.copy.src (wc * 8) n r.from (chunk_le mc));
          to =
              subst (λ j. Placed mc.copy.dst_is_sram (mc.copy.dst + n) j) rest
                (Placed-rest mc.copy.dst_is_sram mc.copy.dst (wc * 8) n r.to (chunk_le mc));
          order = ground arith;
          goal = λ v h. r.goal v (
              Copied-trans (view b mc) (view b mc1) v mc.copy.src mc.copy.dst n (wc * 8)
                (chunk_le mc) o c
                (subst (λ j. Copied (view b mc1) v (mc.copy.src + n) (mc.copy.dst + n) j) (sym rest)
                  h));
        })
        | inr last ↦
            let all : n ≡ wc * 8 = ground arith in
            done k (record {
              quiet = q;
              done = ground arith;
              goal =
                  r.goal (view b mc1)
                    (subst (λ j. Copied (view b mc) (view b mc1) mc.copy.src mc.copy.dst j) all c);
            })
      ]

  -- The bytes after the write of a chunk that was read.
  pub Written-Copied :
      (mc mc1 : Machine b)
      → Written b (after_read b mc) mc1
      → Copied (view b mc) (view b mc1) mc.copy.src mc.copy.dst (chunk b mc)
  unfolding view
  Written-Copied mc mc1 v x = ground (
    arith,
    v x,
    length-fetch (view b mc) mc.copy.src (chunk b mc),
    get_or-fetch (view b mc) mc.copy.src (chunk b mc) (x - mc.copy.dst),
  )
