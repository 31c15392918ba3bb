-- ===== src/MulVec/Rests.antt =====
-- `MulVecByScalar` (userpim_functions.cc) with a memory that answers any number of clocks later: its
-- states at rest and waiting, and what is still to be scaled in each.
use sst_pim.Prelude.{
  ℕ, suc, ◌+◌, ◌-◌, ◌*◌, ◌^◌, ◌≤◌, ◌<◌, ◌≡◌, ◌⊎◌, refl, sym, arith, ltb, Bool-cases, subst, List,
  [], length, inl, inr,
}
use sst_pim.Fsm.{DmaState, MulVecByScalar}
use sst_pim.MemCopy.{chunk_words}
use sst_pim.MemCopy.Transfer.{cycles}
use sst_pim.Memory.{Backing}
use sst_pim.MulVec.Machine.{Machine}
use sst_pim.MulVec.Chunks.{Scaled, Scaled-trans, chunk-Scaled}
use sst_pim.MulVec.Patient.{chunk, after_read, waiting_read, waiting_write, stored}

-- `Goal` is what the bytes of the memory are to fulfil at the end.
module _ (b : Backing) (Goal : (ℕ → ℕ) → Type 0) where
  open b use {byte}

  -- Before a read, with at most `k` chunks left: scaling the rest reaches the goal.
  pub record Reads (k : ℕ) (mc : Machine b) : Type 0 where
    pub quiet : mc.device.issued ≡ []
    pub reading : mc.mul.dma_state ≡ DmaState.read
    pub left : 0 < mc.mul.word_counter
    pub bound : mc.mul.word_counter ≤ 64 * k
    pub from : mc.mul.src + mc.mul.word_counter * 8 < 2 ^ 64
    pub to : mc.mul.dst + mc.mul.word_counter * 8 < 2 ^ 64
    pub order : (mc.mul.dst ≤ mc.mul.src) ⊎ (mc.mul.src + mc.mul.word_counter * 8 ≤ mc.mul.dst)
    pub goal :
        (v : ℕ → ℕ)
        → Scaled (byte mc.store) v mc.mul.scalar mc.mul.src mc.mul.dst (mc.mul.word_counter * 8)
        → Goal v

  -- All is scaled, and the function has not yet reported it.
  pub record Done (mc : Machine b) : Type 0 where
    pub quiet : mc.device.issued ≡ []
    pub done : mc.mul.dma_state ≡ DmaState.done
    pub goal : Goal (byte mc.store)

  pub record Finished (mc : Machine b) : Type 0 where
    pub quiet : mc.device.issued ≡ []
    pub idle : mc.mul.dma_state ≡ DmaState.idle
    pub goal : Goal (byte mc.store)

  -- At rest and waiting, by the clocks that are enough once each answer follows its request.
  pub data Rest : ℕ → Machine b → Type 0 where
    reads : (k : ℕ) {mc : Machine b} → Reads k mc → Rest (cycles k) mc
    writes : (k : ℕ) {mc : Machine b} → Reads (suc k) mc → Rest (suc (cycles k)) (after_read b mc)
    done : (k : ℕ) {mc : Machine b} → Done mc → Rest (cycles k) mc

  pub data Waits : ℕ → Machine b → Type 0 where
    read :
        (k : ℕ) {mc : Machine b} (sent buffer : List ℕ)
        → length sent ≡ chunk b mc
        → length buffer ≡ chunk b mc
        → Reads (suc k) mc
        → Waits (suc (cycles k)) (waiting_read b mc sent buffer)
    write :
        (k : ℕ) {mc : Machine b} (buffer : List ℕ)
        → Reads (suc k) mc
        → Waits (cycles k) (waiting_write b mc buffer)

  pub chunk_le : (mc : Machine b) → chunk b mc ≤ mc.mul.word_counter * 8
  chunk_le mc = ground arith

  -- After the write of a chunk the rest of the chunks is left, or all is scaled.
  pub stored-Rest :
      (k : ℕ) (mc : Machine b) (buffer : List ℕ)
      → Reads (suc k) mc
      → Rest (cycles k) (stored b mc buffer)
  stored-Rest k mc buffer r =
      let m : MulVecByScalar = mc.mul in
      let wc : ℕ = m.word_counter in
      let n : ℕ = chunk b mc in
      let left : ℕ = wc - chunk_words wc in
      let v0 : ℕ → ℕ = byte mc.store in
      let v1 : ℕ → ℕ = byte (stored b mc buffer).store in
      let c : Scaled v0 v1 m.scalar m.src m.dst n = chunk-Scaled b m mc.store in
      let w = r.left in
      let f = r.bound in
      let o = r.order in
      let p = r.from in
      let t = r.to in
      let rest : wc * 8 - n ≡ left * 8 = ground arith in
      elim (Bool-cases (ltb 0 left)) [
        | inl more ↦ reads k (record {
          quiet = refl;
          reading = ground arith;
          left = ground arith;
          bound = ground arith;
          from = ground arith;
          to = ground arith;
          order = ground arith;
          goal = λ v h. r.goal v (
              Scaled-trans v0 v1 v m.scalar m.src m.dst n (wc * 8) (chunk_le mc) (omega arith)
                (omega arith) o c
                (subst (λ j. Scaled v1 v m.scalar (m.src + n) (m.dst + n) j) (sym rest) h));
        })
        | inr last ↦
            let all : n ≡ wc * 8 = ground arith in
            done k (record {
              quiet = refl;
              done = ground arith;
              goal = r.goal v1 (subst (λ j. Scaled v0 v1 m.scalar m.src m.dst j) all c);
            })
      ]
