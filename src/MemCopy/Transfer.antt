-- ===== src/MemCopy/Transfer.antt =====
-- A whole run of `MemCopy` (tclpim_functions.cc): chunk after chunk, to the end.
use sst_pim.Prelude.{
  ℕ, zero, suc, ◌+◌, ◌-◌, ◌*◌, ◌≤◌, ◌<◌, ◌≡◌, ◌⊎◌, refl, sym, ◌∙◌, ap, arith, leb, ltb, ◌&&◌, Bool,
  true, false, Bool-cases, subst, length, if◌then◌else◌, ok, inl, inr, length-overwrite_at,
  overwrite_at, resize, ◌%◌,
}
use sst_pim.Pimdef.{sram_size}
use sst_pim.Fsm.{DmaState, MemCopy}
use sst_pim.Tclpim.{Tclpim}
use sst_pim.MemCopy.{clock, clock_state, chunk_words}
use sst_pim.Memory.{Backing, length-fetch, get_or-fetch}
use sst_pim.MemCopy.Machine.{Machine, answer_all, cycle, drive, view}
use sst_pim.MemCopy.Chunks.{Placed, IsQuiet, after_read, cycle_read_sram, cycle_read_memory}
use sst_pim.MemCopy.Writes.{
  wrote, Written, scratch-Written, memory-Written, cycle_write_sram, cycle_write_memory,
}

pub Placed-part : (k : Bool) (a n m : ℕ) → Placed k a n → m ≤ n → Placed k a m
Placed-part true a n m p h = omega arith
Placed-part false a n m p h = (ground arith, omega arith)

pub Placed-rest : (k : Bool) (a n m : ℕ) → Placed k a n → m ≤ n → Placed k (a + m) (n - m)
Placed-rest true a n m p h = omega arith
Placed-rest false a n m p h = (ground arith, omega arith)

-- The bytes of one view after a range was copied, in the view before.
abbrev pub Copied : (ℕ → ℕ) → (ℕ → ℕ) → ℕ → ℕ → ℕ → Type 0
Copied v v' src dst n =
    (x : ℕ) → v' x ≡ (if leb dst x && ltb x (dst + n) then v (src + (x - dst)) else v x)

reindex :
    (v : ℕ → ℕ) (src dst m x : ℕ)
    → dst + m ≤ x
    → v (src + m + (x - (dst + m))) ≡ v (src + (x - dst))
reindex v src dst m x h = ap v (omega arith)

-- Copying the rest after a part is copying all, if no byte is overwritten before it is read.
pub Copied-trans :
    (v v1 v2 : ℕ → ℕ) (src dst m n : ℕ)
    → m ≤ n
    → (dst ≤ src) ⊎ (src + n ≤ dst)
    → Copied v v1 src dst m
    → Copied v1 v2 (src + m) (dst + m) (n - m)
    → Copied v v2 src dst n
Copied-trans v v1 v2 src dst m n h o c d x =
    ground (arith, c x, d x, c (src + m + (x - (dst + m))), reindex v src dst m x)

-- Cycles that are enough for `k` chunks: two for each, and one to report the end.
abbrev pub cycles : ℕ → ℕ
cycles zero = 1
cycles (suc k) = suc (suc (cycles k))

pub cycles_pos : (k : ℕ) → (j : ℕ) × (cycles k ≡ suc j)
cycles_pos zero = (0, refl)
cycles_pos (suc k) = (suc (cycles k), refl)

module _ (b : Backing) where
  cycle_read :
      (mc : Machine b)
      → IsQuiet b mc
      → mc.copy.dma_state ≡ DmaState.read
      → 0 < mc.copy.word_counter
      → Placed mc.copy.src_is_sram mc.copy.src (chunk_words mc.copy.word_counter * 8)
      → cycle b mc ≡ ok (after_read b mc, false)
  cycle_read mc q st w p = elim (Bool-cases mc.copy.src_is_sram) [
    | inl k ↦
        cycle_read_sram b mc q st w k
          (subst (λ f. Placed f mc.copy.src (chunk_words mc.copy.word_counter * 8)) k p)
    | inr k ↦
        cycle_read_memory b mc q st w k
          (subst (λ f. Placed f mc.copy.src (chunk_words mc.copy.word_counter * 8)) k p)
  ]

  -- The machine after a write, its device and store being whatever they are.
  abbrev written : Tclpim → b.Store → MemCopy → ℕ → Machine b
  written d s m n = record { device = d; copy = wrote m n; store = s }

  cycle_write :
      (mc : Machine b)
      → IsQuiet b mc
      → mc.copy.dma_state ≡ DmaState.write
      → length mc.device.buffer ≡ chunk_words mc.copy.word_counter * 8
      → 0 < mc.copy.word_counter
      → Placed mc.copy.dst_is_sram mc.copy.dst (length mc.device.buffer)
      → (d : Tclpim) × (s : b.Store) × (cycle b mc
          ≡ ok (written d s mc.copy (length mc.device.buffer), false))
        × IsQuiet b (written d s mc.copy (length mc.device.buffer))
        × Written b mc (written d s mc.copy (length mc.device.buffer))
  cycle_write mc q st l w p = elim (Bool-cases mc.copy.dst_is_sram) [
    | inl k ↦ (
      record mc.device {
        sram = overwrite_at (mc.copy.dst % sram_size) mc.device.buffer mc.device.sram;
      },
      mc.store,
      cycle_write_sram b mc q st l w k (at k),
      record {
        none_issued = q.none_issued;
        whole =
            length-overwrite_at (mc.copy.dst % sram_size) mc.device.buffer mc.device.sram ∙ q.whole;
      },
      scratch-Written b mc _ (at k) (ground arith) q.whole refl refl,
    )
    | inr k ↦ (
      mc.device,
      b.set mc.store mc.copy.dst mc.device.buffer,
      cycle_write_memory b mc q st l k (at k),
      record { none_issued = q.none_issued; whole = q.whole },
      memory-Written b mc _ (at k) refl refl,
    )
  ]
    where
      at : {f : Bool} → mc.copy.dst_is_sram ≡ f → Placed f mc.copy.dst (length mc.device.buffer)
      at e = subst (λ f. Placed f mc.copy.dst (length mc.device.buffer)) e p

  -- One chunk: read and written in two cycles.
  chunk_lem :
      (mc : Machine b)
      → IsQuiet b mc
      → mc.copy.dma_state ≡ DmaState.read
      → 0 < mc.copy.word_counter
      → Placed mc.copy.src_is_sram mc.copy.src (chunk_words mc.copy.word_counter * 8)
      → Placed mc.copy.dst_is_sram mc.copy.dst (chunk_words mc.copy.word_counter * 8)
      → (d : Tclpim) × (s : b.Store) × (cycle b mc ≡ ok (after_read b mc, false))
        × (cycle b (after_read b mc)
            ≡ ok (written d s (after_read b mc).copy (chunk_words mc.copy.word_counter * 8), false))
        × IsQuiet b (written d s (after_read b mc).copy (chunk_words mc.copy.word_counter * 8))
        × Copied
            (view b mc)
            (view b (written d s (after_read b mc).copy (chunk_words mc.copy.word_counter * 8)))
            mc.copy.src
            mc.copy.dst
            (chunk_words mc.copy.word_counter * 8)
  unfolding view
  chunk_lem mc q st w p r =
      let n : ℕ = chunk_words mc.copy.word_counter * 8 in
      let mid : Machine b = after_read b mc in
      let l : length mid.device.buffer ≡ n = length-fetch (view b mc) mc.copy.src n in
      let quiet : IsQuiet b mid = record { none_issued = q.none_issued; whole = q.whole } in
      let (d, s, e, q', v) =
        cycle_write mid quiet refl l w
          (subst (λ k. Placed mc.copy.dst_is_sram mc.copy.dst k) (sym l) r) in
      (
        d,
        s,
        cycle_read mc q st w p,
        e ∙ ap (λ k. ok (written d s mid.copy k, false)) l,
        record { none_issued = q'.none_issued; whole = q'.whole },
        λ x. ground (arith, v x, l, get_or-fetch (view b mc) mc.copy.src n (x - mc.copy.dst)),
      )

  -- The last cycle reports the end.
  cycle_done :
      (mc : Machine b)
      → IsQuiet b mc
      → mc.copy.dma_state ≡ DmaState.done
      → (mc' : Machine b) × (cycle b mc ≡ ok (mc', true))
        × (mc'.copy ≡ record mc.copy { dma_state = DmaState.idle })
        × IsQuiet b mc'
        × ((x : ℕ) → view b mc' x ≡ view b mc x)
  unfolding cycle clock clock_state answer_all view
  cycle_done mc q st = (
    record mc {
      device = record mc.device {
        buffer = resize mc.device.buffer (chunk_words mc.copy.word_counter * 8) 0;
      };
      copy = record mc.copy { dma_state = DmaState.idle };
    },
    ground arith,
    refl,
    record { none_issued = q.none_issued; whole = q.whole },
    λ x. refl,
  )

  drive_step :
      (n : ℕ) (mc mc' : Machine b)
      → cycle b mc ≡ ok (mc', false)
      → drive b (suc n) mc ≡ drive b n mc'
  unfolding drive
  drive_step n mc mc' e = rw e

  drive_end :
      (n : ℕ) (mc mc' : Machine b)
      → cycle b mc ≡ ok (mc', true)
      → drive b (suc n) mc ≡ ok (mc', true)
  unfolding drive
  drive_end n mc mc' e = rw e

  -- `k` chunks, for `k` large enough.
  pub chunks_lem :
      (k : ℕ) (mc : Machine b)
      → IsQuiet b mc
      → mc.copy.dma_state ≡ DmaState.read
      → 0 < mc.copy.word_counter
      → mc.copy.word_counter ≤ 64 * k
      → Placed mc.copy.src_is_sram mc.copy.src (mc.copy.word_counter * 8)
      → Placed mc.copy.dst_is_sram mc.copy.dst (mc.copy.word_counter * 8)
      → (mc.copy.dst ≤ mc.copy.src) ⊎ (mc.copy.src + mc.copy.word_counter * 8 ≤ mc.copy.dst)
      → (mc' : Machine b) × (drive b (cycles k) mc ≡ ok (mc', true))
        × (mc'.copy.dma_state ≡ DmaState.idle)
        × IsQuiet b mc'
        × Copied (view b mc) (view b mc') mc.copy.src mc.copy.dst (mc.copy.word_counter * 8)
  chunks_lem zero mc q st w f p r o = absurd (omega arith)
  chunks_lem (suc k) mc q st w f p r o =
      let wc : ℕ = mc.copy.word_counter in
      let n : ℕ = chunk_words wc * 8 in
      let le : n ≤ wc * 8 = ground arith in
      let (d, s, e1, e2, q', v) =
        chunk_lem mc q st w (Placed-part mc.copy.src_is_sram mc.copy.src (wc * 8) n p le)
          (Placed-part mc.copy.dst_is_sram mc.copy.dst (wc * 8) n r le) in
      let mc1 : Machine b = written d s (after_read b mc).copy n in
      let left : ℕ = wc - chunk_words wc in
      let rest : wc * 8 - n ≡ left * 8 = ground arith in
      elim (Bool-cases (ltb 0 left)) [
        | inl more ↦
            let (mc', e, i, q2, v2) =
              chunks_lem k mc1 q' (ground arith) (ground arith) (ground arith)
                (subst (λ j. Placed mc.copy.src_is_sram (mc.copy.src + n) j) rest
                  (Placed-rest mc.copy.src_is_sram mc.copy.src (wc * 8) n p le))
                (subst (λ j. Placed mc.copy.dst_is_sram (mc.copy.dst + n) j) rest
                  (Placed-rest mc.copy.dst_is_sram mc.copy.dst (wc * 8) n r le))
                (ground arith) in
            (
              mc',
              drive_step (suc (cycles k)) mc (after_read b mc) e1
                  ∙ drive_step (cycles k) (after_read b mc) mc1 e2
                  ∙ e,
              i,
              q2,
              Copied-trans (view b mc) (view b mc1) (view b mc') mc.copy.src mc.copy.dst n (wc * 8)
                  le o v
                  (subst
                    (λ j. Copied (view b mc1) (view b mc') (mc.copy.src + n) (mc.copy.dst + n) j)
                    (sym rest) v2),
            )
        | inr last ↦
            let (mc', e, i, q2, v2) = cycle_done mc1 q' (ground arith) in
            let (j, c) = cycles_pos k in
            let all : n ≡ wc * 8 = ground arith in
            (
              mc',
              drive_step (suc (cycles k)) mc (after_read b mc) e1
                  ∙ drive_step (cycles k) (after_read b mc) mc1 e2
                  ∙ ap (λ t. drive b t mc1) c
                  ∙ drive_end j mc1 mc' e,
              ap (λ m. m.dma_state) i,
              q2,
              subst (λ t. Copied (view b mc) (view b mc') mc.copy.src mc.copy.dst t) all
                  (λ x. v2 x ∙ v x),
            )
      ]
