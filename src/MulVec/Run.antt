-- ===== src/MulVec/Run.antt =====
-- `MulVecByScalar` from `start` to the end (userpim_functions.cc).
use sst_pim.Prelude.{
  ℕ, zero, suc, ◌+◌, ◌-◌, ◌*◌, ◌/◌, ◌^◌, ◌≤◌, ◌<◌, ◌≡◌, ◌≢◌, ◌⊎◌, refl, sym, ◌∙◌, ap, subst, arith,
  ltb, true, false, Bool-cases, List, [], get_or, resize, ok, inl, inr,
}
use sst_pim.Fsm.{DmaState, MulVecByScalar, started_mul_vec, start_mul_vec}
use sst_pim.Tclpim.{Tclpim}
use sst_pim.MemCopy.{chunk_words}
use sst_pim.MemCopy.Transfer.{cycles, cycles_pos}
use sst_pim.Memory.{Backing}
use sst_pim.MulVec.{clock, clock_state}
use sst_pim.MulVec.Machine.{Machine, answer_all, cycle, drive}
use sst_pim.MulVec.Chunks.{Scaled, Scaled-trans, next_chunk, chunk_lem}

pub start_mul_vec_inv :
    (m0 m : MulVecByScalar) (params : List ℕ)
    → start_mul_vec m0 params ≡ ok m
    → get_or params 3 0 ≢ 0
    → (m ≡ started_mul_vec params) × (get_or params 3 0 / 8 * 8 ≡ get_or params 3 0)
unfolding start_mul_vec
start_mul_vec_inv m0 m params e z = ground arith

module _ (b : Backing) where
  open b use {Store, byte}

  -- From a device, a store and a started function: within `n` cycles the function reports its end,
  -- is idle, leaves no open request, and has scaled the range and changed no other byte.
  abbrev pub Multiplies : ℕ → Tclpim → Store → MulVecByScalar → ℕ → ℕ → ℕ → ℕ → Type 0
  Multiplies n d s m scalar src dst bytes =
      (mc' : Machine b) × (drive b n (record { device = d; mul = m; store = s }) ≡ ok (mc', true))
      × (mc'.mul.dma_state ≡ DmaState.idle)
      × (mc'.device.issued ≡ [])
      × Scaled (byte s) (byte mc'.store) scalar src dst bytes

  drive_step :
      (n : ℕ) (mc mc' : Machine b)
      → cycle b mc ≡ ok (mc', false)
      → drive b (suc n) mc ≡ drive b n mc'
  unfolding drive
  drive_step n mc mc' e = rw e

  drive_end :
      (n : ℕ) (mc mc' : Machine b)
      → cycle b mc ≡ ok (mc', true)
      → drive b (suc n) mc ≡ ok (mc', true)
  unfolding drive
  drive_end n mc mc' e = rw e

  cycle_done :
      (d : Tclpim) (m : MulVecByScalar) (s : Store)
      → d.issued ≡ []
      → m.dma_state ≡ DmaState.done
      → cycle b (record { device = d; mul = m; store = s })
        ≡ ok (
          record {
            device = record d { buffer = resize d.buffer (chunk_words m.word_counter * 8) 0 };
            mul = record m { dma_state = DmaState.idle };
            store = s;
          },
          true,
        )
  unfolding cycle clock clock_state answer_all
  cycle_done d m s i st = ground arith

  -- `k` chunks, for `k` large enough.
  chunks_lem :
      (k : ℕ) (d : Tclpim) (m : MulVecByScalar) (s : Store)
      → d.issued ≡ []
      → m.dma_state ≡ DmaState.read
      → 0 < m.word_counter
      → m.word_counter ≤ 64 * k
      → m.src + m.word_counter * 8 < 2 ^ 64
      → m.dst + m.word_counter * 8 < 2 ^ 64
      → (m.dst ≤ m.src) ⊎ (m.src + m.word_counter * 8 ≤ m.dst)
      → Multiplies (cycles k) d s m m.scalar m.src m.dst (m.word_counter * 8)
  chunks_lem zero d m s i st w f p r o = absurd (omega arith)
  chunks_lem (suc k) d m s i st w f p r o =
      let wc : ℕ = m.word_counter in
      let n : ℕ = chunk_words wc * 8 in
      let le : n ≤ wc * 8 = ground arith in
      let (d', s', mid, e1, e2, i', v) = chunk_lem b d m s i st (omega arith) (omega arith) in
      let m' : MulVecByScalar = next_chunk m in
      let mc1 : Machine b = record { device = d'; mul = m'; store = s' } in
      let left : ℕ = wc - chunk_words wc in
      let rest : wc * 8 - n ≡ left * 8 = ground arith in
      let start : Machine b = record { device = d; mul = m; store = s } in
      elim (Bool-cases (ltb 0 left)) [
        | inl more ↦
            let (mc', e, j, q, v2) =
              chunks_lem k d' m' s' i' (ground arith) (ground arith) (ground arith) (ground arith)
                (ground arith) (ground arith) in
            (
              mc',
              drive_step (suc (cycles k)) start mid e1 ∙ drive_step (cycles k) mid mc1 e2 ∙ e,
              j,
              q,
              Scaled-trans (byte s) (byte s') (byte mc'.store) m.scalar m.src m.dst n (wc * 8) le
                  (omega arith) (omega arith) o v
                  (subst (λ t. Scaled (byte s') (byte mc'.store) m.scalar (m.src + n) (m.dst + n) t)
                    (sym rest) v2),
            )
        | inr last ↦
            let (j, c) = cycles_pos k in
            let all : n ≡ wc * 8 = ground arith in
            let mc' : Machine b = record {
              device = record d' { buffer = resize d'.buffer (chunk_words m'.word_counter * 8) 0 };
              mul = record m' { dma_state = DmaState.idle };
              store = s';
            } in
            (
              mc',
              drive_step (suc (cycles k)) start mid e1
                  ∙ drive_step (cycles k) mid mc1 e2
                  ∙ ap (λ t. drive b t mc1) c
                  ∙ drive_end j mc1 mc' (cycle_done d' m' s' i' (ground arith)),
              refl,
              i',
              subst (λ t. Scaled (byte s) (byte s') m.scalar m.src m.dst t) all v,
            )
      ]

  -- A run that `start` accepts, of a positive number of bytes, ends in a bounded number of cycles:
  -- two for every 512 bytes, and one more. The ranges end below the end of the address space, and
  -- no word is overwritten before it is read. At the end each word of the destination is the
  -- product, modulo 2^64, of the scalar and the word of the source at the start; every other byte
  -- is as it was; no request is open, and the function is idle.
  pub mul_vec_run :
      (k : ℕ) (d : Tclpim) (s : Store) (m0 m : MulVecByScalar) (params : List ℕ)
      → start_mul_vec m0 params ≡ ok m
      → get_or params 3 0 ≢ 0
      → get_or params 3 0 ≤ 512 * k
      → d.issued ≡ []
      → get_or params 1 0 + get_or params 3 0 < 2 ^ 64
      → get_or params 0 0 + get_or params 3 0 < 2 ^ 64
      → (get_or params 0 0 ≤ get_or params 1 0)
        ⊎ (get_or params 1 0 + get_or params 3 0 ≤ get_or params 0 0)
      → Multiplies
          (cycles k)
          d
          s
          m
          (get_or params 2 0)
          (get_or params 1 0)
          (get_or params 0 0)
          (get_or params 3 0)
  unfolding started_mul_vec
  mul_vec_run k d s m0 m params e z f i p r o =
      let (em, en) = start_mul_vec_inv m0 m params e z in
      let scalar : ℕ = get_or params 2 0 in
      let src : ℕ = get_or params 1 0 in
      let dst : ℕ = get_or params 0 0 in
      subst (λ m'. Multiplies (cycles k) d s m' scalar src dst (get_or params 3 0)) (sym em)
        (subst (λ n. Multiplies (cycles k) d s (started_mul_vec params) scalar src dst n) en
          (chunks_lem k d (started_mul_vec params) s i refl (omega arith) (omega arith)
            (omega arith) (omega arith) (omega arith)))
