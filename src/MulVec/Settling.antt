-- ===== src/MulVec/Settling.antt =====
-- `MulVecByScalar` (userpim_functions.cc) with a memory that answers any number of clocks later
-- ends, with the range scaled.
use sst_pim.Prelude.{
  ℕ, zero, suc, ◌+◌, ◌*◌, ◌^◌, ◌≤◌, ◌<◌, ◌≡◌, ◌≢◌, ◌⊎◌, refl, sym, arith, true, false, subst, List,
  [], length, get_or, resize, length-resize, ok, inl, inr,
}
use sst_pim.Schedule.{Move, rounds, play, Settles, play-At}
use sst_pim.Fsm.{DmaState, MulVecByScalar, started_mul_vec, start_mul_vec}
use sst_pim.Tclpim.{Tclpim}
use sst_pim.MemCopy.Transfer.{cycles, cycles_pos}
use sst_pim.Memory.{Backing}
use sst_pim.MulVec.{clock, clock_state}
use sst_pim.MulVec.Machine.{Machine, answer_all, tick, reply}
use sst_pim.MulVec.Chunks.{Scaled}
use sst_pim.MulVec.Run.{start_mul_vec_inv}
use sst_pim.MulVec.Rests.{
  Reads, Done, Finished, Rest, Waits, reads, writes, done, read, write, chunk_le, stored-Rest,
}
use sst_pim.MulVec.Patient.{
  chunk, products, after_read, waiting_read, waiting_write, stored, tick_waiting, tick-read,
  reply_read, tick_write, reply_write,
}

module _ (b : Backing) (Goal : (ℕ → ℕ) → Type 0) where
  -- A rest that is reached by a clock.
  abbrev Ticked : ℕ → Machine b → Type 0
  Ticked n mc =
      (mc' : Machine b) × (((tick b mc ≡ ok (mc', true)) × Finished b Goal mc')
        ⊎ ((tick b mc ≡ ok (mc', false))
            × (j : ℕ) × (n ≡ suc j)
            × (Rest b Goal j mc' ⊎ Waits b Goal j mc')))

  tick-Reads : (k : ℕ) (mc : Machine b) → Reads b Goal k mc → Ticked (cycles k) mc
  tick-Reads zero mc r = absurd (let w = r.left in let f = r.bound in omega (arith, w, f))
  tick-Reads (suc k) mc r =
      let buffer : List ℕ = resize mc.device.buffer (chunk b mc) 0 in
      let l : length buffer ≡ chunk b mc = length-resize mc.device.buffer (chunk b mc) 0 in
      let p = r.from in
      let le = chunk_le b Goal mc in
      (
        waiting_read b mc buffer buffer,
        inr (
          tick-read b mc r.quiet r.reading (omega (arith, p, le)),
          suc (cycles k),
          refl,
          inr (read k buffer buffer l l r),
        ),
      )

  tick_writes :
      (k : ℕ) (mc : Machine b) → Reads b Goal (suc k) mc → Ticked (suc (cycles k)) (after_read b mc)
  tick_writes k mc r =
      let t = r.to in
      let le = chunk_le b Goal mc in
      (
        waiting_write b mc (products b mc),
        inr (
          tick_write b mc r.quiet (omega (arith, t, le)),
          cycles k,
          refl,
          inr (write k (products b mc) r),
        ),
      )

  tick-Done : (k : ℕ) (mc : Machine b) → Done b Goal mc → Ticked (cycles k) mc
  unfolding tick clock clock_state
  tick-Done k mc d =
      let e = d.done in
      (
        record mc {
          device = record mc.device { buffer = resize mc.device.buffer (chunk b mc) 0 };
          mul = record mc.mul { dma_state = DmaState.idle };
        },
        inl (ground arith, record { quiet = d.quiet; idle = refl; goal = d.goal }),
      )

  tick-Rest : (n : ℕ) (mc : Machine b) → Rest b Goal n mc → Ticked n mc
  tick-Rest n mc (reads k r) = tick-Reads k mc r
  tick-Rest n mc (writes k {mc = mc0} r) = tick_writes k mc0 r
  tick-Rest n mc (done k d) = tick-Done k mc d

  tick_waits :
      (n : ℕ) (mc : Machine b)
      → Waits b Goal n mc
      → (mc' : Machine b) × (tick b mc ≡ ok (mc', false)) × Waits b Goal n mc'
  tick_waits n mc (read k {mc = mc0} sent buffer l m r) =
      let size : ℕ = chunk b (waiting_read b mc0 sent buffer) in
      (
        waiting_read b mc0 sent (resize buffer size 0),
        tick_waiting b (waiting_read b mc0 sent buffer) refl,
        read k sent (resize buffer size 0) l (length-resize buffer size 0) r,
      )
  tick_waits n mc (write k {mc = mc0} buffer r) =
      let size : ℕ = chunk b (waiting_write b mc0 buffer) in
      (
        waiting_write b mc0 (resize buffer size 0),
        tick_waiting b (waiting_write b mc0 buffer) refl,
        write k (resize buffer size 0) r,
      )

  none_issued_of : (n : ℕ) (mc : Machine b) → Rest b Goal n mc → mc.device.issued ≡ []
  none_issued_of n mc (reads k r) = r.quiet
  none_issued_of n mc (writes k r) = r.quiet
  none_issued_of n mc (done k d) = d.quiet

  reply_rest : (mc : Machine b) → mc.device.issued ≡ [] → reply b mc ≡ ok mc
  unfolding reply answer_all
  reply_rest mc e = ground arith

  reply_waits :
      (n : ℕ) (mc : Machine b)
      → Waits b Goal n mc
      → (mc' : Machine b) × (reply b mc ≡ ok mc') × Rest b Goal n mc'
  reply_waits n mc (read k {mc = mc0} sent buffer l m r) =
      (after_read b mc0, reply_read b mc0 sent buffer r.quiet l m, writes k r)
  reply_waits n mc (write k {mc = mc0} buffer r) =
      (stored b mc0 buffer, reply_write b mc0 buffer, stored-Rest b Goal k mc0 buffer r)

  positive : (n : ℕ) (mc : Machine b) → Rest b Goal n mc → 1 ≤ n
  positive n mc (reads k r) = let (j, e) = cycles_pos k in omega (arith, e)
  positive n mc (writes k r) = omega arith
  positive n mc (done k d) = let (j, e) = cycles_pos k in omega (arith, e)

  -- The states at rest and waiting are as a schedule needs them.
  pub mul-Settles : Settles (tick b) (reply b) (Rest b Goal) (Waits b Goal) (Finished b Goal)
  mul-Settles = record {
    positive = positive;
    tick_rest = tick-Rest;
    tick_waits = tick_waits;
    reply_rest = λ n mc a. reply_rest mc (none_issued_of n mc a);
    reply_waits = reply_waits;
  }

module _ (b : Backing) where
  open b use {byte}

  -- What a multiplication is to reach from a store.
  abbrev pub ScaledFrom : b.Store → List ℕ → (ℕ → ℕ) → Type 0
  ScaledFrom s ps v =
      Scaled (byte s) v (get_or ps 2 0) (get_or ps 1 0) (get_or ps 0 0) (get_or ps 3 0)

  -- A schedule with enough rounds brings a started function to its end.
  pub mul_patient :
      (ms : List Move) (k : ℕ) (d : Tclpim) (s : b.Store) (m0 m : MulVecByScalar) (ps : List ℕ)
      → cycles k ≤ rounds false ms
      → start_mul_vec m0 ps ≡ ok m
      → get_or ps 3 0 ≢ 0
      → get_or ps 3 0 ≤ 512 * k
      → d.issued ≡ []
      → get_or ps 1 0 + get_or ps 3 0 < 2 ^ 64
      → get_or ps 0 0 + get_or ps 3 0 < 2 ^ 64
      → (get_or ps 0 0 ≤ get_or ps 1 0) ⊎ (get_or ps 1 0 + get_or ps 3 0 ≤ get_or ps 0 0)
      → let mc : Machine b = record { device = d; mul = m; store = s } in
        (mc' : Machine b) × (play (tick b) (reply b) ms mc ≡ ok (mc', true))
        × Finished b (ScaledFrom s ps) mc'
  unfolding started_mul_vec
  mul_patient ms k d s m0 m ps g e z f i p r o =
      let (em, en) = start_mul_vec_inv m0 m ps e z in
      let mc0 : Machine b = record { device = d; mul = started_mul_vec ps; store = s } in
      let start : Reads b (ScaledFrom s ps) k mc0 = record {
        quiet = i;
        reading = refl;
        left = omega arith;
        bound = omega arith;
        from = omega arith;
        to = omega arith;
        order = omega arith;
        goal = λ v c.
            subst (λ n. Scaled (byte s) v (get_or ps 2 0) (get_or ps 1 0) (get_or ps 0 0) n) en c;
      } in
      subst
        (λ m'.
          let mc : Machine b = record { device = d; mul = m'; store = s } in
          (mc' : Machine b) × (play (tick b) (reply b) ms mc ≡ ok (mc', true))
          × Finished b (ScaledFrom s ps) mc')
        (sym em)
        (play-At (tick b) (reply b) (mul-Settles b (ScaledFrom s ps)) ms false (cycles k) mc0
          (reads k start) (omega arith))
