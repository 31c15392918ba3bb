-- ===== src/MemCopy/Settling.antt =====
-- `MemCopy` (tclpim_functions.cc) with a memory that answers any number of clocks later ends, with
-- the range copied: its states at rest and waiting keep what is still to be copied.
use sst_pim.Prelude.{
  ℕ, zero, suc, ◌+◌, ◌*◌, ◌%◌, ◌≤◌, ◌≡◌, ◌≢◌, ◌⊎◌, refl, sym, ◌∙◌, arith, true, false, Bool-cases,
  subst, List, [], length, resize, length-resize, overwrite_at, length-overwrite_at, ok, inl, inr,
}
use sst_pim.Pimdef.{sram_size}
use sst_pim.Fsm.{DmaState, MemCopy, is_sram_address, started_mem_copy, start_mem_copy}
use sst_pim.MemCopy.Run.{start_mem_copy_inv, dst_of, src_of, bytes_of}
use sst_pim.Tclpim.{Tclpim}
use sst_pim.Schedule.{Move, rounds, play, Settles, play-At}
use sst_pim.MemCopy.{clock, clock_state}
use sst_pim.Memory.{Backing, length-fetch}
use sst_pim.MemCopy.Machine.{Machine, answer_all, view, tick, reply}
use sst_pim.MemCopy.Chunks.{Placed, IsQuiet, after_read}
use sst_pim.MemCopy.Writes.{scratch-Written, memory-Written}
use sst_pim.MemCopy.Transfer.{Copied, cycles, cycles_pos}
use sst_pim.MemCopy.Rests.{
  Reads, Done, Finished, Rest, Waits, reads, writes, done, read, write, from_chunk, to_chunk,
  written, chunk-Rest, Written-Copied,
}
use sst_pim.MemCopy.Patient.{
  chunk, waiting_read, waiting_write, stored, tick_waiting, tick-read_sram, tick-read_memory,
  reply_read, tick_write_sram, tick_write_memory, reply_write,
}

module _ (b : Backing) (Goal : (ℕ → ℕ) → Type 0) where
  -- A rest that is reached by a clock.
  abbrev Ticked : ℕ → Machine b → Type 0
  Ticked n mc =
      (mc' : Machine b) × (((tick b mc ≡ ok (mc', true)) × Finished b Goal mc')
        ⊎ ((tick b mc ≡ ok (mc', false))
            × (j : ℕ) × (n ≡ suc j)
            × (Rest b Goal j mc' ⊎ Waits b Goal j mc')))

  tick-Reads : (k : ℕ) (mc : Machine b) → Reads b Goal k mc → Ticked (cycles k) mc
  tick-Reads zero mc r = absurd (let w = r.left in let f = r.bound in omega (arith, w, f))
  tick-Reads (suc k) mc r = elim (Bool-cases mc.copy.src_is_sram) [
    | inl e ↦ (
      after_read b mc,
      inr (
        tick-read_sram b mc r.quiet r.reading r.left e
            (subst (λ f. Placed f mc.copy.src (chunk b mc)) e (from_chunk b Goal r)),
        suc (cycles k),
        refl,
        inl (writes k r),
      ),
    )
    | inr e ↦
        let buffer : List ℕ = resize mc.device.buffer (chunk b mc) 0 in
        let l : length buffer ≡ chunk b mc = length-resize mc.device.buffer (chunk b mc) 0 in
        (
          waiting_read b mc buffer buffer,
          inr (
            tick-read_memory b mc r.quiet r.reading e
                (subst (λ f. Placed f mc.copy.src (chunk b mc)) e (from_chunk b Goal r)),
            suc (cycles k),
            refl,
            inr (read k buffer buffer l l e r),
          ),
        )
  ]

  tick_writes :
      (k : ℕ) (mc : Machine b) → Reads b Goal (suc k) mc → Ticked (suc (cycles k)) (after_read b mc)
  unfolding view
  tick_writes k mc r = elim (Bool-cases mc.copy.dst_is_sram) [
    | inl e ↦
        let p : Placed true mc.copy.dst (chunk b mc) =
          subst (λ f. Placed f mc.copy.dst (chunk b mc)) e (to_chunk b Goal r) in
        let bytes : List ℕ = (after_read b mc).device.buffer in
        let l : length bytes ≡ chunk b mc = length-fetch (view b mc) mc.copy.src (chunk b mc) in
        let d : Tclpim = record (after_read b mc).device {
          sram = overwrite_at (mc.copy.dst % sram_size) bytes mc.device.sram;
        } in
        let q : IsQuiet b (written b Goal mc d mc.store) = record {
          none_issued = r.quiet.none_issued;
          whole =
              length-overwrite_at (mc.copy.dst % sram_size) bytes mc.device.sram ∙ r.quiet.whole;
        } in
        let w = r.left in
        (
          written b Goal mc d mc.store,
          inr (
            tick_write_sram b mc r.quiet r.left e p,
            cycles k,
            refl,
            inl (
                chunk-Rest b Goal k mc d mc.store r q (
                  Written-Copied b Goal mc (written b Goal mc d mc.store) (
                    scratch-Written b (after_read b mc) (written b Goal mc d mc.store)
                      (subst (λ n. Placed true mc.copy.dst n) (sym l) p) (ground (arith, l, w))
                      r.quiet.whole refl refl))),
          ),
        )
    | inr e ↦ (
      waiting_write b mc (after_read b mc).device.buffer,
      inr (
        tick_write_memory b mc r.quiet e
            (subst (λ f. Placed f mc.copy.dst (chunk b mc)) e (to_chunk b Goal r)),
        cycles k,
        refl,
        inr (write k (after_read b mc).device.buffer e r),
      ),
    )
  ]

  -- The answer to a write.
  reply_stored :
      (k : ℕ) (mc : Machine b) (buffer : List ℕ)
      → mc.copy.dst_is_sram ≡ false
      → Reads b Goal (suc k) mc
      → Rest b Goal (cycles k) (stored b mc buffer)
  unfolding view
  reply_stored k mc buffer e r =
      let mc1 : Machine b = stored b mc buffer in
      let l = length-fetch (view b mc) mc.copy.src (chunk b mc) in
      chunk-Rest b Goal k mc mc1.device mc1.store r
        (record { none_issued = refl; whole = r.quiet.whole })
        (Written-Copied b Goal mc mc1 (
          memory-Written b (after_read b mc) mc1
            (subst (λ n. Placed false mc.copy.dst n) (sym l)
              (subst (λ f. Placed f mc.copy.dst (chunk b mc)) e (to_chunk b Goal r)))
            refl refl))

  tick-Done : (k : ℕ) (mc : Machine b) → Done b Goal mc → Ticked (cycles k) mc
  unfolding tick clock clock_state view
  tick-Done k mc d =
      let e = d.done in
      (
        record mc {
          device = record mc.device { buffer = resize mc.device.buffer (chunk b mc) 0 };
          copy = record mc.copy { dma_state = DmaState.idle };
        },
        inl (
          ground arith,
          record {
            quiet = record { none_issued = d.quiet.none_issued; whole = d.quiet.whole };
            idle = refl;
            goal = d.goal;
          },
        ),
      )

  tick-Rest : (n : ℕ) (mc : Machine b) → Rest b Goal n mc → Ticked n mc
  tick-Rest n mc (reads k r) = tick-Reads k mc r
  tick-Rest n mc (writes k {mc = mc0} r) = tick_writes k mc0 r
  tick-Rest n mc (done k d) = tick-Done k mc d

  tick_waits :
      (n : ℕ) (mc : Machine b)
      → Waits b Goal n mc
      → (mc' : Machine b) × (tick b mc ≡ ok (mc', false)) × Waits b Goal n mc'
  tick_waits n mc (read k {mc = mc0} sent buffer l m e r) =
      let size : ℕ = chunk b (waiting_read b mc0 sent buffer) in
      (
        waiting_read b mc0 sent (resize buffer size 0),
        tick_waiting b (waiting_read b mc0 sent buffer) refl,
        read k sent (resize buffer size 0) l (length-resize buffer size 0) e r,
      )
  tick_waits n mc (write k {mc = mc0} buffer e r) =
      let size : ℕ = chunk b (waiting_write b mc0 buffer) in
      (
        waiting_write b mc0 (resize buffer size 0),
        tick_waiting b (waiting_write b mc0 buffer) refl,
        write k (resize buffer size 0) e r,
      )

  none_issued_of : (n : ℕ) (mc : Machine b) → Rest b Goal n mc → mc.device.issued ≡ []
  none_issued_of n mc (reads k r) = r.quiet.none_issued
  none_issued_of n mc (writes k r) = r.quiet.none_issued
  none_issued_of n mc (done k d) = d.quiet.none_issued

  reply_rest : (mc : Machine b) → mc.device.issued ≡ [] → reply b mc ≡ ok mc
  unfolding reply answer_all
  reply_rest mc e = ground arith

  reply_waits :
      (n : ℕ) (mc : Machine b)
      → Waits b Goal n mc
      → (mc' : Machine b) × (reply b mc ≡ ok mc') × Rest b Goal n mc'
  reply_waits n mc (read k {mc = mc0} sent buffer l m e r) = (
    after_read b mc0,
    reply_read b mc0 sent buffer r.quiet l m
        (subst (λ f. Placed f mc0.copy.src (chunk b mc0)) e (from_chunk b Goal r)),
    writes k r,
  )
  reply_waits n mc (write k {mc = mc0} buffer e r) =
      (stored b mc0 buffer, reply_write b mc0 buffer, reply_stored k mc0 buffer e r)

  positive : (n : ℕ) (mc : Machine b) → Rest b Goal n mc → 1 ≤ n
  positive n mc (reads k r) = let (j, e) = cycles_pos k in omega (arith, e)
  positive n mc (writes k r) = omega arith
  positive n mc (done k d) = let (j, e) = cycles_pos k in omega (arith, e)

  -- The states at rest and waiting are as a schedule needs them.
  pub copy-Settles : Settles (tick b) (reply b) (Rest b Goal) (Waits b Goal) (Finished b Goal)
  copy-Settles = record {
    positive = positive;
    tick_rest = tick-Rest;
    tick_waits = tick_waits;
    reply_rest = λ n mc a. reply_rest mc (none_issued_of n mc a);
    reply_waits = reply_waits;
  }

module _ (b : Backing) where
  -- What a copy is to reach from a machine.
  abbrev pub CopiedFrom : Machine b → List ℕ → (ℕ → ℕ) → Type 0
  CopiedFrom mc ps v = Copied (view b mc) v (src_of ps) (dst_of ps) (bytes_of ps)

  -- A function that `start` has just started.
  started-Reads :
      (k : ℕ) (d : Tclpim) (s : b.Store) (m0 m : MemCopy) (ps : List ℕ)
      → start_mem_copy m0 ps ≡ ok m
      → bytes_of ps ≢ 0
      → bytes_of ps ≤ 512 * k
      → d.issued ≡ []
      → length d.sram ≡ sram_size
      → Placed (is_sram_address (src_of ps)) (src_of ps) (bytes_of ps)
      → Placed (is_sram_address (dst_of ps)) (dst_of ps) (bytes_of ps)
      → (dst_of ps ≤ src_of ps) ⊎ (src_of ps + bytes_of ps ≤ dst_of ps)
      → let mc : Machine b = record { device = d; copy = started_mem_copy ps; store = s } in
        (m ≡ started_mem_copy ps) × Reads b (CopiedFrom mc ps) k mc
  unfolding started_mem_copy
  started-Reads k d s m0 m ps e z f i w p r o =
      let (em, en) = start_mem_copy_inv m0 m ps e z in
      let src : ℕ = src_of ps in
      let dst : ℕ = dst_of ps in
      (
        em,
        record {
          quiet = record { none_issued = i; whole = w };
          reading = refl;
          left = omega arith;
          bound = omega arith;
          from = subst (λ n. Placed (is_sram_address src) src n) (sym en) p;
          to = subst (λ n. Placed (is_sram_address dst) dst n) (sym en) r;
          order = subst (λ n. (dst ≤ src) ⊎ (src + n ≤ dst)) (sym en) o;
          goal = λ v c.
              subst
                (λ n.
                  Copied (view b (record { device = d; copy = started_mem_copy ps; store = s })) v
                    src dst n)
                en c;
        },
      )

  -- A schedule with enough rounds brings a started function to its end.
  pub copy_patient :
      (ms : List Move) (k : ℕ) (d : Tclpim) (s : b.Store) (m0 m : MemCopy) (ps : List ℕ)
      → cycles k ≤ rounds false ms
      → start_mem_copy m0 ps ≡ ok m
      → bytes_of ps ≢ 0
      → bytes_of ps ≤ 512 * k
      → d.issued ≡ []
      → length d.sram ≡ sram_size
      → Placed (is_sram_address (src_of ps)) (src_of ps) (bytes_of ps)
      → Placed (is_sram_address (dst_of ps)) (dst_of ps) (bytes_of ps)
      → (dst_of ps ≤ src_of ps) ⊎ (src_of ps + bytes_of ps ≤ dst_of ps)
      → let mc : Machine b = record { device = d; copy = m; store = s } in
        (mc' : Machine b) × (play (tick b) (reply b) ms mc ≡ ok (mc', true))
        × Finished b (CopiedFrom mc ps) mc'
  copy_patient ms k d s m0 m ps g e z f i w p r o =
      let (em, start) = started-Reads k d s m0 m ps e z f i w p r o in
      let mc0 : Machine b = record { device = d; copy = started_mem_copy ps; store = s } in
      subst
        (λ m'.
          let mc : Machine b = record { device = d; copy = m'; store = s } in
          (mc' : Machine b) × (play (tick b) (reply b) ms mc ≡ ok (mc', true))
          × Finished b (CopiedFrom mc ps) mc')
        (sym em)
        (play-At (tick b) (reply b) (copy-Settles b (CopiedFrom mc0 ps)) ms false (cycles k) mc0
          (reads k start) (omega arith))
