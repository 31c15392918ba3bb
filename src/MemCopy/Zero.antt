-- ===== src/MemCopy/Zero.antt =====
-- A run of `MemCopy` of no bytes (tclpim_functions.cc, `start` and `clock`).
use sst_pim.Prelude.{ℕ, zero, suc, ◌*◌, ◌≡◌, refl, arith, List, [], get_or, resize, ok, false}
use sst_pim.Fsm.{DmaState, MemCopy, start_mem_copy}
use sst_pim.Tclpim.{Tclpim}
use sst_pim.MemCopy.{clock, clock_state, chunk_words}
use sst_pim.Memory.{Backing}
use sst_pim.MemCopy.Machine.{answer_all, cycle, drive}

start_zero :
    (m0 m : MemCopy) (params : List ℕ)
    → start_mem_copy m0 params ≡ ok m
    → get_or params 2 0 ≡ 0
    → m ≡ m0
unfolding start_mem_copy
start_zero m0 m params e z = ground arith

module _ (b : Backing) where
  cycle_idle :
      (d : Tclpim) (m : MemCopy) (s : b.Store)
      → d.issued ≡ []
      → m.dma_state ≡ DmaState.idle
      → cycle b (record { device = d; copy = m; store = s })
        ≡ ok (
          record {
            device = record d { buffer = resize d.buffer (chunk_words m.word_counter * 8) 0 };
            copy = m;
            store = s;
          },
          false,
        )
  unfolding cycle clock clock_state answer_all
  cycle_idle d m s i w = ground arith

  idle_hangs :
      (n : ℕ) (d : Tclpim) (m : MemCopy) (s : b.Store)
      → d.issued ≡ []
      → m.dma_state ≡ DmaState.idle
      → (d' : Tclpim) × (drive b n (record { device = d; copy = m; store = s })
          ≡ ok (record { device = d'; copy = m; store = s }, false))
  unfolding drive
  idle_hangs zero d m s i w = (d, refl)
  idle_hangs (suc n) d m s i w =
      let (d', e) =
        idle_hangs n (record d { buffer = resize d.buffer (chunk_words m.word_counter * 8) 0 }) m s
          i w in
      (d', rw (cycle_idle d m s i w) e)

  -- An idle function that is started on no bytes never reports its end: whatever the number of
  -- cycles, it is idle and not done, and the memory is as it was.
  pub mem_copy_zero_hangs :
      (n : ℕ) (d : Tclpim) (s : b.Store) (m0 m : MemCopy) (params : List ℕ)
      → m0.dma_state ≡ DmaState.idle
      → start_mem_copy m0 params ≡ ok m
      → get_or params 2 0 ≡ 0
      → d.issued ≡ []
      → (d' : Tclpim) × (drive b n (record { device = d; copy = m; store = s })
          ≡ ok (record { device = d'; copy = m0; store = s }, false))
  mem_copy_zero_hangs n d s m0 m params w e z i =
      rw (start_zero m0 m params e z) (idle_hangs n d m0 s i w)
