-- ===== src/MemCopy/Run.antt =====
-- `MemCopy` from `start` to the end (tclpim_functions.cc).
use sst_pim.Prelude.{
  ℕ, ◌+◌, ◌*◌, ◌/◌, ◌≤◌, ◌≡◌, ◌≢◌, ◌⊎◌, refl, arith, subst, sym, List, [], length, get_or, ok, true,
}
use sst_pim.Pimdef.{sram_size}
use sst_pim.Fsm.{DmaState, MemCopy, is_sram_address, started_mem_copy, start_mem_copy}
use sst_pim.Tclpim.{Tclpim}
use sst_pim.Memory.{Backing}
use sst_pim.MemCopy.Machine.{Machine, drive, view}
use sst_pim.MemCopy.Chunks.{Placed, IsQuiet}
use sst_pim.MemCopy.Transfer.{Copied, cycles, chunks_lem}

pub start_mem_copy_inv :
    (m0 m : MemCopy) (params : List ℕ)
    → start_mem_copy m0 params ≡ ok m
    → get_or params 2 0 ≢ 0
    → (m ≡ started_mem_copy params) × (get_or params 2 0 / 8 * 8 ≡ get_or params 2 0)
unfolding start_mem_copy
start_mem_copy_inv m0 m params e z = ground arith

-- The three parameters that `MemCopy` reads.
abbrev pub dst_of : List ℕ → ℕ
dst_of ps = get_or ps 0 0

abbrev pub src_of : List ℕ → ℕ
src_of ps = get_or ps 1 0

abbrev pub bytes_of : List ℕ → ℕ
bytes_of ps = get_or ps 2 0

module _ (b : Backing) where
  -- From a device, a store and a started function: within `n` cycles the function reports its end,
  -- is idle, leaves no open request, and has copied the range and changed no other byte.
  abbrev pub Transfers : ℕ → Tclpim → b.Store → MemCopy → ℕ → ℕ → ℕ → Type 0
  Transfers n d s m src dst bytes =
      (mc' : Machine b) × (drive b n (record { device = d; copy = m; store = s }) ≡ ok (mc', true))
      × (mc'.copy.dma_state ≡ DmaState.idle)
      × IsQuiet b mc'
      × Copied (view b (record { device = d; copy = m; store = s })) (view b mc') src dst bytes

  -- A run that `start` accepts, of a positive number of bytes, ends in a bounded number of cycles:
  -- two for every 512 bytes, and one more. Both ranges lie in the scratchpad's first window or in
  -- memory clear of the device, and no byte is overwritten before it is read (the destination is
  -- not above the source, or the ranges do not meet that way). At the end every byte of the
  -- destination is that of the source at the start, every other byte is as it was, no request is
  -- open, and the function is idle.
  pub mem_copy_run :
      (k : ℕ) (d : Tclpim) (s : b.Store) (m0 m : MemCopy) (params : List ℕ)
      → start_mem_copy m0 params ≡ ok m
      → bytes_of params ≢ 0
      → bytes_of params ≤ 512 * k
      → d.issued ≡ []
      → length d.sram ≡ sram_size
      → Placed (is_sram_address (src_of params)) (src_of params) (bytes_of params)
      → Placed (is_sram_address (dst_of params)) (dst_of params) (bytes_of params)
      → (dst_of params ≤ src_of params) ⊎ (src_of params + bytes_of params ≤ dst_of params)
      → Transfers (cycles k) d s m (src_of params) (dst_of params) (bytes_of params)
  unfolding started_mem_copy
  mem_copy_run k d s m0 m params e z f i w p r o =
      let (em, en) = start_mem_copy_inv m0 m params e z in
      let src : ℕ = src_of params in
      let dst : ℕ = dst_of params in
      subst (λ m'. Transfers (cycles k) d s m' src dst (bytes_of params)) (sym em)
        (subst (λ n. Transfers (cycles k) d s (started_mem_copy params) src dst n) en
          (chunks_lem b k (record { device = d; copy = started_mem_copy params; store = s })
            (record { none_issued = i; whole = w }) refl (omega arith) (omega arith)
            (subst (λ n. Placed (is_sram_address src) src n) (sym en) p)
            (subst (λ n. Placed (is_sram_address dst) dst n) (sym en) r)
            (subst (λ n. (dst ≤ src) ⊎ (src + n ≤ dst)) (sym en) o)))
