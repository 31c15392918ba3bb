-- ===== src/Controller/Setup.antt =====
-- memoryControllerKG.cc: what happens before the simulation runs. The region is cut to the size of
-- the memory, and the data of the loader is written to the backing store.
use sst_pim.Prelude.{
  ℕ, ◌+◌, ◌-◌, ◌*◌, ◌/◌, ◌^◌, ◌≡◌, ◌≤◌, ◌<◌, ◌==◌, ltb, not, ◌&&◌, arith, if◌then◌else◌,
}
use sst_pim.Pimdef.{u64}
use sst_pim.Event.{Command, MemEvent}
use sst_pim.Controller.{MemRegion, Platform, Controller, sub64, translate_to_local}

-- The size of a region; the largest one is not counted up, since it would wrap.
unfoldable pub region_size : MemRegion → ℕ
region_size r = let n = sub64 r.last r.start in if n == 2 ^ 64 - 1 then n else u64 (n + 1)

-- `adjustRegionToMemSize`
unfoldable pub adjust_region : MemRegion → ℕ → MemRegion
unfolding region_size
adjust_region r mem_size =
    if not (r.interleave_step == 0)
    then (if ltb mem_size (u64 (region_size r / r.interleave_step * r.interleave_size))
        then record r {
          last = sub64 (u64 (r.start + mem_size / r.interleave_size * r.interleave_step)) 1;
        }
        else r)
    else if ltb mem_size (region_size r)
    then record r { last = sub64 (u64 (r.start + mem_size)) 1 }
    else r

module _ (pf : Platform) where
  -- `processInitEvent`: the test of the address is made on the local one.
  unfoldable pub process_init_event : Controller pf → MemEvent → Command → Controller pf
  process_init_event c e Command.write =
      let a = translate_to_local c.region c.private_mem_offset e.addr in
      if pf.contains c.region a && c.has_backing
      then record c { store = pf.backing.set c.store a e.payload }
      else c
  process_init_event c e _ = c

-- A contiguous region in the address space keeps its start, only shrinks, and is then no larger
-- than the memory, where the memory is not empty and ends before the last address.
pub adjust_region_lem :
    (r : MemRegion) (mem_size : ℕ)
    → r.interleave_step ≡ 0
    → r.start ≤ r.last
    → r.last < 2 ^ 64
    → 0 < mem_size
    → r.start + mem_size + 1 < 2 ^ 64
    → ((adjust_region r mem_size).start ≡ r.start)
      × ((adjust_region r mem_size).last ≤ r.last)
      × (r.start ≤ (adjust_region r mem_size).last)
      × ((adjust_region r mem_size).last + 1 - r.start ≤ mem_size)
unfolding adjust_region region_size
adjust_region_lem r n s o l z f = (ground arith, ground arith, ground arith, ground arith)
