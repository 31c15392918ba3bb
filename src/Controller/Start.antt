-- ===== src/Controller/Start.antt =====
-- memoryControllerKG.cc: the constructor's use of its parameters for the region and the backing
-- store, and `init`, which announces the memory on its links and takes the loader's data.
use sst_pim.Prelude.{
  ℕ, ◌-◌, ◌^◌, ◌==◌, ltb, not, Bool, true, false, Option, none, some, List, [], ◌∷◌, if◌then◌else◌,
  value_or, Outcome, ok, fault, check, fatal, undefined, ◌>>=◌, ◌>>◌,
}
use sst_pim.Event.{MemEvent}
use sst_pim.Controller.{MemRegion, Platform, Controller}
use sst_pim.Controller.Setup.{adjust_region, process_init_event}
pub mod Loaded
pub mod Interleaved

-- A parameter with a unit (`UnitAlgebra`): whether it is in bytes, and its rounded value.
pub record Quantity : Type 0 where
  pub in_bytes : Bool
  pub rounded : ℕ

-- The four parameters of the region, as far as they are given.
pub record RegionParams : Type 0 where
  pub addr_range_start : Option ℕ
  pub addr_range_end : Option ℕ
  pub interleave_size : Quantity
  pub interleave_step : Quantity

-- `region_` in the constructor.
unfoldable pub configured_region : RegionParams → Outcome MemRegion
configured_region p = do
  check p.interleave_size.in_bytes fatal
  check p.interleave_step.in_bytes fatal
  ok (record {
    start = value_or 0 p.addr_range_start;
    last = value_or (2 ^ 64 - 1) p.addr_range_end;
    interleave_size = p.interleave_size.rounded;
    interleave_step = p.interleave_step.rounded;
  })

-- The parameter `backing`: one of three strings, or another one.
pub data BackingType : Type 0 where
  no_backing mmap malloc unknown : BackingType

-- `backingType`, from `backing` and the older `do_not_back`.
unfoldable pub backing_type : Option BackingType → Option Bool → BackingType
backing_type (some b) old = b
backing_type none old = if value_or false old then BackingType.no_backing else BackingType.mmap

-- `sizeBytes`; `log2_of` is memHierarchy's `log2Of`. The shifted 1 is an `int`, so a shift by 31 or
-- more is undefined.
unfoldable pub size_bytes : (ℕ → ℕ) → ℕ → ℕ → Outcome ℕ
size_bytes log2_of unit mem_size =
    if ltb mem_size unit
    then (check (ltb (log2_of mem_size) 31) undefined >> ok (2 ^ log2_of mem_size))
    else ok unit

-- `backing_`: none, `BackingMMAP(file, size)` or `BackingMalloc(size, init)`.
pub data Store : Type 0 where
  absent : Store
  mapped : ℕ → Store
  allocated : ℕ → Store

-- What follows the attempt to map the memory; it throws 1 or 2, or succeeds.
unfoldable pub mmap_store : Option ℕ → Bool → ℕ → ℕ → Outcome Store
mmap_store none named mem_size unit = ok (Store.mapped mem_size)
mmap_store (some e) named mem_size unit =
    if e == 1
    then fault fatal
    else if e == 2
    then (if named then fault fatal else ok (Store.allocated unit))
    else fault fatal

unfoldable pub store_of_type : BackingType → Option ℕ → Bool → ℕ → ℕ → Outcome Store
unfolding mmap_store
store_of_type BackingType.no_backing thrown named mem_size unit = ok Store.absent
store_of_type BackingType.mmap thrown named mem_size unit = mmap_store thrown named mem_size unit
store_of_type BackingType.malloc thrown named mem_size unit = ok (Store.allocated unit)
store_of_type BackingType.unknown thrown named mem_size unit = fault fatal

-- The parameters of the backing store; `named` is a `memory_file`, `thrown` what the mapping throws.
pub record BackingParams : Type 0 where
  pub backing : Option BackingType
  pub do_not_back : Option Bool
  pub backing_size_unit : Quantity
  pub named : Bool
  pub thrown : Option ℕ

abbrev pub is_known : BackingType → Bool
is_known BackingType.unknown = false
is_known _ = true

-- The test of `memSize_`.
unfoldable pub check_mem_size : ℕ → Outcome (Unit {0})
check_mem_size mem_size = check (not (mem_size == 0)) fatal

-- The choice of the backing store for a memory of `mem_size` bytes, with the test of the size.
unfoldable pub configured_store : (ℕ → ℕ) → BackingParams → ℕ → Outcome Store
unfolding check_mem_size backing_type size_bytes store_of_type
configured_store log2_of p mem_size = do
  check_mem_size mem_size
  let kind = backing_type p.backing p.do_not_back
  check (is_known kind) fatal
  check p.backing_size_unit.in_bytes fatal
  unit ← size_bytes log2_of p.backing_size_unit.rounded mem_size
  store_of_type kind p.thrown p.named mem_size unit

-- What `init` sends on a link at its first phase.
pub data Announcement : Type 0 where
  coherence : ℕ → Announcement  -- with the width of the requests
  endpoint : MemRegion → Announcement

module _ (pf : Platform) where
  -- The loop over the untimed events of a link.
  unfoldable pub process_all : Controller pf → List MemEvent → Controller pf
  process_all c [] = c
  process_all c (e ∷ es) = process_all (process_init_event pf c e e.cmd) es

  abbrev pub announcements : ℕ → ℕ → MemRegion → List Announcement
  announcements phase width r =
      if phase == 0 then Announcement.coherence width ∷ Announcement.endpoint r ∷ [] else []

  -- `init`: the region of the link, what the link has received, and, if there is a forward link,
  -- what that has received. The results are the controller and what goes out on either link.
  unfoldable pub init :
      Controller pf
      → ℕ
      → ℕ
      → MemRegion
      → List MemEvent
      → Option (List MemEvent)
      → Controller pf × List Announcement × List Announcement
  unfolding process_all
  init c phase width link_region received forwarded =
      let r = adjust_region link_region c.mem_size in
      let c' = process_all (record c { region = r }) received in
      elim forwarded [
        | none ↦ (c', announcements phase width r, [])
        | some es ↦ (process_all c' es, announcements phase width r, announcements phase width r)
      ]
