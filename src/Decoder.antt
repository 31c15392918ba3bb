-- ===== src/Decoder.antt =====
-- sstcomp/PIMBackend/PIMDecoder.h and PIMDecoder.cc: which addresses are DRAM, scratchpad (SRAM)
-- and function registers.
use sst_pim.Prelude.{
  ℕ, ◌+◌, ◌*◌, ◌==◌, leb, ltb, ◌&&◌, ◌||◌, Bool, true, false, List, [], ◌∷◌, if◌then◌else◌,
}
use sst_pim.Pimdef.{dram_base, sram_base, func_base, u64}
pub mod Ranges

-- `PIM_ACCESS_TYPE`
pub data PimAccessType : Type 0 where
  none sram dram func : PimAccessType

abbrev pub is_none : PimAccessType → Bool
is_none PimAccessType.none = true
is_none _ = false

abbrev pub is_sram : PimAccessType → Bool
is_sram PimAccessType.sram = true
is_sram _ = false

abbrev pub is_dram : PimAccessType → Bool
is_dram PimAccessType.dram = true
is_dram _ = false

abbrev pub is_func : PimAccessType → Bool
is_func PimAccessType.func = true
is_func _ = false

pub record PimMemSegment : Type 0 where
  pub access_type : PimAccessType
  pub base_addr : ℕ
  pub size : ℕ
  pub top_addr : ℕ

-- The constructor; the top address is a `uint64_t` sum.
unfoldable pub pim_mem_segment : PimAccessType → ℕ → ℕ → PimMemSegment
pim_mem_segment t b s = record { access_type = t; base_addr = b; size = s; top_addr = u64 (b + s) }

unfoldable pub set_size : PimMemSegment → ℕ → PimMemSegment
set_size g s = record g { size = s; top_addr = u64 (g.base_addr + s) }

-- `PIMMemSegment::decode`
unfoldable pub segment_decode : PimMemSegment → ℕ → PimAccessType
segment_decode g a =
    if leb g.base_addr a && ltb a g.top_addr then g.access_type else PimAccessType.none

pub record PimDecodeInfo : Type 0 where
  pub is_io : Bool
  pub is_dram : Bool
  pub access_type : PimAccessType

abbrev pub seg_size : ℕ
seg_size = u64 (dram_base * 8)

-- The three segments that the constructor of the decoder lists, in its order. It asserts that the
-- node is 0, so the node offset is 0.
unfoldable pub pim_segs : List PimMemSegment
unfolding pim_mem_segment
pim_segs =
    pim_mem_segment PimAccessType.dram dram_base seg_size
    ∷ pim_mem_segment PimAccessType.sram sram_base seg_size
    ∷ pim_mem_segment PimAccessType.func func_base seg_size
    ∷ []

-- The loop of `PIMDecoder::decode`: the type of the first segment that has the address.
unfoldable pub find_segment : List PimMemSegment → ℕ → PimAccessType
unfolding segment_decode
find_segment [] a = PimAccessType.none
find_segment (g ∷ gs) a =
    let rest = find_segment gs a in if is_none (segment_decode g a) then rest else g.access_type

-- `PIMDecoder::decode`
unfoldable pub decode : ℕ → PimDecodeInfo
unfolding find_segment pim_segs
decode a =
    let t = find_segment pim_segs a in
    record { is_io = is_func t || is_sram t; is_dram = is_dram t; access_type = t }
