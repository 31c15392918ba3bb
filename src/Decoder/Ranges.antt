-- ===== src/Decoder/Ranges.antt =====
-- The address ranges that PIMDecoder.cc decodes to.
use sst_pim.Prelude.{ℕ, ◌≤◌, ◌<◌, ◌≡◌, ◌+◌, ◌*◌, arith, leb, ltb, ◌&&◌, if◌then◌else◌}
use sst_pim.Pimdef.{dram_base, dram_size, sram_base, sram_size, func_base, func_size, usrfunc_base}
use sst_pim.Decoder.{PimAccessType, decode}

-- What the segments of the decoder amount to: three ranges that do not meet. The scratchpad's and
-- the DRAM's are larger than those of pimdef.h, whose sizes the decoder does not read.
unfoldable pub access_type_of : ℕ → PimAccessType
access_type_of a =
    if leb dram_base a && ltb a 0x8b800000
    then PimAccessType.dram
    else if leb sram_base a && ltb a dram_base
    then PimAccessType.sram
    else if leb func_base a && ltb a sram_base
    then PimAccessType.func
    else PimAccessType.none

-- A range of pimdef.h, with its first address and its size.
abbrev pub InRange : ℕ → ℕ → ℕ → Type 0
InRange base n a = (base ≤ a) × (a < base + n)

-- The memory map of pimdef.h: 1 KiB of scratchpad, 1 MiB of DRAM, and the registers of the 16
-- functions and of the 16 user functions.
pub data InMap (a : ℕ) : PimAccessType → Type 0 where
  in_sram : InRange sram_base sram_size a → InMap a PimAccessType.sram
  in_dram : InRange dram_base dram_size a → InMap a PimAccessType.dram
  in_func : InRange func_base (16 * func_size) a → InMap a PimAccessType.func
  in_usrfunc : InRange usrfunc_base (16 * func_size) a → InMap a PimAccessType.func

-- An address in a range of the memory map of pimdef.h has the type of that range.
pub decode-InMap : (a : ℕ) (k : PimAccessType) → InMap a k → (decode a).access_type ≡ k
unfolding decode
decode-InMap a k (in_sram h) = ground arith
decode-InMap a k (in_dram h) = ground arith
decode-InMap a k (in_func h) = ground arith
decode-InMap a k (in_usrfunc h) = ground arith

-- The first segment that has an address decides, and the segments overlap: the result is that of
-- three disjoint ranges, for every address.
pub decode-access_type_of : (a : ℕ) → (decode a).access_type ≡ access_type_of a
unfolding decode access_type_of
decode-access_type_of a = ground arith

-- `is_io` holds exactly from the base of the function registers up to the base of the DRAM.
pub decode-is_io : (a : ℕ) → (decode a).is_io ≡ (leb func_base a && ltb a dram_base)
unfolding decode
decode-is_io a = ground arith

pub decode_sram :
    (a : ℕ) → sram_base ≤ a → a < dram_base → (decode a).access_type ≡ PimAccessType.sram
unfolding decode
decode_sram a h k = ground arith
