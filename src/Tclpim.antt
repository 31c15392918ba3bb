-- ===== src/Tclpim.antt =====
-- sstcomp/PIMBackend/pim.h, tclpim.h and tclpim.cc: the PIM device. It keeps a scratchpad, a buffer
-- that its functions share, the function registers, and the DRAM requests that it has issued.
use sst_pim.Prelude.{
  ℕ, ◌+◌, ◌*◌, ◌/◌, ◌%◌, ◌^◌, ◌==◌, leb, ltb, Bool, true, false, Option, none, some, List, [], ◌∷◌,
  ◌++◌, length, take, drop, replicate, overwrite, overwrite_at, to_bytes, of_bytes, if◌then◌else◌,
  Outcome, ok, fault, check, of_option, assertion, out_of_range, null_pointer, ◌>>=◌, ◌>>◌,
}
use sst_pim.Pimdef.{sram_size, pim_type_tcl, func_num_f1, func_num_u5}
use sst_pim.Decoder.{PimAccessType, PimDecodeInfo, decode}
use sst_pim.Fsm.{DmaState, Fsm, mem_copy, mul_vec, new_mem_copy, new_mul_vec}
use sst_pim.FuncState.{FuncState, new_func_state, write_fsm, read_fsm}
pub mod Scratchpad
pub mod Registers

-- What a completion function captures: which function waits, and the state it moves to.
pub data Completion : Type 0 where
  copy_read : DmaState → Completion
  copy_write : DmaState → Completion
  mul_read : Completion
  mul_write : DmaState → Completion

-- A call of the callback `m_issueDRAMRequest`. The callee copies the buffer at once, so the
-- request holds the bytes.
pub record DramRequest : Type 0 where
  pub address : ℕ
  pub payload : List ℕ
  pub is_write : Bool
  pub completion : Completion

-- `sram` is the array of words by its bytes. `func_state` is the map, in the order of its keys.
-- `issued` collects the calls of the callback, oldest first.
pub record Tclpim : Type 0 where
  pub id : ℕ
  pub cycle : ℕ
  pub sram : List ℕ
  pub buffer : List ℕ
  pub func_state : List (ℕ × FuncState)
  pub issued : List DramRequest

-- The constructor; node 0 is the only one that the decoder accepts.
unfoldable pub new_tclpim : ℕ → Outcome Tclpim
unfolding new_func_state new_mem_copy new_mul_vec
new_tclpim node = do
  check (node == 0) assertion
  let id = (pim_type_tcl * 2 ^ 56 + node * 2 ^ 12) % 2 ^ 64
  ok (record {
    id = id;
    cycle = 0;
    sram = overwrite (to_bytes 8 id) (replicate sram_size 0);
    buffer = [];
    func_state =
        (func_num_f1, new_func_state func_num_f1 (mem_copy new_mem_copy))
        ∷ (func_num_u5, new_func_state func_num_u5 (mul_vec new_mul_vec))
        ∷ [];
    issued = [];
  })

unfoldable pub lookup : ℕ → List (ℕ × FuncState) → Option FuncState
lookup n [] = none
lookup n ((k, s) ∷ m) = if k == n then some s else lookup n m

unfoldable pub update : ℕ → FuncState → List (ℕ × FuncState) → List (ℕ × FuncState)
update n t [] = []
update n t ((k, s) ∷ m) = if k == n then (k, t) ∷ m else (k, s) ∷ update n t m

-- `isMMIO`
unfoldable pub is_mmio : ℕ → Bool
is_mmio a = (decode a).is_io

-- `getDecodeInfo`
unfoldable pub get_decode_info : ℕ → PimDecodeInfo
get_decode_info a = decode a

-- `decodeFuncNum`: `(a >> 3) & 0xf`, and the assertions.
unfoldable pub decode_func_num : ℕ → ℕ → Outcome ℕ
decode_func_num a num_bytes = do
  let n = (a / 8) % 16
  check (ltb n 16) assertion
  check (a % 8 == 0) assertion
  check (num_bytes == 8) assertion
  ok n

-- Where a byte address lies in the scratchpad: `(a % SRAM_SIZE) >> 3` words and `a & 7` bytes.
unfoldable pub sram_offset : ℕ → ℕ
sram_offset a = ((a % sram_size) / 8) * 8 + a % 8

-- The SRAM branch of `read`: the payload after the loop. Past the array, or past the payload, the
-- accesses are out of range.
unfoldable pub read_sram : Tclpim → ℕ → ℕ → List ℕ → Outcome (List ℕ)
unfolding sram_offset
read_sram t a n payload = do
  check (leb (sram_offset a + n) (length t.sram)) out_of_range
  check (leb n (length payload)) out_of_range
  ok (overwrite (take n (drop (sram_offset a) t.sram)) payload)

-- The other branch of `read`: the state of the function register.
unfoldable pub read_func : Tclpim → ℕ → ℕ → List ℕ → Outcome (List ℕ)
unfolding decode_func_num lookup read_fsm
read_func t a n payload = do
  fnum ← decode_func_num a n
  s ← of_option null_pointer (lookup fnum t.func_state)
  check (leb n (length payload)) out_of_range
  ok (overwrite (to_bytes 8 (read_fsm s)) payload)

unfoldable pub read_by_type : PimAccessType → Tclpim → ℕ → ℕ → List ℕ → Outcome (List ℕ)
unfolding read_sram read_func
read_by_type PimAccessType.sram t a n payload = read_sram t a n payload
read_by_type _ t a n payload = read_func t a n payload

-- `TCLPIM::read`
unfoldable pub read : Tclpim → ℕ → ℕ → List ℕ → Outcome (List ℕ)
unfolding read_by_type
read t a n payload = read_by_type (decode a).access_type t a n payload

-- The SRAM branch of `write`.
unfoldable pub write_sram : Tclpim → ℕ → ℕ → List ℕ → Outcome Tclpim
unfolding sram_offset
write_sram t a n payload = do
  check (leb n (length payload)) out_of_range
  check (leb (sram_offset a + n) (length t.sram)) out_of_range
  ok (record t { sram = overwrite_at (sram_offset a) (take n payload) t.sram })

-- The FUNC branch of `write`.
unfoldable pub write_func : Tclpim → ℕ → ℕ → List ℕ → Outcome Tclpim
unfolding decode_func_num lookup update
write_func t a n payload = do
  fnum ← decode_func_num a n
  check (leb n (length payload)) out_of_range
  let d = of_bytes (take n payload)
  s ← of_option null_pointer (lookup fnum t.func_state)
  s' ← write_fsm s d
  ok (record t { func_state = update fnum s' t.func_state })

unfoldable pub write_by_type : PimAccessType → Tclpim → ℕ → ℕ → List ℕ → Outcome Tclpim
unfolding write_sram write_func
write_by_type PimAccessType.sram t a n payload = write_sram t a n payload
write_by_type PimAccessType.func t a n payload = write_func t a n payload
write_by_type _ t a n payload = fault assertion

-- `TCLPIM::write`
unfoldable pub write : Tclpim → ℕ → ℕ → List ℕ → Outcome Tclpim
unfolding write_by_type
write t a n payload = write_by_type (decode a).access_type t a n payload
