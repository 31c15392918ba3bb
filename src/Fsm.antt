-- ===== src/Fsm.antt =====
-- sstcomp/PIMBackend/tclpim_functions.h and userpim_functions.h: the state of the two functions
-- that sequence memory accesses, and how a run of each starts (tclpim_functions.cc and
-- userpim_functions.cc, `start`). A virtual call on `FSM` is a match on `Fsm`.
use sst_pim.Prelude.{
  ℕ, ◌/◌, ◌%◌, ◌==◌, Bool, false, ◌&&◌, not, List, get_or, if◌then◌else◌, Outcome, ok, check,
  assertion, fatal, ◌>>=◌, ◌>>◌,
}
use sst_pim.Decoder.{decode, is_sram}

-- `DMA_STATE`
pub data DmaState : Type 0 where
  idle read write waiting done : DmaState

pub record MemCopy : Type 0 where
  pub dma_state : DmaState
  pub total_words : ℕ
  pub word_counter : ℕ
  pub src : ℕ
  pub dst : ℕ
  pub src_is_sram : Bool
  pub dst_is_sram : Bool

pub record MulVecByScalar : Type 0 where
  pub dma_state : DmaState
  pub total_words : ℕ
  pub word_counter : ℕ
  pub src : ℕ
  pub dst : ℕ
  pub scalar : ℕ

pub data Fsm : Type 0 where
  mem_copy : MemCopy → Fsm
  mul_vec : MulVecByScalar → Fsm

-- The values of a new object.
unfoldable pub new_mem_copy : MemCopy
new_mem_copy = record {
  dma_state = DmaState.idle;
  total_words = 0;
  word_counter = 0;
  src = 0;
  dst = 0;
  src_is_sram = false;
  dst_is_sram = false;
}

unfoldable pub new_mul_vec : MulVecByScalar
new_mul_vec = record {
  dma_state = DmaState.idle;
  total_words = 0;
  word_counter = 0;
  src = 0;
  dst = 0;
  scalar = 0;
}

-- An address in the memory map that is no scratchpad: the two `fatal` tests of `MemCopy::start`.
unfoldable pub is_func_address : ℕ → Bool
is_func_address a = (decode a).is_io && not (is_sram (decode a).access_type)

unfoldable pub is_sram_address : ℕ → Bool
is_sram_address a = (decode a).is_io && is_sram (decode a).access_type

-- What `MemCopy::start` has set when it returns past its tests.
unfoldable pub started_mem_copy : List ℕ → MemCopy
started_mem_copy params =
    let dst = get_or params 0 0 in
    let src = get_or params 1 0 in
    let num_bytes = get_or params 2 0 in
    record {
      dma_state = DmaState.read;
      total_words = num_bytes / 8;
      word_counter = num_bytes / 8;
      src = src;
      dst = dst;
      src_is_sram = is_sram_address src;
      dst_is_sram = is_sram_address dst;
    }

-- `MemCopy::start`. The array of parameters always has its eight entries.
unfoldable pub start_mem_copy : MemCopy → List ℕ → Outcome MemCopy
unfolding started_mem_copy
start_mem_copy m params = if get_or params 2 0 == 0 then ok m else do
  check (get_or params 2 0 % 8 == 0) assertion
  check (not (is_func_address (get_or params 0 0))) fatal
  check (not (is_func_address (get_or params 1 0))) fatal
  ok (started_mem_copy params)

-- What `MulVecByScalar::start` has set.
unfoldable pub started_mul_vec : List ℕ → MulVecByScalar
started_mul_vec params =
    let num_bytes = get_or params 3 0 in
    record {
      dma_state = DmaState.read;
      total_words = num_bytes / 8;
      word_counter = num_bytes / 8;
      src = get_or params 1 0;
      dst = get_or params 0 0;
      scalar = get_or params 2 0;
    }

-- `MulVecByScalar::start`
unfoldable pub start_mul_vec : MulVecByScalar → List ℕ → Outcome MulVecByScalar
unfolding started_mul_vec
start_mul_vec m params =
    if get_or params 3 0 == 0
    then ok m
    else do check (get_or params 3 0 % 8 == 0) assertion; ok (started_mul_vec params)

-- `FSM::start`
unfoldable pub start : Fsm → List ℕ → Outcome Fsm
unfolding start_mem_copy start_mul_vec
start (mem_copy m) params = start_mem_copy m params >>= λ m'. ok (mem_copy m')
start (mul_vec m) params = start_mul_vec m params >>= λ m'. ok (mul_vec m')
