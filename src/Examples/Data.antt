-- ===== src/Examples/Data.antt =====
-- The inputs of the examples: a device with an empty scratchpad, a memory, and a platform.
use sst_pim.Prelude.{ℕ, leb, ◌&&◌, List, [], ◌∷◌, refl, false, true, some, replicate}
use sst_pim.Pimdef.{Fstate, func_num_f1, func_num_u5, sram_size}
use sst_pim.Fsm.{DmaState, MemCopy, MulVecByScalar, Fsm, mem_copy, mul_vec}
use sst_pim.FuncState.{FuncState}
use sst_pim.Tclpim.{Tclpim}
use sst_pim.Event.{Command, MemEvent, no_flags}
use sst_pim.Memory.{byte_array}
use sst_pim.Backend.{PimBackend}
use sst_pim.Controller.{Platform, Controller, MemRegion}

abbrev pub device : Tclpim
device = record {
  id = 0;
  cycle = 0;
  sram = replicate sram_size 0;
  buffer = [];
  func_state = [];
  issued = [];
}

-- A memory of zeros.
abbrev pub zeros : ℕ → ℕ
zeros a = 0

abbrev pub waiting_copy : MemCopy
waiting_copy = record {
  dma_state = DmaState.waiting;
  total_words = 4;
  word_counter = 4;
  src = 0x1000;
  dst = 0x2000;
  src_is_sram = false;
  dst_is_sram = false;
}

abbrev pub waiting_mul : MulVecByScalar
waiting_mul = record {
  dma_state = DmaState.waiting;
  total_words = 2;
  word_counter = 2;
  src = 0x3000;
  dst = 0x4000;
  scalar = 7;
}

abbrev pub register_in : ℕ → Fstate → Fsm → FuncState
register_in n f e = record {
  fnum = n;
  exec = some e;
  params = replicate 8 0;
  fstate = f;
  counter = 0;
}

abbrev pub copy_register : Fstate → FuncState
copy_register f = register_in func_num_f1 f (mem_copy waiting_copy)

abbrev pub mul_register : Fstate → FuncState
mul_register f = register_in func_num_u5 f (mul_vec waiting_mul)

abbrev pub device_with : FuncState → FuncState → Tclpim
device_with s1 s5 = record device { func_state = (func_num_f1, s1) ∷ (func_num_u5, s5) ∷ [] }

abbrev pub backend : PimBackend
backend = record {
  pimsim = some device;
  num_nodes = 1;
  init_dram_done = true;
  self_check_done = true;
  buffer = replicate 8 0;
  spd_base = 0x0f000000;
  pending_pim_events = [];
  injected = [];
  next_id = 5;
}

abbrev pub event : ℕ → Command → ℕ → List ℕ → MemEvent
event i c a d = record {
  id = i;
  cmd = c;
  addr = a;
  base_addr = a;
  addr_global = true;
  size = 8;
  payload = d;
  flags = record no_flags { noncacheable = true };
}

abbrev pub eight : List ℕ
eight = 1 ∷ 2 ∷ 3 ∷ 4 ∷ 5 ∷ 6 ∷ 7 ∷ 8 ∷ []

abbrev pub responses : Command → Command
responses Command.get_s = Command.get_s_resp
responses Command.get_x = Command.get_x_resp
responses Command.write = Command.write_resp
responses _ = Command.other

abbrev pub platform : Platform
platform = record {
  backing = byte_array;
  contains = λ r a. leb r.start a && leb a r.last;
  response_command = responses;
  get_s_response = refl;
  write_response = refl;
}

abbrev pub region : MemRegion
region = record { start = 0x1000; last = 0x8ffff; interleave_size = 0; interleave_step = 0 }

abbrev pub interleaved_region : MemRegion
interleaved_region = record {
  start = 0x1000;
  last = 0x8ffff;
  interleave_size = 64;
  interleave_step = 256;
}

abbrev pub controller : Controller platform
controller = record {
  backend = backend;
  region = region;
  mem_size = 0x100000;
  private_mem_offset = 0;
  has_backing = true;
  has_custom_handler = false;
  store = zeros;
  clock_on = false;
  outstanding_events = [];
  to_convertor = [];
  sent = [];
}
