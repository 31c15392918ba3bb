-- ===== src/Examples/Setup.antt =====
-- What runs before the simulation: constructors, the first tick, and the loader's data.
use sst_pim.Prelude.{
  ℕ, ◌+◌, ◌%◌, ◌≡◌, ◌≤◌, ◌<◌, ◌⊎◌, refl, arith, true, false, none, some, List, [], ◌∷◌, ◌++◌, ◌^◌,
  inr, overwrite, replicate, to_bytes, ok,
}
use sst_pim.Pimdef.{pim_type_tcl, func_num_f1, func_num_u5}
use sst_pim.Fsm.{mem_copy, mul_vec, new_mem_copy, new_mul_vec}
use sst_pim.FuncState.{new_func_state}
use sst_pim.Tclpim.{Tclpim, new_tclpim}
use sst_pim.Backend.{new_backend}
use sst_pim.Event.{Command, MemEvent}
use sst_pim.AppGen.Requests.{new_queue}
use sst_pim.AppGen.Sources.{build, single_stream_finished}
use sst_pim.AppGen.Stream.{generate_times, strided, generate_times-strided}
use sst_pim.AppGen.Spawn.{
  ReqGen, Startup, spawn_ticks, fresh, spawned, new_app_transactor, can_generate,
  spawn_ticks-spawned,
}
use sst_pim.AppGen.Cpu
use sst_pim.AppGen.Cpu.{Generator}
use sst_pim.AppGen.Cpu.Books.{Kind, pending_of}
use sst_pim.AppGen.Cpu.Args.{
  split_args, words, joined, NoneHasSpace, app_link_name, split_args-words,
}
use sst_pim.AppGen.Cpu.History.{IsFresh}
use sst_pim.AppGen.Pages.{memory_manager}
use sst_pim.AppGen.Cpu.Configure.{limits, CpuParams, GeneratorSource, configure, configure-IsFresh}
use sst_pim.Backend.Construct.{BackendParams, Constructed, Made, construct, construct_lem}
use sst_pim.Controller.{MemRegion, translate_to_local}
use sst_pim.Controller.Translate.{Owns}
use sst_pim.Controller.Setup.{adjust_region, region_size}
use sst_pim.Controller.Start.{init}
use sst_pim.Controller.Start.Loaded.{init-last}
use sst_pim.Controller.Start.Interleaved.{
  IsInterleaved, chunk_bytes, adjust_region-IsInterleaved, adjust_region_fits,
}
use sst_pim.Examples.Data.{event, eight, platform, interleaved_region, controller}

-- "a b"
abbrev two_words : List ℕ
two_words = 97 ∷ 32 ∷ 98 ∷ []

split_args-words_example :
    (split_args two_words ≡ ok (app_link_name ∷ words two_words))
    × (joined (words two_words) ≡ two_words)
    × NoneHasSpace (words two_words)
split_args-words_example = split_args-words two_words

generate_times-strided_example :
    let r = generate_times 3 (build 4 16 0x100 0x1000 true, new_queue) in
    (r.1.elements ≡ [] ++ strided true 16 0 0x100 3) × (single_stream_finished r.0 ≡ false)
generate_times-strided_example =
    generate_times-strided 4 16 0x100 0x1000 3 true new_queue (omega arith) (omega arith)
      (omega arith) (omega arith)

spawn_ticks-spawned_example :
    (spawn_ticks true 3 (fresh (ReqGen.appx_test new_app_transactor)) ≡ ok spawned)
    × (can_generate spawned.req_gen ≡ true)
    × ((s : Startup) × (spawn_ticks true 3 (fresh (ReqGen.base new_app_transactor)) ≡ ok s)
        × (s.has_thread ≡ false)
        × (can_generate s.req_gen ≡ false))
spawn_ticks-spawned_example = spawn_ticks-spawned 2

-- A generator that has nothing to generate.
abbrev silent : Generator
silent = record { State = Unit {0}; is_finished = λ s. true; generate = λ s q. ok (s, q) }

abbrev cpu_params : CpuParams
cpu_params = record {
  maxloadmemreqpending = none;
  maxstorememreqpending = some 8;
  maxcustommemreqpending = none;
  args = two_words;
  has_memory = true;
  max_reorder_lookups = none;
  cache_line_size = none;
  pagesize = none;
  pagecount = none;
  pagemap = none;
  generator = GeneratorSource.slot;
  max_reqs_cycle = none;
}

abbrev configured : Cpu.Cpu
configured = record {
  mem_mgr = memory_manager 0xffffffffffff0000 1 [];
  cache_line = 64;
  use_app_link = true;
  max_requests_pending = record { reads = 16; writes = 8; customs = 16 };
  req_max_per_cycle = 2;
  max_op_lookup = 16;
  requests_pending = record { reads = 0; writes = 0; customs = 0 };
  requests_in_flight = [];
  cpu_requests = [];
  pending_requests = new_queue;
  load_q = [];
  sent = [];
  next_id = 0;
  now = 0;
}

configured_lem :
    configure cpu_params [] ≡ ok (configured, app_link_name ∷ (97 ∷ []) ∷ (98 ∷ []) ∷ [])
unfolding configure split_args
configured_lem = refl

small_limits : (k : Kind) → pending_of k (limits cpu_params) + 1 < 2 ^ 32
small_limits k = ground arith

configure-IsFresh_example :
    IsFresh silent configured
    × (configured.pending_requests.elements ≡ [])
    × (app_link_name ∷ (97 ∷ []) ∷ (98 ∷ []) ∷ [] ≡ app_link_name ∷ words two_words)
    × (0 < configured.cache_line)
    × (configured.mem_mgr.page_size % configured.cache_line ≡ 0)
    × ((cpu_params.generator ≡ GeneratorSource.slot)
        ⊎ (cpu_params.generator ≡ GeneratorSource.name true))
configure-IsFresh_example =
    configure-IsFresh cpu_params [] silent configured (app_link_name ∷ (97 ∷ []) ∷ (98 ∷ []) ∷ [])
      small_limits configured_lem

abbrev backend_params : BackendParams
backend_params = record {
  delay_in_seconds = true;
  delays = false;
  mem_size = 0x100000;
  pim_type = some pim_type_tcl;
  num_nodes = some 1;
  node_id = none;
}

abbrev constructed : Constructed
constructed = record {
  backend = new_backend (some new_device) 1;
  mem_size = 0x100000;
  has_delay_link = false;
}
  where
    new_device : Tclpim
    new_device = record {
      id = 0x300000000000000;
      cycle = 0;
      sram = overwrite (to_bytes 8 0x300000000000000) (replicate 1024 0);
      buffer = [];
      func_state =
          (func_num_f1, new_func_state func_num_f1 (mem_copy new_mem_copy))
          ∷ (func_num_u5, new_func_state func_num_u5 (mul_vec new_mul_vec))
          ∷ [];
      issued = [];
    }

constructed_lem : construct backend_params ≡ ok constructed
unfolding construct new_tclpim
constructed_lem = refl

construct_lem_example :
    (0 < constructed.backend.num_nodes)
    × (constructed.backend.pending_pim_events ≡ [])
    × (constructed.backend.injected ≡ [])
    × (constructed.mem_size ≡ 0x100000)
    × (constructed.has_delay_link ≡ false)
    × Made pim_type_tcl 0 constructed.backend.pimsim
construct_lem_example = construct_lem backend_params constructed constructed_lem

interleaved_region-IsInterleaved : IsInterleaved interleaved_region
interleaved_region-IsInterleaved = record {
  size = omega arith;
  step = omega arith;
  from = omega arith;
  space = omega arith;
}

abbrev adjusted : MemRegion
adjusted = record interleaved_region { last = 0x40fff }

adjusted_lem : adjust_region interleaved_region 0x10000 ≡ adjusted
unfolding adjust_region
adjusted_lem = refl

interleaved_whole : region_size interleaved_region % 256 ≡ 0
unfolding region_size
interleaved_whole = refl

adjusted-Owns : Owns (adjust_region interleaved_region 0x10000) 0 0x40f10
adjusted-Owns = rw adjusted_lem (record {
  from = omega arith;
  fits = omega arith;
  chunk = inr (omega arith);
  step = inr (omega arith);
})

adjust_region_fits_example :
    translate_to_local (adjust_region interleaved_region 0x10000) 0 0x40f10 < 0x10000
adjust_region_fits_example =
    adjust_region_fits interleaved_region 0x10000 0x40f10 interleaved_region-IsInterleaved
      interleaved_whole (omega arith) adjusted-Owns (rw adjusted_lem (omega arith))

adjust_region-IsInterleaved_example :
    let d : MemRegion = adjust_region interleaved_region 0x10000 in
    IsInterleaved d
    × (d.start ≡ 0x1000)
    × (d.last ≤ 0x8ffff)
    × (chunk_bytes d ≤ 0x10000)
    × (adjust_region d 0x10000 ≡ d)
adjust_region-IsInterleaved_example =
    adjust_region-IsInterleaved interleaved_region 0x10000 interleaved_region-IsInterleaved
      (omega arith)

-- A region from the start of the memory, and a program whose second part overwrites the first.
abbrev whole_region : MemRegion
whole_region = record { start = 0; last = 0xfffff; interleave_size = 0; interleave_step = 0 }

abbrev first_part : MemEvent
first_part = event 1 Command.write 0x2000 eight

abbrev second_part : MemEvent
second_part = event 2 Command.write 0x2004 eight

init-last_example :
    let d = (init platform controller 0 64 whole_region (first_part ∷ second_part ∷ []) none).0 in
    (d.region ≡ adjust_region whole_region 0x100000) × (d.store 0x2005 ≡ 2)
unfolding translate_to_local adjust_region
init-last_example =
    init-last platform controller 0 64 whole_region (first_part ∷ second_part ∷ []) none
      (first_part ∷ []) [] second_part 0x2005 refl
      (record { writes = refl; inside = refl; backed = refl }) (omega arith) (omega arith) tt
