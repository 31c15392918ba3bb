-- ===== src/Examples/Books.antt =====
-- The processor with the single stream generator: one tick sends a read over the end of a cache
-- line in two parts.
use sst_pim.Prelude.{
  ℕ, ◌+◌, ◌<◌, ◌≤◌, ◌≡◌, ◌⊎◌, refl, arith, inl, false, [], ◌∷◌, ok, none, some, map, replicate,
}
use sst_pim.AppGen.Requests.{satisfy_dependency, push_back, memory_op_request, erase}
use sst_pim.AppGen.Pages.{MemoryManager, map_address}
use sst_pim.AppGen.Sources.{SingleStream, build, single_stream_generate, single_stream_finished}
use sst_pim.AppGen.Cpu
use sst_pim.AppGen.Cpu.{
  Counts, CpuRequest, StdMem, Generator, clock_tick, find_key, insert_key, handle_event,
  issue_pending, issue_loop, issue_step, issue_request, issue_split, generate_loop,
}
use sst_pim.AppGen.Cpu.Maps.{count}
use sst_pim.AppGen.Cpu.Books.{Kind, is_kind, pending_of, response}
use sst_pim.AppGen.Cpu.History.{
  World, tick, IsFresh, Reach, start, later, left, pending_bounded, responses_complete,
}

abbrev single_stream : Generator
single_stream = record {
  State = SingleStream;
  is_finished = single_stream_finished;
  generate = λ s q. ok (single_stream_generate s q);
}

abbrev one_page : MemoryManager
one_page = record { page_size = 4096; page_count = 1; max_memory_address = 4096; page_map = 0 ∷ [] }

abbrev no_requests : Counts
no_requests = record { reads = 0; writes = 0; customs = 0 }

abbrev fresh_cpu : Cpu.Cpu
fresh_cpu = record {
  mem_mgr = one_page;
  cache_line = 64;
  use_app_link = false;
  max_requests_pending = record { reads = 16; writes = 16; customs = 16 };
  req_max_per_cycle = 2;
  max_op_lookup = 1;
  requests_pending = no_requests;
  requests_in_flight = [];
  cpu_requests = [];
  pending_requests = record { elements = []; max_capacity = 16 };
  load_q = [];
  sent = [];
  next_id = 0;
  now = 0;
}

fresh : IsFresh single_stream fresh_cpu
fresh = record {
  no_flight = refl;
  no_request = refl;
  no_pending = none_pending;
  limits = low_limits;
}
  where
    none_pending : (k : Kind) → pending_of k no_requests ≡ 0
    none_pending Kind.reading = refl
    none_pending Kind.writing = refl
    none_pending Kind.custom = refl

    low_limits : (k : Kind) → pending_of k fresh_cpu.max_requests_pending + 1 < 4294967296
    low_limits Kind.reading = omega arith
    low_limits Kind.writing = omega arith
    low_limits Kind.custom = omega arith

abbrev stream : SingleStream
stream = build 4 8 60 4096 false

-- After the tick.
abbrev ticked : World single_stream
ticked = record {
  cpu = record fresh_cpu {
    requests_pending = record no_requests { reads = 2 };
    requests_in_flight = (0, 0) ∷ (1, 0) ∷ [];
    cpu_requests = (0, record { original_id = 0; issue_time = 0; outstanding_parts = 2 }) ∷ [];
    sent = StdMem.read 0 60 4 ∷ StdMem.read 1 64 4 ∷ [];
    next_id = 2;
  };
  generator = record {
    issue_count = 3;
    req_length = 8;
    start_addr = 60;
    max_addr = 4096;
    next_addr = 68;
    is_write = false;
    next_request = 1;
  };
  open_requests = (0, Kind.reading) ∷ (1, Kind.reading) ∷ [];
}

ticked_reached : Reach single_stream fresh_cpu stream ticked
unfolding clock_tick generate_loop issue_pending issue_loop issue_step issue_request issue_split
    insert_key build single_stream_generate push_back memory_op_request map_address erase
ticked_reached = later start (tick refl)

pending_bounded_example : (2 ≡ count (is_kind Kind.reading) ticked.open_requests) × (2 ≤ 17)
pending_bounded_example = pending_bounded single_stream ticked Kind.reading fresh ticked_reached

first_open : find_key 0 ticked.open_requests ≡ some Kind.reading
unfolding find_key
first_open = refl

responses_complete_example :
    (c' : Cpu.Cpu) × (key : ℕ) × (q : CpuRequest) × (handle_event ticked.cpu 0
        (response Kind.reading (replicate 4 7))
      ≡ ok c')
    × (find_key 0 ticked.cpu.requests_in_flight ≡ some key)
    × (find_key key ticked.cpu.cpu_requests ≡ some q)
    × (((0 < left single_stream key c') × (c'.pending_requests ≡ ticked.cpu.pending_requests))
        ⊎ ((left single_stream key c' ≡ 0)
            × (find_key key c'.cpu_requests ≡ none)
            × (c'.pending_requests.elements
                ≡ map (satisfy_dependency q.original_id) ticked.cpu.pending_requests.elements)))
responses_complete_example =
    responses_complete single_stream ticked 0 Kind.reading (replicate 4 7) fresh ticked_reached
      first_open (inl refl)
