-- ===== src/AppGen/Cpu.antt =====
-- mirandaCPU_kg.cc and mirandaCPU_kg.h: the processor, which issues a generator's requests to the
-- memory and takes the responses. Statistics and output are not part of it. A request object that
-- two identifiers share, as the halves of a split request do, is an entry of `cpu_requests`, and
-- `requests_in_flight` maps an identifier to its key.
use sst_pim.Prelude.{
  ℕ, zero, suc, ◌+◌, ◌-◌, ◌*◌, ◌%◌, ◌^◌, ◌==◌, ltb, leb, Bool, true, false, not, ◌&&◌, ◌||◌, Option,
  none, some, List, [], ◌∷◌, ◌++◌, map, length, replicate, resize, if◌then◌else◌, to_bytes,
  of_bytes, Outcome, ok, fault, check, of_option, assertion, fatal, out_of_range, ◌>>=◌, ◌>>◌,
}
use sst_pim.Pimdef.{u64}
use sst_pim.AppGen.Requests.{
  GeneratorRequest, Operation, RequestQueue, get_data, satisfy_dependency, can_issue, erase,
}
use sst_pim.AppGen.Pages.{MemoryManager, map_address}
pub mod Loads
pub mod Maps
pub mod Books
pub mod Responses
pub mod Opens
pub mod Issue
pub mod Loop
pub mod History
pub mod Args
pub mod Configure

-- `CPURequest`
pub record CpuRequest : Type 0 where
  pub original_id : ℕ
  pub issue_time : ℕ
  pub outstanding_parts : ℕ

-- What goes out by `cache_link->send`.
pub data StdMem : Type 0 where
  read : ℕ → ℕ → ℕ → StdMem  -- identifier, address, length
  write : ℕ → ℕ → ℕ → List ℕ → StdMem  -- identifier, address, length, data
  custom : ℕ → ℕ → ℕ → StdMem  -- identifier, routing address, size

-- A response, by its class: `ReadResp` with its data, `WriteResp` and `CustomResp`.
pub data Response : Type 0 where
  read_resp : List ℕ → Response
  write_resp custom_resp : Response

-- A number for each of READ, WRITE and CUSTOM.
pub record Counts : Type 0 where
  pub reads : ℕ
  pub writes : ℕ
  pub customs : ℕ

pub record Cpu : Type 0 where
  pub mem_mgr : MemoryManager
  pub cache_line : ℕ
  pub use_app_link : Bool
  pub max_requests_pending : Counts
  pub req_max_per_cycle : ℕ
  pub max_op_lookup : ℕ
  pub requests_pending : Counts
  pub requests_in_flight : List (ℕ × ℕ)
  pub cpu_requests : List (ℕ × CpuRequest)
  pub pending_requests : RequestQueue
  pub load_q : List ℕ
  pub sent : List StdMem
  pub next_id : ℕ
  pub now : ℕ

-- `std::map` by key: `find`, `insert` and `erase`.
unfoldable pub find_key {ℓ} : {A : Type ℓ} → ℕ → List (ℕ × A) → Option A
find_key i [] = none
find_key i ((j, a) ∷ m) = if i == j then some a else find_key i m

unfoldable pub insert_key {ℓ} : {A : Type ℓ} → ℕ → A → List (ℕ × A) → List (ℕ × A)
insert_key i a [] = (i, a) ∷ []
insert_key i a ((j, b) ∷ m) = if i == j then (j, b) ∷ m else (j, b) ∷ insert_key i a m

unfoldable pub erase_key {ℓ} : {A : Type ℓ} → ℕ → List (ℕ × A) → List (ℕ × A)
erase_key i [] = []
erase_key i ((j, a) ∷ m) = if i == j then m else (j, a) ∷ erase_key i m

-- `new CPURequest(…)` at a fresh key, with its parts and its time.
abbrev pub new_cpu_request : Cpu → ℕ → ℕ → CpuRequest
new_cpu_request c original parts = record {
  original_id = original;
  issue_time = c.now;
  outstanding_parts = parts;
}

abbrev pub add_pending : Operation → ℕ → Counts → Counts
add_pending (Operation.memory_op false a n d) k p = record p { reads = p.reads + k }
add_pending (Operation.memory_op true a n d) k p = record p { writes = p.writes + k }
add_pending (Operation.custom_op a n) k p = record p { customs = p.customs + k }
add_pending Operation.fence_op k p = p

-- `issueCustomRequest`
unfoldable pub issue_custom_request : Cpu → GeneratorRequest → ℕ → ℕ → Cpu
unfolding insert_key
issue_custom_request c q a n = record c {
  requests_in_flight = insert_key c.next_id c.next_id c.requests_in_flight;
  cpu_requests = insert_key c.next_id (new_cpu_request c q.req_id 1) c.cpu_requests;
  sent = c.sent ++ (StdMem.custom c.next_id a n ∷ []);
  next_id = c.next_id + 1;
  requests_pending = add_pending q.operation 1 c.requests_pending;
}

-- The branch of `issueRequest` for a request that goes over the end of a cache line. `write_data` is
-- 0 there, since it asserts that there is no application.
unfoldable pub issue_split : Cpu → GeneratorRequest → Bool → ℕ → ℕ → Outcome Cpu
unfolding insert_key
issue_split c q is_write a n = do
  check (not c.use_app_link) assertion
  let lower_length = c.cache_line - a % c.cache_line
  let upper_length = n - lower_length
  lower ← map_address c.mem_mgr a
  upper ← map_address c.mem_mgr (u64 (lower - lower % c.cache_line + c.cache_line))
  let i = c.next_id
  let halves =
      if is_write
      then StdMem.write i lower lower_length (replicate lower_length 0)
        ∷ StdMem.write (i + 1) upper upper_length (resize (replicate lower_length 0) upper_length 0)
        ∷ []
      else StdMem.read i lower lower_length ∷ StdMem.read (i + 1) upper upper_length ∷ []
  ok (record c {
    requests_in_flight = insert_key (i + 1) i (insert_key i i c.requests_in_flight);
    cpu_requests = insert_key i (new_cpu_request c q.req_id 2) c.cpu_requests;
    sent = c.sent ++ halves;
    next_id = i + 2;
    requests_pending = add_pending q.operation 2 c.requests_pending;
  })

-- The branch for a request inside one cache line.
unfoldable pub issue_whole : Cpu → GeneratorRequest → Bool → ℕ → ℕ → ℕ → Outcome Cpu
unfolding insert_key
issue_whole c q is_write a n write_data = do
  p ← map_address c.mem_mgr a
  check (not (is_write && c.use_app_link) || (n == 8)) assertion
  let i = c.next_id
  let bytes = if c.use_app_link then to_bytes 8 write_data else replicate n 0
  ok (record c {
    requests_in_flight = insert_key i i c.requests_in_flight;
    cpu_requests = insert_key i (new_cpu_request c q.req_id 1) c.cpu_requests;
    sent = c.sent ++ ((if is_write then StdMem.write i p n bytes else StdMem.read i p n) ∷ []);
    next_id = i + 1;
    requests_pending = add_pending q.operation 1 c.requests_pending;
  })

-- `issueRequest`
unfoldable pub issue_request : Cpu → GeneratorRequest → Bool → ℕ → ℕ → Outcome Cpu
unfolding issue_split issue_whole
issue_request c q is_write a n = (if c.use_app_link then get_data q.operation else ok 0) >>= λ d.
    if ltb c.cache_line (u64 (a % c.cache_line + n))
    then issue_split c q is_write a n
    else issue_whole c q is_write a n d

-- A `uint32_t` that is decremented wraps.
abbrev pub decrement : ℕ → ℕ
decrement n = (n + 2 ^ 32 - 1) % 2 ^ 32

-- `StdMemHandler::handle`; an application gets the eight bytes of a load.
unfoldable pub handle_response : Cpu → Response → Outcome Cpu
handle_response c (Response.read_resp bytes) = do
  check (not c.use_app_link || (length bytes == 8)) assertion
  ok (record c {
    requests_pending = record c.requests_pending { reads = decrement c.requests_pending.reads };
    load_q = if c.use_app_link then c.load_q ++ (of_bytes bytes ∷ []) else c.load_q;
  })
handle_response c Response.write_resp = ok (record c {
  requests_pending = record c.requests_pending { writes = decrement c.requests_pending.writes };
})
handle_response c Response.custom_resp = ok (record c {
  requests_pending = record c.requests_pending { customs = decrement c.requests_pending.customs };
})

-- The end of `handleEvent`: a request whose parts are all there frees what waits for it.
unfoldable pub finish_part : Cpu → ℕ → CpuRequest → Cpu
unfolding insert_key erase_key
finish_part c key q =
    if q.outstanding_parts == 0
    then record c {
      cpu_requests = erase_key key c.cpu_requests;
      pending_requests = record c.pending_requests {
        elements = map (satisfy_dependency q.original_id) c.pending_requests.elements;
      };
    }
    else record c { cpu_requests = insert_key key q (erase_key key c.cpu_requests) }

-- `handleEvent`
unfoldable pub handle_event : Cpu → ℕ → Response → Outcome Cpu
unfolding find_key erase_key handle_response finish_part
handle_event c i resp = do
  key ← of_option fatal (find_key i c.requests_in_flight)
  q ← of_option fatal (find_key key c.cpu_requests)
  c' ← handle_response (record c { requests_in_flight = erase_key i c.requests_in_flight }) resp
  ok (finish_part c' key (record q { outstanding_parts = decrement q.outstanding_parts }))

-- What the loop of `clockTick` does with a request: it was issued, it waits, it was a fence that is
-- retired, or the loop ends.
pub data Verdict : Type 0 where
  issued waits retired stops : Verdict

unfoldable pub issue_step : Cpu → GeneratorRequest → Operation → Outcome (Cpu × Verdict)
unfolding issue_request issue_custom_request
issue_step c q Operation.fence_op =
    ok (c, if length c.requests_in_flight == 0 then Verdict.retired else Verdict.stops)
issue_step c q (Operation.custom_op a n) = ok (
    if ltb c.requests_pending.customs c.max_requests_pending.customs && can_issue q
    then (issue_custom_request c q a n, Verdict.issued)
    else (c, Verdict.waits))
issue_step c q (Operation.memory_op w a n d) =
    if not (
      if w
      then ltb c.requests_pending.writes c.max_requests_pending.writes
      else ltb c.requests_pending.reads c.max_requests_pending.reads)
    then ok (c, Verdict.stops)
    else if can_issue q
    then (issue_request c q w a n >>= λ c'. ok (c', Verdict.issued))
    else ok (c, Verdict.waits)

-- The loop of `clockTick` from index `i` on: the requests issued so far and the indices to erase.
unfoldable pub issue_loop : List GeneratorRequest → ℕ → ℕ → List ℕ → Cpu → Outcome (Cpu × List ℕ)
unfolding issue_step
issue_loop [] i n dels c = ok (c, dels)
issue_loop (q ∷ qs) i n dels c =
    if (n == c.req_max_per_cycle) || (i == c.max_op_lookup)
    then ok (c, dels)
    else (issue_step c q q.operation >>= λ (c', v). elim v [
      | Verdict.issued ↦ issue_loop qs (i + 1) (n + 1) (dels ++ (i ∷ [])) c'
      | Verdict.waits ↦ issue_loop qs (i + 1) n dels c'
      | Verdict.retired ↦ ok (c', dels ++ (i ∷ []))
      | Verdict.stops ↦ ok (c', dels)
    ])

-- The issue part of `clockTick`.
unfoldable pub issue_pending : Cpu → Outcome Cpu
unfolding issue_loop
issue_pending c = do
  (c', dels) ← issue_loop c.pending_requests.elements 0 0 [] c
  ok (record c' { pending_requests = erase c'.pending_requests dels })

-- `RequestGenerator`, the interface of the generators.
pub record Generator : Type 1 where
  pub State : Type 0
  pub is_finished : State → Bool
  pub generate : State → RequestQueue → Outcome (State × RequestQueue)

module _ (g : Generator) where
  -- The loop that fills the window of the processor: at most `n` more calls.
  unfoldable pub generate_loop :
      ℕ → Bool → g.State → RequestQueue → Outcome (g.State × RequestQueue)
  generate_loop zero held s q = ok (s, q)
  generate_loop (suc n) held s q =
      if g.is_finished s
      then ok (s, q)
      else ((if held then ok (s, q) else g.generate s q) >>= λ (s', q'). generate_loop n held s' q')

  abbrev pub is_idle : Cpu → Bool
  is_idle c =
      (length c.pending_requests.elements == 0)
      && (c.requests_pending.reads == 0)
      && (c.requests_pending.writes == 0)
      && (c.requests_pending.customs == 0)

  -- `clockTick` with no further generator waiting; it returns whether the processor is done.
  unfoldable pub clock_tick : Cpu → g.State → Outcome (Cpu × g.State × Bool)
  unfolding generate_loop issue_pending
  clock_tick c s =
      if g.is_finished s && is_idle c
      then ok (c, s, true)
      else (generate_loop (c.max_op_lookup - length c.pending_requests.elements)
            (c.use_app_link && not (c.requests_pending.reads == 0)) s c.pending_requests
          >>= λ (s', q).
              issue_pending (record c { pending_requests = q }) >>= λ c'. ok (c', s', false))
