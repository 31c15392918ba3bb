-- ===== src/AppGen/Cpu/Loads.antt =====
-- What the processor of mirandaCPU_kg.cc sends for an application's stores.
use sst_pim.Prelude.{
  ℕ, ◌+◌, ◌%◌, ◌^◌, ◌≡◌, ◌≤◌, ◌<◌, refl, arith, true, List, [], ◌∷◌, ◌++◌, to_bytes,
  of_bytes-to_bytes, ok,
}
use sst_pim.AppGen.Requests.{GeneratorRequest, memory_op_request, get_data-memory_op_request}
use sst_pim.AppGen.Pages.{map_address}
use sst_pim.AppGen.Cpu.{
  Cpu, StdMem, Response, issue_request, issue_whole, add_pending, decrement, new_cpu_request,
  insert_key, handle_response,
}

small : (a m : ℕ) → a < m → a % m ≡ a
small a m h = grind arith

-- The processor after a store.
stored : Cpu → GeneratorRequest → ℕ → List ℕ → Cpu
unfolding insert_key
stored c q p bytes = record c {
  requests_in_flight = insert_key c.next_id c.next_id c.requests_in_flight;
  cpu_requests = insert_key c.next_id (new_cpu_request c q.req_id 1) c.cpu_requests;
  sent = c.sent ++ (StdMem.write c.next_id p 8 bytes ∷ []);
  next_id = c.next_id + 1;
  requests_pending = add_pending q.operation 1 c.requests_pending;
}

-- An application's store of any 64-bit value inside a cache line of fewer than 2^64 bytes succeeds: one write goes to the
-- memory, of eight bytes at the mapped address, and a load response with those bytes gives the
-- application that value.
pub app_store :
    (c x : Cpu) (q : GeneratorRequest) (a p len d : ℕ)
    → c.use_app_link ≡ true
    → x.use_app_link ≡ true
    → q.operation ≡ memory_op_request true a len d
    → d < 2 ^ 64
    → a % c.cache_line + 8 ≤ c.cache_line
    → c.cache_line < 2 ^ 64
    → map_address c.mem_mgr a ≡ ok p
    → (bytes : List ℕ) × ((c' : Cpu) × (issue_request c q true a 8 ≡ ok c')
        × (c'.sent ≡ c.sent ++ (StdMem.write c.next_id p 8 bytes ∷ [])))
      × ((x' : Cpu) × (handle_response x (Response.read_resp bytes) ≡ ok x')
          × (x'.load_q ≡ x.load_q ++ (d ∷ [])))
unfolding issue_request issue_whole handle_response stored
app_store c x q a p len d u v o h l b m = (
  to_bytes 8 d,
  (
    stored c q p (to_bytes 8 d),
    rw (u, o, (get_data-memory_op_request true a len d h).0)
        (ground (arith, m, small (a % c.cache_line + 8) (2 ^ 64) (omega arith))),
    refl,
  ),
  (
    record x {
      requests_pending = record x.requests_pending { reads = decrement x.requests_pending.reads };
      load_q = x.load_q ++ (d ∷ []);
    },
    rw (v, of_bytes-to_bytes 8 d h) refl,
    refl,
  ),
)
