-- ===== src/Examples/Host.antt =====
-- The backend: requests of the device, its completions, MMIO accesses and the delay buffer.
use sst_pim.Prelude.{
  ◌≡◌, ◌<◌, refl, arith, true, false, [], ◌∷◌, some, none, fault, fatal, ok, ◌>>=◌,
}
use sst_pim.Event.{Command, MemEvent, no_flags, mem_event}
use sst_pim.Fsm.{DmaState}
use sst_pim.Tclpim.{DramRequest, copy_read}
use sst_pim.Device
use sst_pim.Backend.{
  PimBackend, issue_dram_request, inject, insert_pending, find_pending, self_test_data,
  handle_pim_completion,
}
use sst_pim.Backend.Pending.{completion_roundtrip, self_check_takes_any}
use sst_pim.Backend.Delay.{
  Req, DelayBuffer, History, empty, issue_request, handle_next_request, IsFair, History-IsFair,
  wakeup_handled,
}
use sst_pim.Examples.Data.{device, backend, event, eight}

abbrev request : DramRequest
request = record {
  address = 0x2000;
  payload = eight;
  is_write = false;
  completion = copy_read DmaState.write;
}

requested : PimBackend
unfolding inject insert_pending
requested =
    record (inject backend Command.get_s 0x2000 eight (record no_flags { noncacheable = true })) {
      pending_pim_events = (5, copy_read DmaState.write) ∷ [];
    }

issued_once : issue_dram_request backend request ≡ ok requested
unfolding issue_dram_request requested
issued_once = refl

completion_roundtrip_example :
    handle_pim_completion requested (event 5 Command.get_s_resp 0x2000 eight) ≡ (
      Device.complete request.completion eight device >>= λ t'.
      ok (record requested { pimsim = some t'; pending_pim_events = [] }))
completion_roundtrip_example =
    completion_roundtrip backend requested request (event 5 Command.get_s_resp 0x2000 eight) device
      tt issued_once refl refl refl

abbrev untested : PimBackend
untested = record backend { self_check_done = false }

abbrev test_answer : MemEvent
test_answer =
    event 9 Command.get_s_resp 0x0f000040
      (0x10 ∷ 0x32 ∷ 0x54 ∷ 0x76 ∷ 0x98 ∷ 0xba ∷ 0xdc ∷ 0xfe ∷ [])

abbrev unasked : PimBackend
unasked = record backend { self_check_done = false }

abbrev asked_early : PimBackend
asked_early = record unasked {
  pending_pim_events = (5, copy_read DmaState.write) ∷ [];
  injected =
      mem_event 5 Command.get_s 0x2000 0x2000 eight (record no_flags { noncacheable = true }) ∷ [];
  next_id = 6;
}

abbrev own_answer : MemEvent
own_answer = event 5 Command.get_s_resp 0x2000 self_test_data

issued_early : issue_dram_request unasked request ≡ ok asked_early
unfolding issue_dram_request
issued_early = refl

no_completion : find_pending 9 asked_early.pending_pim_events ≡ none
unfolding find_pending
no_completion = refl

self_check_takes_any_example :
    (p2 : PimBackend) × (handle_pim_completion asked_early own_answer ≡ ok p2)
    × (p2.pimsim ≡ some device)
    × (find_pending 5 p2.pending_pim_events ≡ some (copy_read DmaState.write))
    × (handle_pim_completion p2 test_answer ≡ fault fatal)
self_check_takes_any_example =
    self_check_takes_any unasked asked_early request own_answer test_answer tt refl issued_early
      refl refl refl no_completion

abbrev first : Req
first = record { id = 1; addr = 64; is_write = true; num_bytes = 8 }

abbrev second : Req
second = record { id = 2; addr = 128; is_write = false; num_bytes = 64 }

abbrev one_waiting : DelayBuffer
one_waiting = record { has_link = true; request_buffer = first ∷ []; wakeups = 1; accepted = [] }

abbrev two_waiting : DelayBuffer
two_waiting = record {
  has_link = true;
  request_buffer = first ∷ second ∷ [];
  wakeups = 2;
  accepted = [];
}

first_taken : issue_request (empty true) first false ≡ (one_waiting, true)
unfolding issue_request empty
first_taken = refl

second_taken : issue_request one_waiting second false ≡ (two_waiting, true)
unfolding issue_request
second_taken = refl

two_requests : History (first ∷ second ∷ []) two_waiting
two_requests =
    History.request second false second_taken
      (History.request first false first_taken (History.start true))

abbrev taken : DelayBuffer
taken = record { has_link = true; request_buffer = second ∷ []; wakeups = 1; accepted = first ∷ [] }

under_way : 0 < two_waiting.wakeups
under_way = omega arith

front_taken : handle_next_request two_waiting true ≡ ok taken
unfolding handle_next_request
front_taken = refl

History-IsFair_example : IsFair (first ∷ second ∷ []) taken
History-IsFair_example = History-IsFair (History.wakeup true under_way front_taken two_requests)

wakeup_handled_example : (b' : DelayBuffer) × (handle_next_request two_waiting false ≡ ok b')
wakeup_handled_example = wakeup_handled false two_requests under_way
