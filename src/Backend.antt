-- ===== src/Backend.antt =====
-- sstcomp/PIMBackend/PIMBackend.h and PIMBackend.cc: the backend that holds the PIM device. It
-- turns the device's DRAM requests into events for the memory controller, and hands the responses
-- to the completions that wait for them. A call of `m_pimRequest` is an event in `injected`, in
-- order; the controller takes them from there (Controller.antt).
use sst_pim.Prelude.{
  ℕ, ◌+◌, ◌*◌, ◌==◌, leb, ltb, not, Bool, true, false, ◌&&◌, Option, none, some, List, [], ◌∷◌,
  ◌++◌, length, resize, replicate, of_bytes, ◌||◌, if◌then◌else◌, Outcome, ok, fault, check,
  of_option, assertion, fatal, out_of_range, null_pointer, ◌>>=◌, ◌>>◌,
}
use sst_pim.Pimdef.{sram_base}
use sst_pim.Event.{Command, MemEvent, Flags, no_flags, mem_event, set_payload}
use sst_pim.Tclpim
use sst_pim.Tclpim.{Tclpim, DramRequest, Completion}
use sst_pim.Device
pub mod Delay
pub mod Pending
pub mod Mmio
pub mod Construct

pub record PimBackend : Type 0 where
  pub pimsim : Option Tclpim
  pub num_nodes : ℕ
  pub init_dram_done : Bool
  pub self_check_done : Bool
  pub buffer : List ℕ
  pub spd_base : ℕ
  pub pending_pim_events : List (ℕ × Completion)
  pub injected : List MemEvent
  pub next_id : ℕ  -- `generateUniqueId` of the events

-- The members after the constructor with a device or none.
unfoldable pub new_backend : Option Tclpim → ℕ → PimBackend
new_backend p nodes = record {
  pimsim = p;
  num_nodes = nodes;
  init_dram_done = false;
  self_check_done = false;
  buffer = replicate 8 0;
  spd_base = sram_base;
  pending_pim_events = [];
  injected = [];
  next_id = 0;
}

-- `std::map::insert`: an entry that is there stays.
unfoldable pub insert_pending : ℕ → Completion → List (ℕ × Completion) → List (ℕ × Completion)
insert_pending i c [] = (i, c) ∷ []
insert_pending i c ((j, e) ∷ m) = if i == j then (j, e) ∷ m else (j, e) ∷ insert_pending i c m

unfoldable pub find_pending : ℕ → List (ℕ × Completion) → Option Completion
find_pending i [] = none
find_pending i ((j, e) ∷ m) = if i == j then some e else find_pending i m

unfoldable pub erase_pending : ℕ → List (ℕ × Completion) → List (ℕ × Completion)
erase_pending i [] = []
erase_pending i ((j, e) ∷ m) = if i == j then m else (j, e) ∷ erase_pending i m

-- `m_pimRequest(new MemEvent(…))`
unfoldable pub inject : PimBackend → Command → ℕ → List ℕ → Flags → PimBackend
inject p c a d f = record p {
  injected = p.injected ++ (mem_event p.next_id c a a d f ∷ []);
  next_id = p.next_id + 1;
}

-- `issueDRAMRequest`
unfoldable pub issue_dram_request : PimBackend → DramRequest → Outcome PimBackend
unfolding inject insert_pending
issue_dram_request p r = do
  check (p.num_nodes == 1) assertion
  let c = if r.is_write then Command.write else Command.get_s
  let p' = inject p c r.address r.payload (record no_flags { noncacheable = true })
  ok (record p' { pending_pim_events = insert_pending p.next_id r.completion p.pending_pim_events })

-- The calls of the callback that one clock of the device made, in order.
unfoldable pub issue_all : PimBackend → List DramRequest → Outcome PimBackend
unfolding issue_dram_request
issue_all p [] = ok p
issue_all p (r ∷ rs) = issue_dram_request p r >>= λ p'. issue_all p' rs

-- The self-test at the first clock: a write and a read of eight bytes.
abbrev pub self_test_data : List ℕ
self_test_data = 0x10 ∷ 0x32 ∷ 0x54 ∷ 0x76 ∷ 0x98 ∷ 0xba ∷ 0xdc ∷ 0xfe ∷ []

unfoldable pub self_test : PimBackend → PimBackend
unfolding inject
self_test p =
    let w =
      inject (record p { init_dram_done = true }) Command.write (p.spd_base + 64) self_test_data
        (record no_flags { noncacheable = true; noresponse = true }) in
    inject w Command.get_s (p.spd_base + 64) (replicate 8 0)
      (record no_flags { noncacheable = true })

-- The device's part of the clock, with what it returns.
unfoldable pub clock_pim : PimBackend → ℕ → Option Tclpim → Outcome (PimBackend × Bool)
unfolding issue_all
clock_pim p c none = ok (p, false)
clock_pim p c (some t) = Device.clock c t >>= λ (t', u).
    issue_all (record p { pimsim = some (record t' { issued = [] }) }) t'.issued >>= λ p'.
    ok (p', u)

abbrev pub is_some {ℓ} : {A : Type ℓ} → Option A → Bool
is_some none = false
is_some (some a) = true

-- `clock`; `unclock_backend` is what the nested backend's clock returns.
unfoldable pub clock : PimBackend → ℕ → Bool → Outcome (PimBackend × Bool)
unfolding clock_pim self_test
clock p c unclock_backend = clock_pim p c p.pimsim >>= λ (p', u).
    ok (
      if is_some p'.pimsim && not p'.init_dram_done then self_test p' else p',
      u && unclock_backend,
    )

abbrev pub is_get_s_resp : Command → Bool
is_get_s_resp Command.get_s_resp = true
is_get_s_resp _ = false

-- The first completion is the self-test's: a read response must hold the test data.
unfoldable pub self_check : PimBackend → MemEvent → Outcome PimBackend
self_check p e = do
  check (not (is_get_s_resp e.cmd) || leb (length e.payload) 8) out_of_range
  let payload = if is_get_s_resp e.cmd then of_bytes e.payload else 0
  check (payload == 0xfedcba9876543210) fatal
  ok (record p { self_check_done = true })

-- The completion that waits for an event, called with its payload, and its entry erased.
unfoldable pub finish_pending : PimBackend → MemEvent → Outcome PimBackend
unfolding find_pending erase_pending
finish_pending p e = do
  c ← of_option fatal (find_pending e.id p.pending_pim_events)
  t ← of_option null_pointer p.pimsim
  t' ← Device.complete c e.payload t
  ok (record p { pimsim = some t'; pending_pim_events = erase_pending e.id p.pending_pim_events })

-- `handlePIMCompletion`
unfoldable pub handle_pim_completion : PimBackend → MemEvent → Outcome PimBackend
unfolding self_check finish_pending
handle_pim_completion p e = if p.self_check_done then finish_pending p e else self_check p e

-- `handleMMIOReadCompletion`: the event gets the bytes that the device delivers.
unfoldable pub handle_mmio_read_completion : PimBackend → MemEvent → Outcome (PimBackend × MemEvent)
handle_mmio_read_completion p e = do
  t ← of_option assertion p.pimsim
  b ← Tclpim.read t e.addr e.size (resize p.buffer e.size 0)
  ok (record p { buffer = b }, set_payload e b)

-- The call of the device in `handleMMIOWriteCompletion`.
unfoldable pub mmio_write : PimBackend → MemEvent → Outcome PimBackend
mmio_write p e = do
  t ← of_option null_pointer p.pimsim
  t' ← Tclpim.write t e.addr e.size p.buffer
  ok (record p { pimsim = some t' })

-- `handleMMIOWriteCompletion`: only writes of eight bytes reach the device.
unfoldable pub handle_mmio_write_completion : PimBackend → MemEvent → Outcome PimBackend
unfolding mmio_write
handle_mmio_write_completion p e =
    let p' = record p { buffer = e.payload } in if e.size == 8 then mmio_write p' e else ok p'
