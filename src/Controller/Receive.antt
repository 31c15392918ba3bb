-- ===== src/Controller/Receive.antt =====
-- memoryControllerKG.cc and PIMMemController.cc: the handlers of events that arrive at the
-- controller. The calls of listeners, of `out` and of the links' clocks are not part of it.
use sst_pim.Prelude.{
  ℕ, ◌+◌, ◌==◌, Bool, true, false, not, ◌&&◌, List, [], ◌∷◌, ◌++◌, length, if◌then◌else◌, Outcome,
  ok, fault, check, assertion, fatal, ◌>>=◌, ◌>>◌,
}
use sst_pim.Event.{Command, Flags, MemEvent, no_flags, mem_event}
use sst_pim.Decoder.{decode}
use sst_pim.Controller.{Platform, Controller, translate_to_local, insert_event}
use sst_pim.Backend
pub mod Routing

module _ (pf : Platform) where
  -- `outstandingEvents_.insert` and `memBackendConvertor_->handleMemEvent`.
  unfoldable pub send_to_backend : Controller pf → MemEvent → Controller pf
  unfolding insert_event
  send_to_backend c e = record c {
    outstanding_events = insert_event e.id e c.outstanding_events;
    to_convertor = c.to_convertor ++ (e ∷ []);
  }

  -- `turnClockOn`
  abbrev pub turn_clock_on : Controller pf → Controller pf
  turn_clock_on c = record c { clock_on = true }

  -- `clock`, on what the clocks of the links and of the convertor return.
  unfoldable pub clock : Controller pf → Bool → Bool → Bool → Controller pf × Bool
  clock c unclock_link unclock_flink unclock_back =
      if unclock_link && unclock_flink && unclock_back
      then (record c { clock_on = false }, true)
      else (c, false)

  -- `handleCustomEvent`
  unfoldable pub handle_custom_event : Controller pf → MemEvent → Outcome (Controller pf)
  unfolding send_to_backend
  handle_custom_event c e = do check c.has_custom_handler fatal; ok (send_to_backend c e)

  -- `setBaseAddr` and `setAddr` of an event with a global address.
  unfoldable pub to_local : Controller pf → MemEvent → MemEvent
  to_local c e =
      if e.addr_global
      then record e {
        base_addr = translate_to_local c.region c.private_mem_offset e.base_addr;
        addr = translate_to_local c.region c.private_mem_offset e.addr;
      }
      else e

  -- The `FlushLine` branch: dirty data goes to the backend first, as an event of its own.
  unfoldable pub handle_flush : Controller pf → MemEvent → Controller pf
  unfolding send_to_backend
  handle_flush c e =
      let flush = record e { cmd = Command.flush_line } in
      if length e.payload == 0
      then send_to_backend c flush
      else let put =
          mem_event c.backend.next_id Command.put_m e.base_addr e.base_addr e.payload
            (record no_flags { noresponse = true }) in
        let c' = record c { backend = record c.backend { next_id = c.backend.next_id + 1 } } in
        send_to_backend (send_to_backend c' put) flush

  -- The `switch` on the command.
  unfoldable pub dispatch : Controller pf → MemEvent → Command → Outcome (Controller pf)
  unfolding send_to_backend handle_flush
  dispatch c e Command.put_m =
      ok (send_to_backend c (record e { flags = record e.flags { noresponse = true } }))
  dispatch c e Command.get_s = ok (send_to_backend c e)
  dispatch c e Command.get_x = ok (send_to_backend c e)
  dispatch c e Command.get_sx = ok (send_to_backend c e)
  dispatch c e Command.write = ok (send_to_backend c e)
  dispatch c e Command.flush_line = ok (handle_flush c e)
  dispatch c e Command.flush_line_inv = ok (handle_flush c e)
  dispatch c e Command.put_s = ok c
  dispatch c e Command.put_e = ok c
  dispatch c e _ = fault fatal

  abbrev pub is_custom : Command → Bool
  is_custom Command.custom_req = true
  is_custom _ = false

  abbrev pub is_remote_response : Command → Bool
  is_remote_response Command.write_resp = true
  is_remote_response Command.get_s_resp = true
  is_remote_response _ = false

  -- `MemControllerKG::handleEvent`
  unfoldable pub accept : Controller pf → MemEvent → Outcome (Controller pf)
  unfolding handle_custom_event dispatch to_local
  accept c0 e =
      let c = turn_clock_on c0 in
      if is_custom e.cmd
      then handle_custom_event c e
      else if e.flags.pim && not (pf.contains c.region e.base_addr)
      then fault fatal
      else if e.flags.remote && is_remote_response e.cmd
      then (Backend.handle_pim_completion c.backend e >>= λ b. ok (record c { backend = b }))
      else dispatch c (to_local c e) e.cmd

  -- `PIMMemController::handleEvent`
  unfoldable pub handle_event : Controller pf → MemEvent → Outcome (Controller pf)
  unfolding accept
  handle_event c e =
      if not e.flags.pim && (decode e.addr).is_io
      then check e.flags.noncacheable assertion
        >> accept c (record e { flags = record e.flags { mmio = true } })
      else accept c e

  -- `handlePIMEvent`
  unfoldable pub handle_pim_event : Controller pf → MemEvent → Outcome (Controller pf)
  unfolding handle_event
  handle_pim_event c e = handle_event c (record e { flags = record e.flags { pim = true } })
