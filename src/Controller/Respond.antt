-- ===== src/Controller/Respond.antt =====
-- memoryControllerKG.cc: the responses of the memory's backend, and the accesses of the backing
-- store that they make.
use sst_pim.Prelude.{
  ℕ, zero, suc, ◌+◌, leb, take, length, undefined, Bool, true, false, not, ◌&&◌, ◌||◌, Option, none,
  some, List, [], ◌∷◌, ◌++◌, replicate, if◌then◌else◌, Outcome, ok, fault, check, of_option,
  assertion, fatal, ◌>>=◌, ◌>>◌,
}
use sst_pim.Event.{Command, Flags, MemEvent, set_payload}
use sst_pim.Controller.{Platform, Controller, translate_to_global, find_event, erase_event}
use sst_pim.Controller.Receive.{is_custom}
use sst_pim.Backend
pub mod Data
pub mod Registers

module _ (pf : Platform) where
  abbrev pub is_put_m : Command → Bool
  is_put_m Command.put_m = true
  is_put_m _ = false

  abbrev pub is_write : Command → Bool
  is_write Command.write = true
  is_write _ = false

  abbrev pub is_read_response : Command → Bool
  is_read_response Command.get_s_resp = true
  is_read_response Command.get_x_resp = true
  is_read_response _ = false

  -- `backing_->set( addr, event->getSize(), event->getPayload() )`: as many bytes of the payload as
  -- the size says. To read past the payload is undefined.
  unfoldable pub set_sized : Controller pf → ℕ → MemEvent → Outcome (Controller pf)
  set_sized c a e = do
    check (leb e.size (length e.payload)) undefined
    ok (record c { store = pf.backing.set c.store a (take e.size e.payload) })

  -- `writeData( MemEvent* )`
  unfoldable pub write_data : Controller pf → MemEvent → Outcome (Controller pf)
  unfolding set_sized
  write_data c e =
      if is_put_m e.cmd
      then set_sized c (if e.flags.noncacheable then e.addr else e.base_addr) e
      else if is_write e.cmd
      then set_sized c e.addr e
      else ok c

  -- `readData( MemEvent* )`
  unfoldable pub read_data : Controller pf → MemEvent → MemEvent
  read_data c e =
      let local_addr = if e.flags.noncacheable then e.addr else e.base_addr in
      set_payload e
        (if c.has_backing then pf.backing.get c.store local_addr e.size else replicate e.size 0)

  -- `setBaseAddr` and `setAddr` with what `translateToGlobal` gives for the addresses of `from`.
  unfoldable pub set_global : Controller pf → MemEvent → MemEvent → MemEvent
  set_global c from e =
      if from.addr_global
      then record e {
        base_addr = translate_to_global c.region c.private_mem_offset from.base_addr;
        addr = translate_to_global c.region c.private_mem_offset from.addr;
      }
      else e

  abbrev pub clear_mmio : MemEvent → MemEvent
  clear_mmio e = record e { flags = record e.flags { mmio = false } }

  -- The writes of `handleMemResponse`.
  unfoldable pub perform_write : Controller pf → MemEvent → Outcome (Controller pf × MemEvent)
  unfolding write_data set_global
  perform_write c e =
      if c.has_backing && (is_put_m e.cmd || is_write e.cmd)
      then if e.flags.mmio
        then (let e' = set_global c e (clear_mmio e) in
            Backend.handle_mmio_write_completion c.backend e' >>= λ b.
            ok (record c { backend = b }, e'))
        else (write_data c e >>= λ c'. ok (c', e))
      else ok (c, e)

  -- The reads, for the response to an event.
  unfoldable pub perform_read :
      Controller pf → MemEvent → MemEvent → Outcome (Controller pf × MemEvent)
  unfolding read_data set_global
  perform_read c e resp =
      let as_get_x = λ (r : MemEvent).
        if not r.flags.noncacheable then record r { cmd = Command.get_x_resp } else r in
      if is_read_response resp.cmd
      then if resp.flags.mmio
        then (Backend.handle_mmio_read_completion c.backend (set_global c e (clear_mmio resp))
            >>= λ (b, r). ok (record c { backend = b }, as_get_x r))
        else ok (c, as_get_x (read_data c resp))
      else ok (c, resp)

  -- The end of `handleMemResponse`: the response goes to the device or to the link.
  unfoldable pub deliver : Controller pf → MemEvent → MemEvent → Flags → Outcome (Controller pf)
  unfolding set_global
  deliver c e resp0 flags =
      let resp = set_global c e (record resp0 { flags = flags }) in
      if e.flags.pim
      then (Backend.handle_pim_completion c.backend resp >>= λ b. ok (record c { backend = b }))
      else ok (record c { sent = c.sent ++ (resp ∷ []) })

  -- `makeResponse` keeps what the record has but the command.
  abbrev pub make_response : MemEvent → MemEvent
  make_response e = record e { cmd = pf.response_command e.cmd }

  -- What follows the removal of the event from `outstandingEvents_`.
  unfoldable pub respond : Controller pf → MemEvent → Flags → Outcome (Controller pf)
  unfolding perform_write perform_read deliver
  respond c e flags =
      if is_custom pf e.cmd
      then fault assertion
      else perform_write c e >>= λ (c1, e1).
          (if e1.flags.noresponse
            then ok c1
            else (perform_read c1 e1 (make_response e1) >>= λ (c2, resp). deliver c2 e1 resp flags))

  -- `handleMemResponse`
  unfoldable pub handle_mem_response : Controller pf → ℕ → Flags → Outcome (Controller pf)
  unfolding respond find_event erase_event
  handle_mem_response c i flags = of_option fatal (find_event i c.outstanding_events) >>= λ e.
      respond (record c { outstanding_events = erase_event i c.outstanding_events }) e flags
