-- ===== src/Controller/Respond/Registers.antt =====
-- The responses to a host's accesses of the device's registers and scratchpad (memoryControllerKG.cc,
-- `handleMemResponse`), and the addresses of the responses.
use sst_pim.Prelude.{
  ℕ, ◌≡◌, refl, arith, true, false, some, List, [], ◌∷◌, ◌++◌, length, resize, ok,
}
use sst_pim.Event.{Command, Flags, MemEvent}
use sst_pim.Tclpim
use sst_pim.Tclpim.{Tclpim}
use sst_pim.Backend
use sst_pim.Backend.{PimBackend}
use sst_pim.Controller.{Platform, Controller, translate_to_global, find_event, erase_event}
use sst_pim.Controller.Respond.{
  handle_mem_response, respond, perform_write, perform_read, deliver, set_global,
}

module _ (pf : Platform) where
  -- An event of a host, with a global address of its own and in the ranges of the device, that
  -- waits for the memory under an identifier.
  pub record IsOpen (c : Controller pf) (i : ℕ) (e : MemEvent) : Type 0 where
    pub found : find_event i c.outstanding_events ≡ some e
    pub global : e.addr_global ≡ true
    pub mmio : e.flags.mmio ≡ true
    pub from_host : e.flags.pim ≡ false
    pub answered : e.flags.noresponse ≡ false

  -- The global address of a local address.
  abbrev pub global_of : Controller pf → ℕ → ℕ
  global_of c a = translate_to_global c.region c.private_mem_offset a

  -- A host's write of eight bytes to the device, over a controller with a backing store: the device
  -- takes the bytes at the global address of the event, the backing store is as it was, the event is
  -- forgotten, and one response goes out. Its address is translated once more.
  pub mmio_write_response :
      (c : Controller pf) (i : ℕ) (e : MemEvent) (flags : Flags) (t t' : Tclpim)
      → IsOpen c i e
      → c.has_backing ≡ true
      → e.cmd ≡ Command.write
      → e.size ≡ 8
      → c.backend.pimsim ≡ some t
      → Tclpim.write t (global_of c e.addr) 8 e.payload ≡ ok t'
      → (c' : Controller pf) × (resp : MemEvent) × (handle_mem_response pf c i flags ≡ ok c')
        × (c'.backend.pimsim ≡ some t')
        × (c'.store ≡ c.store)
        × (c'.outstanding_events ≡ erase_event i c.outstanding_events)
        × (c'.sent ≡ c.sent ++ (resp ∷ []))
        × (resp.cmd ≡ Command.write_resp)
        × (resp.addr ≡ global_of c (global_of c e.addr))
  unfolding handle_mem_response respond perform_write perform_read deliver set_global
      Backend.handle_mmio_write_completion Backend.mmio_write
  mmio_write_response c i e flags t t' o b k z p w =
      let resp : MemEvent = record e {
        cmd = Command.write_resp;
        base_addr = global_of c (global_of c e.base_addr);
        addr = global_of c (global_of c e.addr);
        flags = flags;
      } in
      (
        record c {
          backend = record c.backend { pimsim = some t'; buffer = e.payload };
          outstanding_events = erase_event i c.outstanding_events;
          sent = c.sent ++ (resp ∷ []);
        },
        resp,
        rw o.found (ground (arith, o.global, o.mmio, o.from_host, o.answered, pf.write_response)),
        refl,
        refl,
        refl,
        refl,
        refl,
        refl,
      )

  -- A host's uncached read of the device: one response goes out, at the global address of the event,
  -- with the bytes that the device delivers there. The event is forgotten and the bytes stay in the
  -- backend's buffer; all else in the backend, the device included, and in the controller is as it
  -- was.
  pub mmio_read_response :
      (c : Controller pf) (i : ℕ) (e : MemEvent) (flags : Flags) (t : Tclpim) (bytes : List ℕ)
      → IsOpen c i e
      → e.cmd ≡ Command.get_s
      → e.flags.noncacheable ≡ true
      → c.backend.pimsim ≡ some t
      → Tclpim.read t (global_of c e.addr) e.size (resize c.backend.buffer e.size 0) ≡ ok bytes
      → (resp : MemEvent) × (handle_mem_response pf c i flags
          ≡ ok (record c {
            backend = record c.backend { buffer = bytes };
            outstanding_events = erase_event i c.outstanding_events;
            sent = c.sent ++ (resp ∷ []);
          }))
        × (resp.cmd ≡ Command.get_s_resp)
        × (resp.payload ≡ bytes)
        × (resp.addr ≡ global_of c e.addr)
  unfolding handle_mem_response respond perform_write perform_read deliver set_global
      Backend.handle_mmio_read_completion
  mmio_read_response c i e flags t bytes o k u p w =
      let resp : MemEvent = record e {
        cmd = Command.get_s_resp;
        base_addr = global_of c e.base_addr;
        addr = global_of c e.addr;
        size = length bytes;
        payload = bytes;
        flags = flags;
      } in
      (
        resp,
        rw o.found (ground (arith, o.global, o.mmio, o.from_host, o.answered, pf.get_s_response)),
        refl,
        refl,
        refl,
      )
