-- ===== src/Controller/Receive/Routing.antt =====
-- Where an arriving event goes (memoryControllerKG.cc and PIMMemController.cc, `handleEvent`).
use sst_pim.Prelude.{
  ℕ, ◌≡◌, refl, arith, Bool, true, false, not, ◌&&◌, ◌||◌, ◌⊎◌, none, some, List, [], ◌∷◌, ◌++◌, ok,
}
use sst_pim.Event.{Command, MemEvent}
use sst_pim.Decoder.{decode}
use sst_pim.Controller.{Platform, Controller, insert_event, find_event, erase_event}
use sst_pim.Controller.Receive.{
  handle_event, accept, dispatch, send_to_backend, to_local, is_remote_response, is_custom,
}

pub find-insert_event :
    (i : ℕ) (e : MemEvent) (m : List (ℕ × MemEvent))
    → find_event i m ≡ none
    → find_event i (insert_event i e m) ≡ some e
unfolding find_event insert_event
find-insert_event i e [] h = ground arith
find-insert_event i e ((j, f) ∷ m) h = ground (arith, find-insert_event i e m)

pub erase-insert_event :
    (i : ℕ) (e : MemEvent) (m : List (ℕ × MemEvent))
    → find_event i m ≡ none
    → erase_event i (insert_event i e m) ≡ m
unfolding find_event insert_event erase_event
erase-insert_event i e [] h = ground arith
erase-insert_event i e ((j, f) ∷ m) h = ground (arith, erase-insert_event i e m)

-- The commands that go to the backend as they are.
unfoldable pub is_access : Command → Bool
is_access Command.get_s = true
is_access Command.get_x = true
is_access Command.get_sx = true
is_access Command.write = true
is_access _ = false

-- An event as the controller marks it: MMIO where a host's address is in the device's ranges.
unfoldable pub marked : MemEvent → MemEvent
marked e = record e {
  flags = record e.flags { mmio = e.flags.mmio || (not e.flags.pim && (decode e.addr).is_io) };
}

module _ (pf : Platform) where
  -- What the controller asks of an access: an uncached one to the device's ranges, and one of the
  -- device to the controller's own region.
  pub record IsServed (c : Controller pf) (e : MemEvent) : Type 0 where
    pub access : is_access e.cmd ≡ true
    pub fresh : find_event e.id c.outstanding_events ≡ none
    pub uncached :
        (e.flags.pim ≡ true) ⊎ ((decode e.addr).is_io ≡ false) ⊎ (e.flags.noncacheable ≡ true)
    pub own : (e.flags.pim ≡ false) ⊎ (pf.contains c.region e.base_addr ≡ true)

  dispatch_access :
      (c : Controller pf) (e : MemEvent) (k : Command)
      → is_access k ≡ true
      → dispatch pf c e k ≡ ok (send_to_backend pf c e)
  unfolding dispatch is_access
  dispatch_access c e k h = ground arith

  pub to_local_id : (c : Controller pf) (e : MemEvent) → (to_local pf c e).id ≡ e.id
  unfolding to_local
  to_local_id c e = ground arith

  find-insert_local :
      (c : Controller pf) (e : MemEvent)
      → find_event e.id c.outstanding_events ≡ none
      → find_event e.id (insert_event (to_local pf c e).id (to_local pf c e) c.outstanding_events)
        ≡ some (to_local pf c e)
  unfolding to_local
  find-insert_local c e h =
      rw (to_local_id c e) (find-insert_event e.id (to_local pf c e) c.outstanding_events h)

  remote_access :
      (k : Command)
      → is_access k ≡ true
      → (is_remote_response pf k ≡ false) × (is_custom pf k ≡ false)
  unfolding is_access
  remote_access k h = ground arith

  pub handle_event_sends :
      (c : Controller pf) (e : MemEvent)
      → IsServed c e
      → handle_event pf c e
        ≡ ok (send_to_backend pf (record c { clock_on = true }) (to_local pf c (marked e)))
  unfolding handle_event accept marked
  handle_event_sends c e s = ground (
    arith,
    dispatch_access (record c { clock_on = true }) (to_local pf c (marked e)) e.cmd s.access,
    remote_access e.cmd s.access,
    s.uncached,
    s.own,
  )

  -- An access that the controller serves succeeds: the clock is on, the backend's convertor gets
  -- exactly one event, the marked one with local addresses, which is outstanding under its
  -- identifier, and the device, the store and the link are as before.
  pub handle_event-access :
      (c : Controller pf) (e : MemEvent)
      → IsServed c e
      → (c' : Controller pf) × (handle_event pf c e ≡ ok c')
        × (c'.to_convertor ≡ c.to_convertor ++ (to_local pf c (marked e) ∷ []))
        × (find_event e.id c'.outstanding_events ≡ some (to_local pf c (marked e)))
        × (c'.clock_on ≡ true)
        × (c'.backend ≡ c.backend)
        × (c'.store ≡ c.store)
        × (c'.sent ≡ c.sent)
  unfolding send_to_backend marked to_local
  handle_event-access c e s = (
    c',
    handle_event_sends c e s,
    refl,
    find-insert_local c1 (marked e) s.fresh,
    refl,
    refl,
    refl,
    refl,
  )
    where
      c1 : Controller pf
      c1 = record c { clock_on = true }

      l : MemEvent
      l = to_local pf c (marked e)

      c' : Controller pf
      c' = send_to_backend pf c1 l
