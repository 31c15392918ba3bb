-- ===== src/Controller/Dram.antt =====
-- A DRAM request of the device on its whole way: PIMBackend.cc turns it into an event,
-- memoryControllerKG.cc sends that to the memory and takes the response back to the device.
use sst_pim.Prelude.{
  ℕ, ◌≡◌, refl, ap, ◌∙◌, arith, true, false, none, some, [], ◌∷◌, ◌++◌, length, Outcome, ok, fault,
  ◌>>=◌, inl, inr, if◌then◌else◌,
}
use sst_pim.Event.{Command, Flags, MemEvent, no_flags, mem_event}
use sst_pim.Tclpim.{Tclpim, DramRequest}
use sst_pim.Device
use sst_pim.Backend.{PimBackend, issue_dram_request}
use sst_pim.Backend.Pending.{AllBelow, issue_dram_request_lem, completion_roundtrip}
use sst_pim.Controller.{Platform, Controller, find_event, translate_to_local}
use sst_pim.Controller.Receive.{handle_pim_event, send_to_backend, to_local}
use sst_pim.Controller.Receive.Routing.{
  IsServed, marked, is_access, handle_event_sends, find-insert_event, erase-insert_event,
}
use sst_pim.Controller.Respond.{handle_mem_response, respond, deliver, set_global}
use sst_pim.Controller.Respond.Data.{respond_read, stored_write}

>>=-ok {ℓ} :
    {A B C : Type ℓ} (m : Outcome A) (f : A → B) (g : B → C)
    → ((m >>= λ a. ok (f a)) >>= λ b. ok (g b)) ≡ (m >>= λ a. ok (g (f a)))
>>=-ok (ok a) f g = refl
>>=-ok (fault e) f g = refl

module _ (pf : Platform) where
  -- The device in the controller's own region, with its self-test over, and a fresh identifier.
  pub record IsReady (c : Controller pf) (t : Tclpim) (r : DramRequest) : Type 0 where
    pub backed : c.has_backing ≡ true
    pub own : pf.contains c.region r.address ≡ true
    pub unused : find_event c.backend.next_id c.outstanding_events ≡ none
    pub one_node : c.backend.num_nodes ≡ 1
    pub tested : c.backend.self_check_done ≡ true
    pub device : c.backend.pimsim ≡ some t
    pub below : AllBelow c.backend.next_id c.backend.pending_pim_events

  -- The event that the backend hands to the controller.
  abbrev dram_event : ℕ → DramRequest → MemEvent
  dram_event i r =
      mem_event i (if r.is_write then Command.write else Command.get_s) r.address r.address
        r.payload (record no_flags { noncacheable = true })

  abbrev as_pim : MemEvent → MemEvent
  as_pim e = record e { flags = record e.flags { pim = true } }

  -- The event as the controller keeps it, and the controller with it.
  kept : Controller pf → DramRequest → MemEvent
  unfolding to_local marked
  kept c r = to_local pf c (marked (as_pim (dram_event c.backend.next_id r)))

  arrived : Controller pf → PimBackend → DramRequest → Controller pf
  unfolding send_to_backend kept
  arrived c b r = send_to_backend pf (record c { backend = b; clock_on = true }) (kept c r)

  served :
      (c : Controller pf) (b : PimBackend) (t : Tclpim) (r : DramRequest)
      → IsReady c t r
      → IsServed pf (record c { backend = b }) (as_pim (dram_event c.backend.next_id r))
  unfolding is_access
  served c b t r h = record {
    access = ground arith;
    fresh = h.unused;
    uncached = inl refl;
    own = inr h.own;
  }

  taken :
      (c : Controller pf) (b : PimBackend) (t : Tclpim) (r : DramRequest) (flags : Flags)
      → IsReady c t r
      → handle_mem_response pf (arrived c b r) c.backend.next_id flags
        ≡ respond pf
            (record (arrived c b r) { outstanding_events = c.outstanding_events })
            (kept c r)
            flags
  unfolding handle_mem_response arrived kept send_to_backend to_local marked
  taken c b t r flags h =
      rw
        (
          find-insert_event c.backend.next_id (kept c r) c.outstanding_events h.unused,
          erase-insert_event c.backend.next_id (kept c r) c.outstanding_events h.unused,
        )
        refl

  -- The response to the kept event calls the completion of the request.
  delivered :
      (c x : Controller pf) (b : PimBackend) (t : Tclpim) (r : DramRequest) (resp : MemEvent)
      (flags : Flags)
      → IsReady c t r
      → issue_dram_request c.backend r ≡ ok b
      → x.backend ≡ b
      → resp.id ≡ c.backend.next_id
      → deliver pf x (kept c r) resp flags ≡ (
          Device.complete r.completion resp.payload t >>= λ t'. ok (record x {
            backend = record b {
              pimsim = some t';
              pending_pim_events = c.backend.pending_pim_events;
            };
          }))
  unfolding deliver kept to_local marked set_global
  delivered c x b t r resp flags h issued e i = rw e (
      ap (λ m. m >>= λ p. ok (record x { backend = p }))
        (completion_roundtrip c.backend b r
          (set_global pf x (kept c r) (record resp { flags = flags })) t h.below issued i h.tested
          h.device)
      ∙ >>=-ok (Device.complete r.completion resp.payload t) _ _)

  answered_read :
      (c : Controller pf) (b : PimBackend) (t : Tclpim) (r : DramRequest) (flags : Flags)
      → IsReady c t r
      → r.is_write ≡ false
      → issue_dram_request c.backend r ≡ ok b
      → respond pf
          (record (arrived c b r) { outstanding_events = c.outstanding_events })
          (kept c r)
          flags
        ≡ (Device.complete r.completion
              (pf.backing.get c.store
                (translate_to_local c.region c.private_mem_offset r.address)
                (length r.payload))
              t
            >>= λ t'. ok (record (arrived c b r) {
              outstanding_events = c.outstanding_events;
              store = c.store;
              backend = record b {
                pimsim = some t';
                pending_pim_events = c.backend.pending_pim_events;
              };
            }))
  unfolding arrived send_to_backend kept to_local marked
  answered_read c b t r flags h w issued =
      respond_read pf (record (arrived c b r) { outstanding_events = c.outstanding_events })
        (kept c r) flags h.backed (ground arith) refl refl refl
      ∙ delivered c _ b t r _ flags h issued refl refl

  -- A read request of the device reaches the memory once, at the local address, and the response
  -- calls the request's completion with the bytes that the store has there; what waits in the
  -- controller and in the backend is then as it was before the request.
  pub device_read :
      (c : Controller pf) (t : Tclpim) (r : DramRequest) (flags : Flags)
      → IsReady c t r
      → r.is_write ≡ false
      → (b : PimBackend) × (issue_dram_request c.backend r ≡ ok b)
        × ((e : MemEvent) × (b.injected ≡ c.backend.injected ++ (e ∷ []))
            × ((c1 : Controller pf) × (handle_pim_event pf (record c { backend = b }) e ≡ ok c1)
                × (handle_mem_response pf c1 e.id flags ≡ (
                    Device.complete r.completion
                      (pf.backing.get c.store
                        (translate_to_local c.region c.private_mem_offset r.address)
                        (length r.payload))
                      t
                    >>= λ t'. ok (record c1 {
                      outstanding_events = c.outstanding_events;
                      store = c.store;
                      backend = record b {
                        pimsim = some t';
                        pending_pim_events = c.backend.pending_pim_events;
                      };
                    })))))
  unfolding handle_pim_event arrived kept
  device_read c t r flags h w =
      let (b, issued, events, found, newer) =
        issue_dram_request_lem c.backend r h.one_node h.below in
      let e = dram_event c.backend.next_id r in
      (
        b,
        issued,
        (
          e,
          events,
          (
            arrived c b r,
            handle_event_sends pf (record c { backend = b }) (as_pim e) (served c b t r h),
            taken c b t r flags h ∙ answered_read c b t r flags h w issued,
          ),
        ),
      )

  answered_write :
      (c : Controller pf) (b : PimBackend) (t : Tclpim) (r : DramRequest) (flags : Flags)
      → IsReady c t r
      → r.is_write ≡ true
      → issue_dram_request c.backend r ≡ ok b
      → respond pf
          (record (arrived c b r) { outstanding_events = c.outstanding_events })
          (kept c r)
          flags
        ≡ (Device.complete r.completion r.payload t >>= λ t'. ok (record (arrived c b r) {
          outstanding_events = c.outstanding_events;
          store =
              pf.backing.set c.store
                (translate_to_local c.region c.private_mem_offset r.address)
                r.payload;
          backend = record b {
            pimsim = some t';
            pending_pim_events = c.backend.pending_pim_events;
          };
        }))
  unfolding arrived send_to_backend kept to_local marked
  answered_write c b t r flags h w issued =
      stored_write pf (record (arrived c b r) { outstanding_events = c.outstanding_events })
        (kept c r) flags h.backed (ground arith) refl refl refl
      ∙ delivered c _ b t r _ flags h issued refl refl

  -- A write request of the device reaches the memory once, the response writes its bytes to the
  -- store at the local address and calls the request's completion; what waits in the controller and
  -- in the backend is then as it was before the request.
  pub device_write :
      (c : Controller pf) (t : Tclpim) (r : DramRequest) (flags : Flags)
      → IsReady c t r
      → r.is_write ≡ true
      → (b : PimBackend) × (issue_dram_request c.backend r ≡ ok b)
        × ((e : MemEvent) × (b.injected ≡ c.backend.injected ++ (e ∷ []))
            × ((c1 : Controller pf) × (handle_pim_event pf (record c { backend = b }) e ≡ ok c1)
                × (handle_mem_response pf c1 e.id flags ≡ (
                    Device.complete r.completion r.payload t >>= λ t'. ok (record c1 {
                      outstanding_events = c.outstanding_events;
                      store =
                          pf.backing.set c.store
                            (translate_to_local c.region c.private_mem_offset r.address)
                            r.payload;
                      backend = record b {
                        pimsim = some t';
                        pending_pim_events = c.backend.pending_pim_events;
                      };
                    })))))
  unfolding handle_pim_event arrived kept
  device_write c t r flags h w =
      let (b, issued, events, found, newer) =
        issue_dram_request_lem c.backend r h.one_node h.below in
      let e = dram_event c.backend.next_id r in
      (
        b,
        issued,
        (
          e,
          events,
          (
            arrived c b r,
            handle_event_sends pf (record c { backend = b }) (as_pim e) (served c b t r h),
            taken c b t r flags h ∙ answered_write c b t r flags h w issued,
          ),
        ),
      )
