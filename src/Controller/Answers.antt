-- ===== src/Controller/Answers.antt =====
-- The memory of a board (Device/Board.antt) beside the backend (PIMBackend.cc) and the controller
-- (memoryControllerKG.cc) of a simulation.
use sst_pim.Prelude.{
  ◌≡◌, refl, ◌∙◌, arith, some, [], ◌∷◌, ◌++◌, length, ok, inl, inr, Bool-cases, outcome_cases,
}
use sst_pim.Event.{Flags, MemEvent}
use sst_pim.Tclpim.{Tclpim, DramRequest}
use sst_pim.Device
use sst_pim.Device.Board
use sst_pim.Backend.{PimBackend, issue_dram_request}
use sst_pim.Controller.{Platform, Controller, translate_to_local}
use sst_pim.Controller.Receive.{handle_pim_event}
use sst_pim.Controller.Respond.{handle_mem_response}
use sst_pim.Controller.Dram.{IsReady, device_read, device_write}

module _ (pf : Platform) where
  -- A request of the device on its whole way, from the callback to the response, ends in this
  -- controller: `c1` has the event, and `c2` has had the response.
  abbrev pub Answered : Controller pf → DramRequest → Flags → Controller pf → Type 0
  Answered c r flags c2 =
      (b : PimBackend) × (e : MemEvent) × (c1 : Controller pf) × (issue_dram_request c.backend r
        ≡ ok b)
      × (b.injected ≡ c.backend.injected ++ (e ∷ []))
      × (handle_pim_event pf (record c { backend = b }) e ≡ ok c1)
      × (handle_mem_response pf c1 e.id flags ≡ ok c2)

  -- A controller that is ready for a request of the device, whose address is the local one, and a
  -- board with the same device and the same store. If the board's memory answers the request, then
  -- the request goes its whole way through the backend and the controller, and ends with the device
  -- and the store that the board has; the events and the completions that wait are as before.
  pub answer-Answered :
      (c : Controller pf) (t : Tclpim) (r : DramRequest) (flags : Flags)
      (bd : Board.Board pf.backing)
      → IsReady pf c t r
      → translate_to_local c.region c.private_mem_offset r.address ≡ r.address
      → Board.answer pf.backing r (record { device = t; store = c.store }) ≡ ok bd
      → (c2 : Controller pf) × Answered c r flags c2
        × (c2.backend.pimsim ≡ some bd.device)
        × (c2.store ≡ bd.store)
        × (c2.outstanding_events ≡ c.outstanding_events)
        × (c2.backend.pending_pim_events ≡ c.backend.pending_pim_events)
  unfolding Board.answer
  answer-Answered c t r flags bd h l a = elim (Bool-cases r.is_write) [
    | inl w ↦ elim (outcome_cases (Device.complete r.completion r.payload t)) [
      | inl (t', g) ↦
          let (b, i, (e, j, (c1, k, m))) = device_write pf c t r flags h w in
          let z : bd ≡ record { device = t'; store = pf.backing.set c.store r.address r.payload } =
            ground (arith, a, w, g) in
          (
            record c1 {
              outstanding_events = c.outstanding_events;
              store = pf.backing.set c.store r.address r.payload;
              backend = record b {
                pimsim = some t';
                pending_pim_events = c.backend.pending_pim_events;
              };
            },
            (b, e, c1, i, j, k, m ∙ rw (g, l) refl),
            rw z refl,
            rw z refl,
            refl,
            refl,
          )
      | inr (x, g) ↦ absurd (ground (arith, a, w, g))
    ]
    | inr w ↦
        elim (outcome_cases
          (Device.complete r.completion (pf.backing.get c.store r.address (length r.payload)) t)) [
            | inl (t', g) ↦
                let (b, i, (e, j, (c1, k, m))) = device_read pf c t r flags h w in
                let z : bd ≡ record { device = t'; store = c.store } = ground (arith, a, w, g) in
                (
                  record c1 {
                    outstanding_events = c.outstanding_events;
                    store = c.store;
                    backend = record b {
                      pimsim = some t';
                      pending_pim_events = c.backend.pending_pim_events;
                    };
                  },
                  (b, e, c1, i, j, k, m ∙ rw (l, g) refl),
                  rw z refl,
                  rw z refl,
                  refl,
                  refl,
                )
            | inr (x, g) ↦ absurd (ground (arith, a, w, g))
          ]
  ]
