-- ===== src/Backend/Mmio.antt =====
-- The MMIO completions of PIMBackend.cc: what a host's access does to the device.
use sst_pim.Prelude.{
  ℕ, List, ◌≡◌, ◌≢◌, refl, sym, subst, ◌∙◌, arith, some, length, resize, length-resize, ok,
}
use sst_pim.Event.{MemEvent, set_payload}
use sst_pim.Tclpim
use sst_pim.Tclpim.{Tclpim}
use sst_pim.Tclpim.Scratchpad.{Fits, read-write_sram}
use sst_pim.Backend.{
  PimBackend, handle_mmio_read_completion, mmio_write, handle_mmio_write_completion,
}

eight_bytes :
    (t : Tclpim) (a : ℕ) (payload buffer : List ℕ)
    → Fits t a 8
    → length payload ≡ 8
    → length buffer ≡ 8
    → (t' : Tclpim) × (Tclpim.write t a 8 payload ≡ ok t')
      × (Tclpim.read t' a 8 buffer ≡ ok payload)
eight_bytes t a payload buffer f l m =
    let x = read-write_sram t a payload buffer (subst (Fits t a) (sym l) f) (m ∙ sym l) in
    (
      x.0,
      subst (λ k. Tclpim.write t a k payload ≡ ok x.0) l x.1,
      subst (λ k. Tclpim.read x.0 a k buffer ≡ ok payload) l x.2,
    )

-- A host's write of eight bytes into the scratchpad succeeds, and its read of the same address
-- gets them as its payload.
pub mmio_roundtrip :
    (p : PimBackend) (t : Tclpim) (w r : MemEvent)
    → p.pimsim ≡ some t
    → w.size ≡ 8
    → length w.payload ≡ 8
    → Fits t w.addr 8
    → r.addr ≡ w.addr
    → r.size ≡ 8
    → (p' : PimBackend) × (handle_mmio_write_completion p w ≡ ok p')
      × ((q : PimBackend) × (handle_mmio_read_completion p' r ≡ ok (q, set_payload r w.payload)))
unfolding handle_mmio_write_completion mmio_write handle_mmio_read_completion
mmio_roundtrip p t w r d s l f a n =
    let (t', wrote, got) =
      eight_bytes t w.addr w.payload (resize w.payload 8 0) f l (length-resize w.payload 8 0) in
    (
      record p { buffer = w.payload; pimsim = some t' },
      rw (s, d) (ground (arith, wrote)),
      (record p { buffer = w.payload; pimsim = some t' }, rw (a, n) (ground (arith, got))),
    )

-- A host's write of any other size reaches no part of the device: it succeeds, with the device as
-- it was, also where the address is in the scratchpad.
pub mmio_write_dropped :
    (p : PimBackend) (w : MemEvent)
    → w.size ≢ 8
    → (p' : PimBackend) × (handle_mmio_write_completion p w ≡ ok p')
      × (p'.pimsim ≡ p.pimsim)
      × (p'.pending_pim_events ≡ p.pending_pim_events)
      × (p'.injected ≡ p.injected)
unfolding handle_mmio_write_completion
mmio_write_dropped p w h = (record p { buffer = w.payload }, ground arith, refl, refl, refl)
