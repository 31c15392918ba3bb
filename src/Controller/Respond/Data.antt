-- ===== src/Controller/Respond/Data.antt =====
-- The bytes that writes and reads move (memoryControllerKG.cc, `handleMemResponse`, `writeData`
-- and `readData`).
use sst_pim.Prelude.{
  ℕ, ◌+◌, ◌-◌, ◌≡◌, ◌<◌, refl, subst, ◌∙◌, arith, true, false, ◌&&◌, some, List, [], ◌∷◌, ◌++◌,
  length, take-all, get_or, get_or_ext, leb, ltb, ok,
}
use sst_pim.Event.{Command, Flags, MemEvent}
use sst_pim.Memory.{Backing}
use sst_pim.Controller.{Platform, Controller, find_event, erase_event}
use sst_pim.Controller.Respond.{
  set_sized, write_data, read_data, set_global, perform_write, perform_read, deliver, respond,
  handle_mem_response,
}

within_true : (a i n : ℕ) → i < n → (leb a (a + i) && ltb (a + i) (a + n)) ≡ true
within_true a i n h = ground arith

within_offset : (a i : ℕ) → a + i - a ≡ i
within_offset a i = omega arith

-- What was set at an address is what is got from it.
byte_of_set :
    (b : Backing) (s : b.Store) (a : ℕ) (bs : List ℕ) (i : ℕ)
    → i < length bs
    → get_or (b.get (b.set s a bs) a (length bs)) i 0 ≡ get_or bs i 0
byte_of_set b s a bs i h =
    b.get_or-get (b.set s a bs) a (length bs) i h
    ∙ b.byte-set s a bs (a + i)
    ∙ rw (within_true a i (length bs) h, within_offset a i) refl

pub get-set :
    (b : Backing) (s : b.Store) (a : ℕ) (bs : List ℕ) → b.get (b.set s a bs) a (length bs) ≡ bs
get-set b s a bs =
    get_or_ext 0 (b.get (b.set s a bs) a (length bs)) bs (b.length-get _ a (length bs))
      λ i h. byte_of_set b s a bs i (subst (λ n. i < n) (b.length-get _ a (length bs)) h)

module _ (pf : Platform) where
  -- A host's write and a host's uncached read of the same bytes, both to memory.
  pub record IsPair (c : Controller pf) (w r : MemEvent) : Type 0 where
    pub backed : c.has_backing ≡ true
    pub is_write : w.cmd ≡ Command.write
    pub sized : w.size ≡ length w.payload
    pub is_read : r.cmd ≡ Command.get_s
    pub ordinary : (w.flags.mmio ≡ false) × (r.flags.mmio ≡ false)
    pub host : (w.flags.pim ≡ false) × (r.flags.pim ≡ false)
    pub answered : (w.flags.noresponse ≡ false) × (r.flags.noresponse ≡ false)
    pub uncached : r.flags.noncacheable ≡ true
    pub same : (r.addr ≡ w.addr) × (r.size ≡ length w.payload)

  pub stored_write :
      (c : Controller pf) (w : MemEvent) (f : Flags)
      → c.has_backing ≡ true
      → w.cmd ≡ Command.write
      → w.size ≡ length w.payload
      → w.flags.mmio ≡ false
      → w.flags.noresponse ≡ false
      → respond pf c w f
        ≡ deliver pf
            (record c { store = pf.backing.set c.store w.addr w.payload })
            w
            (record w { cmd = Command.write_resp })
            f
  unfolding respond perform_write perform_read write_data set_sized
  stored_write c w f b k z m n = ground (arith, pf.write_response, take-all w.payload w.size z)

  pub respond-write :
      (c : Controller pf) (w : MemEvent) (f : Flags)
      → c.has_backing ≡ true
      → w.cmd ≡ Command.write
      → w.size ≡ length w.payload
      → w.flags.mmio ≡ false
      → w.flags.pim ≡ false
      → w.flags.noresponse ≡ false
      → respond pf c w f
        ≡ ok (record c {
          store = pf.backing.set c.store w.addr w.payload;
          sent =
              c.sent ++ (set_global pf c w (record w { cmd = Command.write_resp; flags = f }) ∷ []);
        })
  unfolding deliver set_global
  respond-write c w f b k z m h n = stored_write c w f b k z m n ∙ rw h refl

  pub respond_read :
      (c : Controller pf) (r : MemEvent) (f : Flags)
      → c.has_backing ≡ true
      → r.cmd ≡ Command.get_s
      → r.flags.mmio ≡ false
      → r.flags.noresponse ≡ false
      → r.flags.noncacheable ≡ true
      → respond pf c r f
        ≡ deliver pf c r
            (record r {
              cmd = Command.get_s_resp;
              payload = pf.backing.get c.store r.addr r.size;
              size = length (pf.backing.get c.store r.addr r.size);
            })
            f
  unfolding respond perform_write perform_read read_data
  respond_read c r f b k m n u = ground (arith, pf.get_s_response)

  -- Two outstanding events, a host's write whose size is that of its payload and its uncached read
  -- of the same bytes of memory, over a controller with a backing store: their
  -- two responses succeed in that order, what the controller sends is one response to each, with
  -- global addresses, and the second carries the bytes that were written.
  pub write_then_read :
      (c : Controller pf) (w r : MemEvent) (i j : ℕ) (f g : Flags)
      → IsPair c w r
      → find_event i c.outstanding_events ≡ some w
      → find_event j (erase_event i c.outstanding_events) ≡ some r
      → (c1 : Controller pf) × (handle_mem_response pf c i f ≡ ok c1)
        × ((c2 : Controller pf) × (handle_mem_response pf c1 j g ≡ ok c2)
            × (c2.sent
                ≡ (c.sent
                    ++ (set_global pf c w (record w { cmd = Command.write_resp; flags = f }) ∷ []))
                  ++ (set_global pf c r (record r {
                    cmd = Command.get_s_resp;
                    flags = g;
                    payload = w.payload;
                    size = length w.payload;
                  })
                      ∷ []))
            × (c2.outstanding_events ≡ erase_event j (erase_event i c.outstanding_events)))
  unfolding handle_mem_response deliver set_global
  write_then_read c w r i j f g p hw hr = (
    c1,
    rw hw (respond-write c0 w f p.backed p.is_write p.sized p.ordinary.0 p.host.0 p.answered.0),
    (
      c2,
      rw hr (
          respond_read c1' r g p.backed p.is_read p.ordinary.1 p.answered.1 p.uncached
          ∙ rw (p.host.1, p.same.0, p.same.1, get-set pf.backing c.store w.addr w.payload) refl),
      refl,
      refl,
    ),
  )
    where
      c0 : Controller pf
      c0 = record c { outstanding_events = erase_event i c.outstanding_events }

      c1 : Controller pf
      c1 = record c0 {
        store = pf.backing.set c.store w.addr w.payload;
        sent =
            c.sent ++ (set_global pf c w (record w { cmd = Command.write_resp; flags = f }) ∷ []);
      }

      c1' : Controller pf
      c1' = record c1 { outstanding_events = erase_event j c1.outstanding_events }

      c2 : Controller pf
      c2 = record c1' {
        sent =
            c1.sent
            ++ (set_global pf c r (record r {
              cmd = Command.get_s_resp;
              flags = g;
              payload = w.payload;
              size = length w.payload;
            })
                ∷ []);
      }
