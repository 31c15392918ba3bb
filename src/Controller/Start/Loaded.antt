-- ===== src/Controller/Start/Loaded.antt =====
-- What the loader's data leaves in the memory (memoryControllerKG.cc, `init` and
-- `processInitEvent`), and which backing stores the constructor chooses.
use sst_pim.Prelude.{
  ℕ, ◌+◌, ◌-◌, ◌^◌, ◌≡◌, ◌≢◌, ◌≤◌, ◌<◌, ◌⊎◌, refl, ◌∙◌, arith, Bool, true, ltb, Option, value_or,
  none, some, List, [], ◌∷◌, ◌++◌, length, get_or, ok, Bool-cases, inl, inr, sym, ap, subst,
}
use mathlib.Core.List.{append-nil}
use sst_pim.Event.{Command, MemEvent}
use sst_pim.Controller.{MemRegion, Platform, Controller, translate_to_local}
use sst_pim.Controller.Setup.{adjust_region, process_init_event}
use sst_pim.Controller.Start.{
  Store, BackingParams, configured_store, check_mem_size, backing_type, size_bytes, store_of_type,
  mmap_store, process_all, init, BackingType,
}

module _ (pf : Platform) where
  abbrev local : Controller pf → MemEvent → ℕ
  local c e = translate_to_local c.region c.private_mem_offset e.addr

  -- The event writes, and its address passes the test.
  pub record IsLoaded (c : Controller pf) (e : MemEvent) : Type 0 where
    pub writes : e.cmd ≡ Command.write
    pub inside : pf.contains c.region (local c e) ≡ true
    pub backed : c.has_backing ≡ true

  -- The event does not write to this byte of the memory.
  abbrev pub Misses : Controller pf → ℕ → MemEvent → Type 0
  Misses c x e = (e.cmd ≢ Command.write) ⊎ ((x < local c e) ⊎ (local c e + length e.payload ≤ x))

  abbrev pub AllMiss : Controller pf → ℕ → List MemEvent → Type 0
  AllMiss c x [] = Unit {0}
  AllMiss c x (e ∷ es) = Misses c x e × AllMiss c x es

  -- The members that say where data goes.
  abbrev pub SamePlaces : Controller pf → Controller pf → Type 0
  SamePlaces c d =
      (d.region ≡ c.region)
      × (d.private_mem_offset ≡ c.private_mem_offset)
      × (d.has_backing ≡ c.has_backing)

  process-SamePlaces :
      (c : Controller pf) (e : MemEvent) → SamePlaces c (process_init_event pf c e e.cmd)
  unfolding process_init_event
  process-SamePlaces c e = ground arith

  process_all-SamePlaces :
      (c : Controller pf) (es : List MemEvent) → SamePlaces c (process_all pf c es)
  unfolding process_all
  process_all-SamePlaces c [] = (refl, refl, refl)
  process_all-SamePlaces c (e ∷ es) =
      let d = process_init_event pf c e e.cmd in
      let (r, o, b) = process-SamePlaces c e in
      let (r', o', b') = process_all-SamePlaces d es in (r' ∙ r, o' ∙ o, b' ∙ b)

  -- An event that misses a byte leaves it as it is.
  process-Misses :
      (c : Controller pf) (x : ℕ) (e : MemEvent)
      → Misses c x e
      → pf.backing.byte (process_init_event pf c e e.cmd).store x ≡ pf.backing.byte c.store x
  unfolding process_init_event
  process-Misses c x e h = ground (arith, pf.backing.byte-set c.store (local c e) e.payload x)

  -- An event that is loaded gives a byte its value.
  process-IsLoaded :
      (c : Controller pf) (x : ℕ) (e : MemEvent)
      → IsLoaded c e
      → local c e ≤ x
      → x < local c e + length e.payload
      → pf.backing.byte (process_init_event pf c e e.cmd).store x
        ≡ get_or e.payload (x - local c e) 0
  unfolding process_init_event
  process-IsLoaded c x e w l u = ground (arith, pf.backing.byte-set c.store (local c e) e.payload x)

  same-Misses :
      (c d : Controller pf) (x : ℕ) (e : MemEvent) → SamePlaces c d → Misses c x e → Misses d x e
  same-Misses c d x e (r, o, b) h = rw (r, o) h

  same-AllMiss :
      (c d : Controller pf) (x : ℕ) (es : List MemEvent)
      → SamePlaces c d
      → AllMiss c x es
      → AllMiss d x es
  same-AllMiss c d x [] s h = tt
  same-AllMiss c d x (e ∷ es) s (h, k) = (same-Misses c d x e s h, same-AllMiss c d x es s k)

  process_all-AllMiss :
      (c : Controller pf) (x : ℕ) (es : List MemEvent)
      → AllMiss c x es
      → pf.backing.byte (process_all pf c es).store x ≡ pf.backing.byte c.store x
  unfolding process_all
  process_all-AllMiss c x [] h = refl
  process_all-AllMiss c x (e ∷ es) (h, k) =
      let d = process_init_event pf c e e.cmd in
      process_all-AllMiss d x es (same-AllMiss c d x es (process-SamePlaces c e) k)
      ∙ process-Misses c x e h

  process_all-append :
      (c : Controller pf) (es fs : List MemEvent)
      → process_all pf c (es ++ fs) ≡ process_all pf (process_all pf c es) fs
  unfolding process_all
  process_all-append c [] fs = refl
  process_all-append c (e ∷ es) fs = process_all-append (process_init_event pf c e e.cmd) es fs

  -- The last event that writes a byte gives it its value.
  process_all-last :
      (c : Controller pf) (x : ℕ) (before after : List MemEvent) (e : MemEvent)
      → IsLoaded c e
      → local c e ≤ x
      → x < local c e + length e.payload
      → AllMiss c x after
      → pf.backing.byte (process_all pf c (before ++ e ∷ after)).store x
        ≡ get_or e.payload (x - local c e) 0
  unfolding process_all
  process_all-last c x before after e w l u h =
      let d = process_all pf c before in
      let s = process_all-SamePlaces c before in
      let (r, o, b) = s in
      let d' = process_init_event pf d e e.cmd in
      let w' : IsLoaded d e = record {
        writes = w.writes;
        inside = rw (r, o) w.inside;
        backed = b ∙ w.backed;
      } in
      ap (λ m. pf.backing.byte m.store x) (process_all-append c before (e ∷ after))
      ∙ process_all-AllMiss d' x after
          (same-AllMiss d d' x after (process-SamePlaces d e) (same-AllMiss c d x after s h))
      ∙ process-IsLoaded d x e w' (rw (r, o) l) (rw (r, o) u)
      ∙ rw (r, o) refl

  -- `init` at any phase, with what its link and its forward link have received: the region becomes
  -- that of the link, cut to the size of the memory. If, of all these events in their order, one
  -- writes a byte at an address that passes the test, and no later one writes that byte, then the
  -- memory holds the byte of that event.
  pub init-last :
      (c : Controller pf) (phase width : ℕ) (r : MemRegion) (received : List MemEvent)
      (forwarded : Option (List MemEvent)) (before after : List MemEvent) (e : MemEvent) (x : ℕ)
      → received ++ value_or [] forwarded ≡ before ++ e ∷ after
      → let c0 : Controller pf = record c { region = adjust_region r c.mem_size } in
        IsLoaded c0 e
        → local c0 e ≤ x
        → x < local c0 e + length e.payload
        → AllMiss c0 x after
        → let d = (init pf c phase width r received forwarded).0 in
          (d.region ≡ adjust_region r c.mem_size)
          × (pf.backing.byte d.store x ≡ get_or e.payload (x - local c0 e) 0)
  unfolding init process_all
  init-last c phase width r received none before after e x s w l u h =
      let c0 : Controller pf = record c { region = adjust_region r c.mem_size } in
      (
        (process_all-SamePlaces c0 received).0,
        ap (λ es. pf.backing.byte (process_all pf c0 es).store x) (sym (append-nil received) ∙ s)
            ∙ process_all-last c0 x before after e w l u h,
      )
  init-last c phase width r received (some es) before after e x s w l u h =
      let c0 : Controller pf = record c { region = adjust_region r c.mem_size } in
      (
        (process_all-SamePlaces (process_all pf c0 received) es).0
            ∙ (process_all-SamePlaces c0 received).0,
        ap (λ m. pf.backing.byte m.store x) (sym (process_all-append c0 received es))
            ∙ ap (λ fs. pf.backing.byte (process_all pf c0 fs).store x) s
            ∙ process_all-last c0 x before after e w l u h,
      )

-- What a backing store is for a memory of `mem_size` bytes: one that maps it, or one that allocates
-- in units no larger than it.
abbrev pub Fits : ℕ → Store → Type 0
Fits mem_size Store.absent = Unit {0}
Fits mem_size (Store.mapped n) = n ≡ mem_size
Fits mem_size (Store.allocated n) = n ≤ mem_size

Fits-ok : (m : ℕ) (s s' : Store) → ok s ≡ ok s' → Fits m s → Fits m s'
Fits-ok m s s' e f = let z : s ≡ s' = ground (arith, e) in subst (Fits m) z f

store_of_type-Fits :
    (k : BackingType) (thrown : Option ℕ) (named : Bool) (mem_size unit : ℕ) (s : Store)
    → unit ≤ mem_size
    → store_of_type k thrown named mem_size unit ≡ ok s
    → Fits mem_size s
unfolding store_of_type mmap_store
store_of_type-Fits BackingType.no_backing thrown named mem_size unit s h e =
    Fits-ok mem_size _ s e tt
store_of_type-Fits BackingType.mmap none named mem_size unit s h e = Fits-ok mem_size _ s e refl
store_of_type-Fits BackingType.mmap (some t) named mem_size unit s h e = ground arith
store_of_type-Fits BackingType.malloc thrown named mem_size unit s h e = Fits-ok mem_size _ s e h
store_of_type-Fits BackingType.unknown thrown named mem_size unit s h e = cc

-- The constructor's choice for any parameters: a store that it chooses fits the memory, which is
-- not empty, provided that `log2_of` rounds down.
pub configured_store-Fits :
    (log2_of : ℕ → ℕ) (p : BackingParams) (mem_size : ℕ) (s : Store)
    → ((n : ℕ) → 0 < n → 2 ^ log2_of n ≤ n)
    → configured_store log2_of p mem_size ≡ ok s
    → (0 < mem_size) × Fits mem_size s
unfolding configured_store check_mem_size size_bytes
configured_store-Fits log2_of p mem_size s g e =
    let u : ℕ = p.backing_size_unit.rounded in
    elim (Bool-cases (ltb mem_size u)) [
      | inl t ↦ (
        ground arith,
        store_of_type-Fits (backing_type p.backing p.do_not_back) p.thrown p.named mem_size
            (2 ^ log2_of mem_size) s (g mem_size (ground arith)) (ground arith),
      )
      | inr t ↦ (
        ground arith,
        store_of_type-Fits (backing_type p.backing p.do_not_back) p.thrown p.named mem_size u s
            (ground arith) (ground arith),
      )
    ]
