-- ===== src/Controller/Bytes.antt =====
-- memoryControllerKG.cc: the accesses of the backing store for custom commands, byte by byte, and
-- the events for other nodes.
use sst_pim.Prelude.{
  ℕ, zero, suc, ◌+◌, ◌-◌, ◌%◌, ◌^◌, ◌≤◌, ◌<◌, ◌≡◌, refl, sym, ap, ◌∙◌, arith, leb, ltb, ◌&&◌, not,
  true, false, List, [], ◌∷◌, length, get_or, get_or_ext, replicate, if◌then◌else◌, Outcome, ◌⊎◌,
  inl, inr, ok, check, assertion, ◌>>◌,
}
use sst_pim.Pimdef.{u64}
use sst_pim.Event.{MemEvent}
use sst_pim.Memory.{Backing}
use sst_pim.Controller.{Platform, Controller}

-- `handleForwardedEvent`: what it sends, by the forward link or by the link to the local network.
unfoldable pub handle_forwarded_event : MemEvent → Outcome MemEvent
handle_forwarded_event e =
    check (not e.flags.remote) assertion
    >> ok (record e { flags = record e.flags { pim = false; remote = true } })

small : (a m : ℕ) → a < m → a % m ≡ a
small a m h = grind arith

get_or-next :
    (d : ℕ) (ds : List ℕ) (x y : ℕ) → y < x → get_or (d ∷ ds) (x - y) 0 ≡ get_or ds (x - (y + 1)) 0
get_or-next d ds x y h = by_gap (x - y) refl
  where
    by_gap : (k : ℕ) → x - y ≡ k → get_or (d ∷ ds) k 0 ≡ get_or ds (x - (y + 1)) 0
    by_gap zero e = absurd (omega arith)
    by_gap (suc k) e = ap (λ j. get_or ds j 0) (omega arith)

get_or-first : (d : ℕ) (ds : List ℕ) (x y : ℕ) → x ≡ y → get_or (d ∷ ds) (x - y) 0 ≡ d
get_or-first d ds x y h = let k : x - y ≡ 0 = omega arith in ap (λ j. get_or (d ∷ ds) j 0) k

-- A byte and the rest of the bytes, at an address `y` and after it.
step_bytes :
    (y x n d w : ℕ) (ds : List ℕ)
    → length ds ≡ n
    → (if leb (y + 1) x && ltb x (y + 1 + n)
        then get_or ds (x - (y + 1)) 0
        else (if leb y x && ltb x (y + 1) then get_or (d ∷ []) (x - y) 0 else w))
      ≡ (if leb y x && ltb x (y + suc n) then get_or (d ∷ ds) (x - y) 0 else w)
step_bytes y x n d w ds e = elim (trichotomy x y) [
  | inl h ↦ ground (arith, h)
  | inr m ↦ elim m [
    | inl h ↦ ground (arith, h, get_or-first d ds x y h, get_or-first d [] x y h)
    | inr h ↦ ground (arith, h, get_or-next d ds x y h)
  ]
]
  where
    trichotomy : (x y : ℕ) → (x < y) ⊎ ((x ≡ y) ⊎ (y < x))
    trichotomy x y = ground arith

module _ (b : Backing) where
  open b use {Store, byte, set, get}

  -- The loop of `writeData( Addr, … )`, from index `i` on.
  unfoldable pub set_bytes : Store → ℕ → ℕ → List ℕ → Store
  set_bytes s a i [] = s
  set_bytes s a i (d ∷ ds) = set_bytes (set s (u64 (a + i)) (d ∷ [])) a (i + 1) ds

  -- The loop of `readData( Addr, … )`.
  unfoldable pub get_bytes : Store → ℕ → ℕ → ℕ → List ℕ
  get_bytes s a i zero = []
  get_bytes s a i (suc n) = byte s (u64 (a + i)) ∷ get_bytes s a (i + 1) n

  byte-set_bytes :
      (s : Store) (a i : ℕ) (ds : List ℕ) (x : ℕ)
      → a + i + length ds ≤ 2 ^ 64
      → byte (set_bytes s a i ds) x ≡ (
          if leb (a + i) x && ltb x (a + i + length ds)
          then get_or ds (x - (a + i)) 0
          else byte s x)
  unfolding set_bytes
  byte-set_bytes s a i [] x h = ground arith
  byte-set_bytes s a i (d ∷ ds) x h =
      let y : u64 (a + i) ≡ a + i = small (a + i) (2 ^ 64) (omega arith) in
      let z : a + (i + 1) ≡ a + i + 1 = omega arith in
      byte-set_bytes (set s (u64 (a + i)) (d ∷ [])) a (i + 1) ds x (omega arith)
      ∙ rw (b.byte-set s (u64 (a + i)) (d ∷ []) x, y, z)
          (step_bytes (a + i) x (length ds) d (byte s x) ds refl)

  length-get_bytes : (s : Store) (a i n : ℕ) → length (get_bytes s a i n) ≡ n
  unfolding get_bytes
  length-get_bytes s a i zero = refl
  length-get_bytes s a i (suc n) = ap suc (length-get_bytes s a (i + 1) n)

  get_or-get_bytes :
      (s : Store) (a i n j : ℕ)
      → a + i + n ≤ 2 ^ 64
      → j < n
      → get_or (get_bytes s a i n) j 0 ≡ byte s (a + i + j)
  unfolding get_bytes
  get_or-get_bytes s a i zero j h l = absurd (omega arith)
  get_or-get_bytes s a i (suc n) zero h l =
      ap (byte s) (small (a + i) (2 ^ 64) (omega arith) ∙ omega arith)
  get_or-get_bytes s a i (suc n) (suc j) h l =
      get_or-get_bytes s a (i + 1) n j (omega arith) (omega arith) ∙ ap (byte s) (omega arith)

  get_bytes-get : (s : Store) (a n : ℕ) → a + n ≤ 2 ^ 64 → get_bytes s a 0 n ≡ get s a n
  get_bytes-get s a n h =
      get_or_ext 0 (get_bytes s a 0 n) (get s a n)
        (length-get_bytes s a 0 n ∙ sym (b.length-get s a n))
        λ j l.
          let k : j < n = omega (arith, length-get_bytes s a 0 n, l) in
          get_or-get_bytes s a 0 n j (omega arith) k
          ∙ ap (byte s) (omega arith)
          ∙ sym (b.get_or-get s a n j k)

  set_bytes-set :
      (s : Store) (a : ℕ) (ds : List ℕ) (x : ℕ)
      → a + length ds ≤ 2 ^ 64
      → byte (set_bytes s a 0 ds) x ≡ byte (set s a ds) x
  set_bytes-set s a ds x h =
      let z : a + 0 ≡ a = omega arith in
      byte-set_bytes s a 0 ds x (omega arith) ∙ rw z (sym (b.byte-set s a ds x))

module _ (pf : Platform) where
  -- `writeData( Addr, std::vector<uint8_t>* )`
  unfoldable pub write_bytes : Controller pf → ℕ → List ℕ → Controller pf
  write_bytes c a data_bytes =
      if c.has_backing then record c { store = set_bytes pf.backing c.store a 0 data_bytes } else c

  -- `readData( Addr, size_t, std::vector<uint8_t>& )`
  unfoldable pub read_bytes : Controller pf → ℕ → ℕ → List ℕ
  read_bytes c a n = if c.has_backing then get_bytes pf.backing c.store a 0 n else replicate n 0

  -- With a backing store and a range that does not wrap, the accesses byte by byte do what one
  -- access of the whole range does: after the write every byte of the store is the same, and the
  -- read returns the same bytes.
  pub bytes_are_block :
      (c : Controller pf) (a n x : ℕ) (data_bytes : List ℕ)
      → c.has_backing ≡ true
      → a + length data_bytes ≤ 2 ^ 64
      → a + n ≤ 2 ^ 64
      → (pf.backing.byte (write_bytes c a data_bytes).store x
          ≡ pf.backing.byte (pf.backing.set c.store a data_bytes) x)
        × (read_bytes c a n ≡ pf.backing.get c.store a n)
  unfolding write_bytes read_bytes
  bytes_are_block c a n x ds e h k = (
    rw e (set_bytes-set pf.backing c.store a ds x h),
    rw e (get_bytes-get pf.backing c.store a n k),
  )
