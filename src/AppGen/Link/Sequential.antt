-- ===== src/AppGen/Link/Sequential.antt =====
-- The application as a sequential program: what it does when every action takes effect at once.
-- Every interleaving of the threads does the same as long as no `receive` gives up.
use sst_pim.Prelude.{
  ℕ, ◌≡◌, ◌≤◌, refl, sym, subst, arith, true, Option, some, List, [], ◌∷◌, ◌++◌, length, ok, ◌⊎◌,
  inl, inr, of_bytes, to_bytes,
}
use sst_pim.Memory.{Backing}
use sst_pim.AppGen.Requests.{RequestQueue, GeneratorRequest}
use sst_pim.AppGen.Sources.{AppLink, transactor_generate}
use sst_pim.AppGen.Link.{Program, Thread, World, initial, serve}
use sst_pim.AppGen.Link.Drain.{
  flight, operations, requested_all, generate_cases, stored, loaded, serve-stored,
}

module _ (b : Backing) where
  open b use {Store, set, get}

  -- The 8 bytes at an address.
  abbrev pub word : Store → ℕ → ℕ
  word s a = of_bytes (get s a 8)

  abbrev pub put : Store → ℕ → ℕ → Store
  put s a d = set s a (to_bytes 8 d)

  -- What is left of the program, and the store, after some of its actions one by one.
  pub data Sequential (p : Program) (s : Store) : Program → Store → Type 0 where
    here : Sequential p s p s
    wrote :
        {a d : ℕ} {q : Program} {t : Store}
        → Sequential p s (Program.write a d q) t
        → Sequential p s q (put t a d)
    got :
        {a : ℕ} {k : Option ℕ → Program} {t : Store}
        → Sequential p s (Program.read a k) t
        → Sequential p s (k (some (word t a))) t

  -- What the thread has done so far, and the answers that it may still take: `v` is the store at
  -- the end of all that is on its way.
  abbrev pub Follows : Program → Store → Thread → Store → List ℕ → Type 0
  Follows p s (Thread.run q) v ans = Sequential p s q v × (ans ≡ [])
  Follows p s (Thread.poll n k) v ans =
      (a : ℕ) × Sequential p s (Program.read a k) v × (ans ≡ word v a ∷ [])
  Follows p s (Thread.test n k) v ans =
      (a : ℕ) × Sequential p s (Program.read a k) v × (ans ≡ word v a ∷ [])
  Follows p s Thread.halted v ans = Sequential p s Program.finished v × (ans ≡ [])

  -- All answers to the application, those that have arrived first.
  abbrev pub answers : World b → List ℕ
  answers w = w.link.load_q ++ loaded b (flight w.requests w.link) w.store

  pub record Corresponds (p : Program) (s : Store) (w : World b) : Type 0 where
    pub short : length w.link.queue ≤ 1
    pub follows :
        (w.timed_out ≡ true)
        ⊎ Follows p s w.thread (stored b (flight w.requests w.link) w.store) (answers w)

  pub carry :
      (p : Program) (s v v' : Store) (t : Thread) (ans ans' : List ℕ)
      → v ≡ v'
      → ans ≡ ans'
      → Follows p s t v ans
      → Follows p s t v' ans'
  carry p s v v' t ans ans' e k f =
      subst (λ x. Follows p s t x ans') e (subst (Follows p s t v) k f)

  pub initial-Corresponds : (p : Program) (s : Store) → Corresponds p s (initial b p s)
  initial-Corresponds p s = record { short = omega arith; follows = inr (here, refl) }

  -- A step of the simulator that keeps the outcome of what is on its way.
  pub keep :
      (p : Program) (s : Store) (w : World b) (l : AppLink) (q : RequestQueue) (t : Store)
      → length l.queue ≤ 1
      → stored b (flight q l) t ≡ stored b (flight w.requests w.link) w.store
      → l.load_q ++ loaded b (flight q l) t ≡ answers w
      → Corresponds p s w
      → Corresponds p s (record w { link = l; requests = q; store = t })
  keep p s w l q t h x y c = record {
    short = h;
    follows = elim c.follows [
      | inl g ↦ inl g
      | inr f ↦ inr (
          carry p s (stored b (flight w.requests w.link) w.store) (stored b (flight q l) t) w.thread
            (answers w) (l.load_q ++ loaded b (flight q l) t) (sym x) (sym y) f)
    ];
  }

  pub respond-Corresponds :
      (p : Program) (s : Store) (w : World b) (r : GeneratorRequest) (rs : List GeneratorRequest)
      → w.requests.elements ≡ r ∷ rs
      → Corresponds p s w
      → Corresponds p s (
          let (l, t) = serve b r.operation w.link w.store in
          record w { link = l; requests = record w.requests { elements = rs }; store = t })
  respond-Corresponds p s w r rs e c =
      let os = operations rs ++ requested_all w.link.queue in
      let (l, t) = serve b r.operation w.link w.store in
      let (x, y, z) = serve-stored b r.operation os w.link w.store in
      keep p s w l (record w.requests { elements = rs }) t (rw z c.short) (rw (z, e) x)
        (rw (z, e) y) c

  pub generate-Corresponds :
      (p : Program) (s : Store) (w : World b) (l : AppLink) (q : RequestQueue)
      → transactor_generate w.link w.requests ≡ some (ok (l, q))
      → Corresponds p s w
      → Corresponds p s (record w { link = l; requests = q })
  generate-Corresponds p s w l q e c = elim (generate_cases w.link w.requests c.short) [
    | inl (n, k) ↦ absurd (ground (arith, e, k))
    | inr (l', q', (k, f, g, n)) ↦
        let el : l' ≡ l = ground (arith, e, k) in
        let eq : q' ≡ q = ground (arith, e, k) in
        subst (λ x. Corresponds p s (record w { link = x; requests = q })) el
          (subst (λ x. Corresponds p s (record w { link = l'; requests = x })) eq
            (keep p s w l' q' w.store (rw n (omega arith)) (rw f) (rw (f, g)) c))
  ]
