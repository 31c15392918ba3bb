-- ===== src/AppGen/AppTest/Passes.antt =====
-- The test application passes in every interleaving (appTest.cc).
use sst_pim.Prelude.{
  ℕ, zero, suc, ◌+◌, ◌-◌, ◌*◌, ◌^◌, ◌≤◌, ◌<◌, ◌≡◌, ◌≢◌, refl, sym, ap, ◌∙◌, subst, arith, false,
  List, ◌⊎◌, inl, inr, some, length, get_or, get_or_ext, to_bytes, of_bytes, of_bytes-to_bytes, leb,
  ltb, ◌&&◌, ◌==◌, eq→beq, if◌then◌else◌,
}
use sst_pim.Pimdef.{sram_base}
use sst_pim.Memory.{Backing}
use sst_pim.AppGen.Link.{Program, Thread, World, Reach, later}
use sst_pim.AppGen.Link.Drain.{flight, stored}
use sst_pim.AppGen.Link.Sequential.{word, put, Sequential, Follows, answers, here, wrote, got}
use sst_pim.AppGen.Link.Interleaving.{interleaving_refines}
use sst_pim.AppGen.Link.Progress.{Runs, stay, step, application-CanEnd}
use sst_pim.AppGen.AppTest.{
  first_addr, test_data, check_loop, write_loop, pim_id, after_id, the_app,
}

module _ (b : Backing) where
  open b use {Store, byte, set, get}

  get-set : (s : Store) (a : ℕ) (bs : List ℕ) → get (set s a bs) a (length bs) ≡ bs
  get-set s a bs =
      get_or_ext 0 (get (set s a bs) a (length bs)) bs (b.length-get (set s a bs) a (length bs))
        λ i lt.
          let n : i < length bs = omega (arith, b.length-get (set s a bs) a (length bs), lt) in
          b.get_or-get (set s a bs) a (length bs) i n
          ∙ b.byte-set s a bs (a + i)
          ∙ inside_write a (length bs) i n bs (byte s (a + i))
    where
      inside_write :
          (a n i : ℕ)
          → i < n
          → (bs : List ℕ) (x : ℕ)
          → (if leb a (a + i) && ltb (a + i) (a + n) then get_or bs (a + i - a) 0 else x)
            ≡ get_or bs i 0
      inside_write a n i lt bs x =
          let e : a + i - a ≡ i = omega arith in ground (arith, ap (λ j. get_or bs j 0) e)

  get-set_other :
      (s : Store) (a c n : ℕ) (bs : List ℕ)
      → (c + n ≤ a) ⊎ (a + length bs ≤ c)
      → get (set s a bs) c n ≡ get s c n
  get-set_other s a c n bs h =
      get_or_ext 0 (get (set s a bs) c n) (get s c n)
        (b.length-get (set s a bs) c n ∙ sym (b.length-get s c n))
        λ i lt.
          let k : i < n = omega (arith, b.length-get (set s a bs) c n, lt) in
          b.get_or-get (set s a bs) c n i k
          ∙ b.byte-set s a bs (c + i)
          ∙ outside_write a (length bs) (c + i) (byte s (c + i)) (get_or bs (c + i - a) 0)
              (ground arith)
          ∙ sym (b.get_or-get s c n i k)
    where
      outside_write :
          (a n c x y : ℕ) → (c < a) ⊎ (a + n ≤ c) → (if leb a c && ltb c (a + n) then y else x) ≡ x
      outside_write a n c x y h = ground arith

  word-put : (s : Store) (a d : ℕ) → d < 2 ^ 64 → word b (put b s a d) a ≡ d
  word-put s a d h = ap of_bytes (get-set s a (to_bytes 8 d)) ∙ of_bytes-to_bytes 8 d h

  word-put_other :
      (s : Store) (a c d : ℕ) → (c + 8 ≤ a) ⊎ (a + 8 ≤ c) → word b (put b s a d) c ≡ word b s c
  word-put_other s a c d h = ap of_bytes (get-set_other s a c 8 (to_bytes 8 d) h)

  -- A sequential program does not fail, and ends with a store that has a property.
  abbrev pub Ends : (Store → Type 0) → Program → Store → Type 0
  Ends q Program.finished s = q s
  Ends q Program.fatal s = ⊥
  Ends q (Program.write a d p) s = Ends q p (put b s a d)
  Ends q (Program.read a k) s = Ends q (k (some (word b s a))) s

  Sequential-Ends :
      (q : Store → Type 0) {p : Program} {s : Store} {r : Program} {t : Store}
      → Sequential b p s r t
      → Ends q p s
      → Ends q r t
  Sequential-Ends q here e = e
  Sequential-Ends q (wrote f) e = Sequential-Ends q f e
  Sequential-Ends q (got f) e = Sequential-Ends q f e

  -- The first `n` words of the test.
  abbrev pub Written : ℕ → Store → Type 0
  Written n s = (j : ℕ) → j < n → word b s (first_addr + 8 * j) ≡ test_data (first_addr + 8 * j)

  Written-put :
      (i : ℕ) (s : Store)
      → Written i s
      → Written (i + 1) (put b s (first_addr + 8 * i) (test_data (first_addr + 8 * i)))
  Written-put i s h j lt =
      let a : ℕ = first_addr + 8 * i in
      elim (ℕ-cases j i) [
        | inl e ↦
            subst
              (λ k.
                word b (put b s a (test_data a)) (first_addr + 8 * k)
                ≡ test_data (first_addr + 8 * k))
              (sym e) (word-put s a (test_data a) (omega arith))
        | inr n ↦
            word-put_other s a (first_addr + 8 * j) (test_data a) (inl (omega arith))
            ∙ h j (omega arith)
      ]
    where
      ℕ-cases : (j i : ℕ) → (j ≡ i) ⊎ (j ≢ i)
      ℕ-cases j i = ground arith

  next_addr : (i : ℕ) → first_addr + 8 * (i + 1) ≡ first_addr + 8 * i + 8
  next_addr i = omega arith

  check-Ends :
      (q : Store → Type 0) (x y : ℕ) (p : Program) (s : Store)
      → x ≡ y
      → Ends q p s
      → Ends q (if x == y then p else Program.fatal) s
  check-Ends q x y p s e h =
      subst (λ t. Ends q (if t then p else Program.fatal) s) (sym (eq→beq x y e)) h

  check_loop-Ends :
      (n i old : ℕ) (s : Store)
      → i + n ≡ 16
      → Written 16 s
      → Ends (Written 16) (check_loop n (first_addr + 8 * i) old) s
  unfolding check_loop
  check_loop-Ends zero i old s e h = h
  check_loop-Ends (suc n) i old s e h =
      let a : ℕ = first_addr + 8 * i in
      check-Ends (Written 16) (word b s a) (test_data a) (check_loop n (a + 8) (word b s a)) s
        (h i (omega arith))
        (subst (λ c. Ends (Written 16) (check_loop n c (word b s a)) s) (next_addr i)
          (check_loop-Ends n (i + 1) (word b s a) s (omega arith) h))

  write_loop-Ends :
      (n i old : ℕ) (s : Store)
      → i + n ≡ 16
      → Written i s
      → Ends (Written 16) (write_loop n (first_addr + 8 * i) (check_loop 16 first_addr old)) s
  unfolding write_loop
  write_loop-Ends zero i old s e h = check_loop-Ends 16 0 old s refl (λ j lt. h j (omega arith))
  write_loop-Ends (suc n) i old s e h =
      let a : ℕ = first_addr + 8 * i in
      subst
        (λ c.
          Ends (Written 16) (write_loop n c (check_loop 16 first_addr old))
            (put b s a (test_data a)))
        (next_addr i)
        (write_loop-Ends n (i + 1) old (put b s a (test_data a)) (omega arith) (Written-put i s h))

  the_app-Ends : (s : Store) → word b s sram_base ≡ pim_id → Ends (Written 16) the_app s
  unfolding the_app after_id
  the_app-Ends s h =
      check-Ends (Written 16) (word b s sram_base) pim_id
        (write_loop 16 first_addr (check_loop 16 first_addr (word b s sram_base))) s h
        (write_loop-Ends 16 0 (word b s sram_base) s refl (λ j lt. absurd (omega arith)))

  -- What is to hold where the thread stands, with the store after all that is on its way.
  abbrev pub Passed : Thread → Store → Type 0
  Passed (Thread.run Program.fatal) v = ⊥
  Passed Thread.halted v = Written 16 v
  Passed _ v = Unit {0}

  Follows-Passed :
      (s : Store) (t : Thread) (v : Store) (ans : List ℕ)
      → Ends (Written 16) the_app s
      → Follows b the_app s t v ans
      → Passed t v
  Follows-Passed s (Thread.run Program.fatal) v ans e (f, _) = Sequential-Ends (Written 16) f e
  Follows-Passed s (Thread.run Program.finished) v ans e f = tt
  Follows-Passed s (Thread.run (Program.write a d p)) v ans e f = tt
  Follows-Passed s (Thread.run (Program.read a k)) v ans e f = tt
  Follows-Passed s (Thread.poll n k) v ans e f = tt
  Follows-Passed s (Thread.test n k) v ans e f = tt
  Follows-Passed s Thread.halted v ans e (f, _) = Sequential-Ends (Written 16) f e

  Reach-Runs :
      {p : Program} {s : Store} {v w : World b} → Reach b p s v → Runs b v w → Reach b p s w
  Reach-Runs r stay = r
  Reach-Runs r (step q x) = later (Reach-Runs r q) x

  -- In every interleaving of the two threads in which no `receive` has ended without a value, over
  -- a memory that serves requests in order and has the identity of the PIM at the start of the
  -- scratchpad, the test application does not call `fatal`; when it has ended, each of the 16 words
  -- holds its test data in the memory once all that is on its way is served; and there are steps
  -- after which it has ended in that way.
  pub the_app_passes :
      (s : Store) (w : World b)
      → word b s sram_base ≡ pim_id
      → Reach b the_app s w
      → w.timed_out ≡ false
      → Passed w.thread (stored b (flight w.requests w.link) w.store)
        × ((v : World b) × Runs b w v
            × (v.thread ≡ Thread.halted)
            × Written 16 (stored b (flight v.requests v.link) v.store))
  the_app_passes s w h r n =
      let passed : (v : World b)
          → Reach b the_app s v
          → v.timed_out ≡ false
          → Passed v.thread (stored b (flight v.requests v.link) v.store) =
        λ v q m.
          Follows-Passed s v.thread (stored b (flight v.requests v.link) v.store) (answers b v)
            (the_app-Ends s h) (interleaving_refines b v q m) in
      let (v, runs, (patient, ended)) = application-CanEnd b w r n in
      let p = passed v (Reach-Runs r runs) patient in
      let all = stored b (flight v.requests v.link) v.store in
      (
        passed w r n,
        elim ended [
          | inl e ↦ (v, runs, e, subst (λ t. Passed t all) e p)
          | inr e ↦ absurd (subst (λ t. Passed t all) e p)
        ],
      )
