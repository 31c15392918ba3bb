-- ===== src/AppGen/Link/Moves.antt =====
-- The steps of the application's thread (app.cc), seen from the sequential program.
use sst_pim.Prelude.{
  ℕ, ◌-◌, ◌≡◌, ◌≤◌, refl, sym, ap, ◌∙◌, subst, arith, true, false, Bool-cases, Option, none, some,
  List, [], ◌∷◌, ◌++◌, length, ◌⊎◌, inl, inr,
}
use mathlib.Core.List.{append-nil, append_assoc}
use sst_pim.Pimdef.{SramCmd}
use sst_pim.Memory.{Backing}
use sst_pim.AppGen.Requests.{memory_op_request}
use sst_pim.AppGen.Sources.{AppEvent, AppLink, app_send, app_receive}
use sst_pim.AppGen.Link.{
  Program, Thread, World, sends, app_move, receive_timeout, gives_up, polls_on,
}
use sst_pim.AppGen.Link.Drain.{
  flight, requested, send-flight, stored, loaded, stored-append, loaded-append,
}
use sst_pim.AppGen.Link.Sequential.{word, Sequential, wrote, got, Follows, answers}

module _ (b : Backing) where
  open b use {Store, set, get}

  -- `send` puts its request at the end of what is on its way.
  send-stored :
      (w : World b) (l : AppLink) (k : SramCmd) (a d : ℕ)
      → app_send w.link k a d ≡ some l
      → let e : AppEvent = record { cmd = k; address = a; event_data = d } in
        let v : Store = stored b (flight w.requests w.link) w.store in
        (stored b (flight w.requests l) w.store ≡ stored b (requested e) v)
        × (l.load_q ++ loaded b (flight w.requests l) w.store
            ≡ answers b w ++ loaded b (requested e) v)
        × (length l.queue ≤ 1)
  send-stored w l k a d h =
      let e : AppEvent = record { cmd = k; address = a; event_data = d } in
      let os = flight w.requests w.link in
      let (f, g, n) = send-flight w.link l w.requests k a d h in
      (
        rw f (stored-append b os (requested e) w.store),
        rw (f, g)
            (ap (λ x. w.link.load_q ++ x) (loaded-append b os (requested e) w.store)
              ∙ sym (
                  append_assoc w.link.load_q (loaded b os w.store)
                    (loaded b (requested e) (stored b os w.store)))),
        n,
      )

  sends_inv :
      (l l' : AppLink) (c : SramCmd) (a d : ℕ) (t t' : Thread)
      → sends l c a d t ≡ some (l', t')
      → (app_send l c a d ≡ some l') × (t ≡ t')
  unfolding sends app_send
  sends_inv l l' c a d t t' h = (ground arith, ground arith)

  -- What the thread has after the step of `send`.
  send-Moves :
      (p : Program) (s : Store) (w : World b) (th : Thread) (l : AppLink) (t : Thread) (k : SramCmd)
      (a d : ℕ)
      → let e : AppEvent = record { cmd = k; address = a; event_data = d } in
        let v : Store = stored b (flight w.requests w.link) w.store in
        sends w.link k a d th ≡ some (l, t)
        → Follows b p s th (stored b (requested e) v) (answers b w ++ loaded b (requested e) v)
        → (length l.queue ≤ 1)
          × Follows b p s t
              (stored b (flight w.requests l) w.store)
              (l.load_q ++ loaded b (flight w.requests l) w.store)
  send-Moves p s w th l t k a d h f =
      let (e, g) = sends_inv w.link l k a d th t h in
      let (x, y, z) = send-stored w l k a d e in
      (
        z,
        subst
            (λ u.
              Follows b p s u (stored b (flight w.requests l) w.store)
                (l.load_q ++ loaded b (flight w.requests l) w.store))
            g (rw (x, y) f),
      )

  run-Moves :
      (p : Program) (s : Store) (w : World b) (q : Program) (l : AppLink) (t : Thread)
      → app_move w.link (Thread.run q) ≡ some (l, t)
      → Follows b p s (Thread.run q) (stored b (flight w.requests w.link) w.store) (answers b w)
      → (length l.queue ≤ 1)
        × Follows b p s t
            (stored b (flight w.requests l) w.store)
            (l.load_q ++ loaded b (flight w.requests l) w.store)
  unfolding app_move memory_op_request
  run-Moves p s w (Program.write a d q) l t h (f, n) =
      send-Moves p s w (Thread.run q) l t SramCmd.write a d h
        (wrote f, append-nil (answers b w) ∙ n)
  run-Moves p s w (Program.read a k) l t h (f, n) =
      send-Moves p s w (Thread.poll receive_timeout k) l t SramCmd.read a 0 h (a, f, rw n)
  run-Moves p s w Program.finished l t h (f, n) =
      send-Moves p s w Thread.halted l t SramCmd.done 0 0 h (f, append-nil (answers b w) ∙ n)
  run-Moves p s w Program.fatal l t h f = absurd (ground arith)

  poll-Moves :
      (p : Program) (s : Store) (w : World b) (n : ℕ) (k : Option ℕ → Program) (l : AppLink)
      (t : Thread)
      → app_move w.link (Thread.poll n k) ≡ some (l, t)
      → Follows b p s (Thread.poll n k) (stored b (flight w.requests w.link) w.store) (answers b w)
      → (length l.queue ≤ 1)
        × Follows b p s t
            (stored b (flight w.requests l) w.store)
            (l.load_q ++ loaded b (flight w.requests l) w.store)
  unfolding app_move
  poll-Moves p s w n k l t h (a, f, e) =
      send-Moves p s w (Thread.test n k) l t SramCmd.nop n 0 h (a, f, append-nil (answers b w) ∙ e)

  -- What a test leaves.
  abbrev Tested : Program → Store → World b → ℕ → (Option ℕ → Program) → AppLink × Thread → Type 0
  Tested p s w n k (l, t) =
      (l.queue ≡ w.link.queue)
      × ((gives_up w.link (Thread.test n k) ≡ true)
          ⊎ Follows b p s t (stored b (flight w.requests l) w.store)
              (l.load_q ++ loaded b (flight w.requests l) w.store))

  tested :
      (p : Program) (s : Store) (w : World b) (n : ℕ) (k : Option ℕ → Program)
      (x y : AppLink × Thread)
      → app_move w.link (Thread.test n k) ≡ some y
      → app_move w.link (Thread.test n k) ≡ some x
      → Tested p s w n k x
      → Tested p s w n k y
  tested p s w n k x y h g z = subst (Tested p s w n k) (some-inj (sym g ∙ h)) z
    where
      some-inj : {u v : AppLink × Thread} → some u ≡ some v → u ≡ v
      some-inj e = ground (arith, e)

  -- The test of the loop, by the answers that have arrived.
  test-Tested :
      (p : Program) (s : Store) (w : World b) (n : ℕ) (k : Option ℕ → Program)
      (y : AppLink × Thread) (ls : List ℕ)
      → w.link.load_q ≡ ls
      → app_move w.link (Thread.test n k) ≡ some y
      → Follows b p s (Thread.test n k) (stored b (flight w.requests w.link) w.store) (answers b w)
      → Tested p s w n k y
  unfolding app_move gives_up app_receive
  test-Tested p s w n k y [] e h (a, f, g) = elim (Bool-cases (polls_on n w.link)) [
    | inl c ↦ tested p s w n k (w.link, Thread.poll (n - 1) k) y h (rw c) (refl, inr (a, f, g))
    | inr c ↦ tested p s w n k (w.link, Thread.run (k none)) y h (rw (c, e)) (refl, inl (rw (c, e)))
  ]
  test-Tested p s w n k y (d ∷ []) e h (a, f, g) =
      let v : Store = stored b (flight w.requests w.link) w.store in
      let one : d ∷ loaded b (flight w.requests w.link) w.store ≡ word b v a ∷ [] =
        ap (λ x. x ++ loaded b (flight w.requests w.link) w.store) (sym e) ∙ g in
      let c : polls_on n w.link ≡ false = rw e (ground arith) in
      let same : d ≡ word b v a = ground (arith, one) in
      let rest : loaded b (flight w.requests w.link) w.store ≡ [] = ground (arith, one) in
      tested p s w n k (record w.link { load_q = [] }, Thread.run (k (some d))) y h (rw (c, e))
        (refl, inr (subst (λ x. Sequential b p s (k (some x)) v) (sym same) (got f), rest))
  test-Tested p s w n k y (d ∷ d' ∷ ls) e h (a, f, g) =
      absurd
        (ground (arith, ap (λ x. x ++ loaded b (flight w.requests w.link) w.store) (sym e) ∙ g))

  -- A step of the application's thread.
  pub thread-Moves :
      (p : Program) (s : Store) (w : World b) (th : Thread) (l : AppLink) (t : Thread)
      → app_move w.link th ≡ some (l, t)
      → length w.link.queue ≤ 1
      → Follows b p s th (stored b (flight w.requests w.link) w.store) (answers b w)
      → (length l.queue ≤ 1)
        × ((gives_up w.link th ≡ true)
            ⊎ Follows b p s t
                (stored b (flight w.requests l) w.store)
                (l.load_q ++ loaded b (flight w.requests l) w.store))
  unfolding app_move
  thread-Moves p s w (Thread.run q) l t h z f = let (x, y) = run-Moves p s w q l t h f in (x, inr y)
  thread-Moves p s w (Thread.poll n k) l t h z f =
      let (x, y) = poll-Moves p s w n k l t h f in (x, inr y)
  thread-Moves p s w (Thread.test n k) l t h z f =
      let (x, y) = test-Tested p s w n k (l, t) w.link.load_q refl h f in (rw x z, y)
  thread-Moves p s w Thread.halted l t h z f = absurd (ground arith)
