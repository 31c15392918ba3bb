-- ===== src/AppGen/Link/Interleaving.antt =====
-- All interleavings of the application's thread and the simulator's (app.cc, appTransactor.cc).
use sst_pim.Prelude.{
  length-append, ℕ, ◌≡◌, ◌≤◌, arith, Bool, true, false, ◌||◌, some, [], ◌∷◌, length, inl, inr,
}
use sst_pim.Pimdef.{SramCmd}
use sst_pim.Memory.{Backing}
use sst_pim.AppGen.Sources.{AppLink, app_send, app_receive}
use sst_pim.AppGen.Link.{
  Program, Thread, World, app, generate, respond, Reach, start, later, sends, app_move,
  receive_timeout, gives_up,
}
use sst_pim.AppGen.Link.Drain.{flight, stored}
use sst_pim.AppGen.Link.Sequential.{
  Follows, answers, Corresponds, initial-Corresponds, respond-Corresponds, generate-Corresponds,
}
use sst_pim.AppGen.Link.Moves.{thread-Moves}

-- `send` leaves one event, since it waits for an empty queue.
send-short :
    (l l' : AppLink) (c : SramCmd) (a d : ℕ) (t t' : Thread)
    → sends l c a d t ≡ some (l', t')
    → length l'.queue ≤ 1
unfolding sends app_send
send-short l l' c a d t t' h =
    let n = length-append l.queue (record { cmd = c; address = a; event_data = d } ∷ []) in
    grind (arith, n)

move-short :
    (l l' : AppLink) (th t : Thread)
    → app_move l th ≡ some (l', t)
    → length l.queue ≤ 1
    → length l'.queue ≤ 1
unfolding app_move sends app_send app_receive
move-short l l' (Thread.run (Program.write a d p)) t h z =
    send-short l l' SramCmd.write a d (Thread.run p) t h
move-short l l' (Thread.run (Program.read a k)) t h z =
    send-short l l' SramCmd.read a 0 (Thread.poll receive_timeout k) t h
move-short l l' (Thread.run Program.finished) t h z =
    send-short l l' SramCmd.done 0 0 Thread.halted t h
move-short l l' (Thread.run Program.fatal) t h z = ground arith
move-short l l' (Thread.poll n k) t h z = send-short l l' SramCmd.nop n 0 (Thread.test n k) t h
move-short l l' (Thread.test n k) t h z = ground arith
move-short l l' Thread.halted t h z = ground arith

or_inr : (x y : Bool) → y ≡ true → (x || y) ≡ true
or_inr x y h = ground arith

or_inl : (x y : Bool) → x ≡ true → (x || y) ≡ true
or_inl x y h = ground arith

module _ (b : Backing) where
  open b use {Store}

  app-Corresponds :
      (p : Program) (s : Store) (w : World b) (l : AppLink) (t : Thread)
      → app_move w.link w.thread ≡ some (l, t)
      → Corresponds b p s w
      → Corresponds b p s
          (record w { link = l; thread = t; timed_out = w.timed_out || gives_up w.link w.thread })
  app-Corresponds p s w l t h c = record {
    short = move-short w.link l w.thread t h c.short;
    follows = elim c.follows [
      | inl g ↦ inl (or_inl w.timed_out (gives_up w.link w.thread) g)
      | inr f ↦
          let (z, m) = thread-Moves b p s w w.thread l t h c.short f in
          elim m [ inl g ↦ inl (or_inr w.timed_out (gives_up w.link w.thread) g) | inr g ↦ inr g ]
    ];
  }

  pub Reach-Corresponds :
      {p : Program} {s : Store} {w : World b} → Reach b p s w → Corresponds b p s w
  Reach-Corresponds {p} {s} start = initial-Corresponds b p s
  Reach-Corresponds {p} {s} (later {v} r (app {l} {t} h)) =
      app-Corresponds p s v l t h (Reach-Corresponds r)
  Reach-Corresponds {p} {s} (later {v} r (generate {l} {q} g h)) =
      generate-Corresponds b p s v l q h (Reach-Corresponds r)
  Reach-Corresponds {p} {s} (later {v} r (respond {r = x} {rs = xs} h)) =
      respond-Corresponds b p s v x xs h (Reach-Corresponds r)

  -- In every interleaving in which no `receive` has ended without a value, the application stands
  -- where the sequential program, whose actions take effect at once, stands with the store that the
  -- memory has when it has served all that is on its way. While a `receive` waits, the one answer
  -- that has arrived or is still to come is what that store holds at the address of the read;
  -- otherwise no answer is open.
  pub interleaving_refines :
      {p : Program} {s : Store} (w : World b)
      → Reach b p s w
      → w.timed_out ≡ false
      → Follows b p s w.thread (stored b (flight w.requests w.link) w.store) (answers b w)
  interleaving_refines w r h = elim ((Reach-Corresponds r).follows) [
    | inl g ↦ absurd (ground (arith, g, h))
    | inr f ↦ f
  ]
