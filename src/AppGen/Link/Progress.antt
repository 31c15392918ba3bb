-- ===== src/AppGen/Link/Progress.antt =====
-- The application can always be brought to its end (app.cc, appTransactor.cc).
use sst_pim.Prelude.{
  ℕ, ◌≡◌, ◌≤◌, refl, sym, ◌∙◌, subst, arith, Bool, false, ◌||◌, Option, some, List, [], ◌∷◌, ◌++◌,
  length, ◌⊎◌, inl, inr, of_bytes,
}
use mathlib.Core.List.{append-nil}
use sst_pim.Pimdef.{SramCmd}
use sst_pim.Memory.{Backing}
use sst_pim.AppGen.Requests.{memory_op_request, GeneratorRequest}
use sst_pim.AppGen.Sources.{AppEvent, AppLink, app_send, app_receive}
use sst_pim.AppGen.Link.{
  Program, Thread, World, CanGenerate, Step, app, generate, respond, Reach, serve, sends, app_move,
  receive_timeout, gives_up, polls_on,
}
use sst_pim.AppGen.Link.Drain.{
  flight, operations, requested, requested_all, generate_cases, stored, loaded, serve-stored,
}
use sst_pim.AppGen.Link.Sequential.{word, Follows, answers}
use sst_pim.AppGen.Link.Interleaving.{Reach-Corresponds, interleaving_refines}

module _ (b : Backing) where
  open b use {Store}

  -- Any number of steps.
  pub data Runs (v : World b) : World b → Type 0 where
    stay : Runs v v
    step : {u w : World b} → Runs v u → Step b u w → Runs v w

  Runs-trans : {u v w : World b} → Runs u v → Runs v w → Runs u w
  Runs-trans r stay = r
  Runs-trans r (step q s) = step (Runs-trans r q) s

  -- The world after the memory has served all requests; an event that waits still does.
  record IsServed (w w' : World b) : Type 0 where
    runs : Runs w w'
    no_request : w'.requests.elements ≡ []
    event_kept : w'.link.queue ≡ w.link.queue
    answers_kept : answers b w' ≡ answers b w
    thread_kept : w'.thread ≡ w.thread
    flag_kept : w'.timed_out ≡ w.timed_out

  serve_all :
      (rs : List GeneratorRequest) (w : World b)
      → w.requests.elements ≡ rs
      → (w' : World b) × IsServed w w'
  serve_all [] w e = (
    w,
    record {
      runs = stay;
      no_request = e;
      event_kept = refl;
      answers_kept = refl;
      thread_kept = refl;
      flag_kept = refl;
    },
  )
  serve_all (r ∷ rs) w e =
      let (l, t) = serve b r.operation w.link w.store in
      let (x, y, z) =
        serve-stored b r.operation (operations rs ++ requested_all w.link.queue) w.link w.store in
      let v : World b = record w {
        link = l;
        requests = record w.requests { elements = rs };
        store = t;
      } in
      let (w', d) = serve_all rs v refl in
      (
        w',
        record {
          runs = Runs-trans (step stay (respond e)) d.runs;
          no_request = d.no_request;
          event_kept = d.event_kept ∙ z;
          answers_kept = d.answers_kept ∙ rw (z, e) y;
          thread_kept = d.thread_kept;
          flag_kept = d.flag_kept;
        },
      )

  -- The world after all that is on its way has been served.
  record IsDrained (w w' : World b) : Type 0 where
    runs : Runs w w'
    no_event : w'.link.queue ≡ []
    no_request : w'.requests.elements ≡ []
    answered : w'.link.load_q ≡ answers b w
    thread_kept : w'.thread ≡ w.thread
    flag_kept : w'.timed_out ≡ w.timed_out

  IsServed-IsDrained : (w w' : World b) → IsServed w w' → w'.link.queue ≡ [] → IsDrained w w'
  IsServed-IsDrained w w' d n =
      let k : answers b w' ≡ w'.link.load_q = rw (d.no_request, n) (append-nil w'.link.load_q) in
      record {
        runs = d.runs;
        no_event = n;
        no_request = d.no_request;
        answered = sym k ∙ d.answers_kept;
        thread_kept = d.thread_kept;
        flag_kept = d.flag_kept;
      }

  -- The memory serves what it has, then the generator takes the event, and the memory serves that.
  drain : (w : World b) → length w.link.queue ≤ 1 → (w' : World b) × IsDrained w w'
  drain w h =
      let (u, d) = serve_all w.requests.elements w refl in
      elim (generate_cases u.link u.requests (rw d.event_kept h)) [
        | inl (n, e) ↦ (u, IsServed-IsDrained w u d n)
        | inr (l, q, (e, f, g, n)) ↦
            let v : World b = record u { link = l; requests = q } in
            let (w', c) = serve_all q.elements v refl in
            let m = IsServed-IsDrained v w' c (c.event_kept ∙ n) in
            let can : CanGenerate u.requests = record {
              issued = [];
              waiting = [];
              split = d.no_request;
              no_read_pending = tt;
              room = omega arith;
            } in
            let same : answers b v ≡ answers b u = rw (f, g) in
            (
              w',
              record {
                runs = Runs-trans (step d.runs (generate can e)) m.runs;
                no_event = m.no_event;
                no_request = m.no_request;
                answered = m.answered ∙ same ∙ d.answers_kept;
                thread_kept = m.thread_kept ∙ d.thread_kept;
                flag_kept = m.flag_kept ∙ d.flag_kept;
              },
            )
      ]

  -- The application has ended, and no `receive` has given up.
  abbrev pub HasEnded : World b → Type 0
  HasEnded w =
      (w.timed_out ≡ false) × ((w.thread ≡ Thread.halted) ⊎ (w.thread ≡ Thread.run Program.fatal))

  abbrev pub CanEnd : World b → Type 0
  CanEnd v = (w : World b) × Runs v w × HasEnded w

  CanEnd-after : {v w : World b} → Runs v w → CanEnd w → CanEnd v
  CanEnd-after r (u, q, e) = (u, Runs-trans r q, e)

  app_step :
      (w : World b) (l : AppLink) (t : Thread)
      → app_move w.link w.thread ≡ some (l, t)
      → gives_up w.link w.thread ≡ false
      → Step b w (record w { link = l; thread = t })
  app_step w l t h g =
      subst (λ f. Step b w (record w { link = l; thread = t; timed_out = f }))
        (kept w.timed_out (gives_up w.link w.thread) g) (app h)
    where
      kept : (x y : Bool) → y ≡ false → (x || y) ≡ x
      kept x y e = ground arith

  -- Nothing is on its way, and these answers have arrived.
  record IsCalm (w : World b) (ls : List ℕ) : Type 0 where
    no_event : w.link.queue ≡ []
    no_request : w.requests.elements ≡ []
    arrived : w.link.load_q ≡ ls
    patient : w.timed_out ≡ false

  -- A `send` of the thread, and all that comes of it.
  send_drain :
      (w : World b) (k : SramCmd) (a d : ℕ) (t : Thread) (ls : List ℕ)
      → IsCalm w ls
      → app_move w.link w.thread ≡ sends w.link k a d t
      → gives_up w.link w.thread ≡ false
      → (w' : World b) × Runs w w'
        × (w'.thread ≡ t)
        × IsCalm w'
            (ls ++ loaded b (requested (record { cmd = k; address = a; event_data = d })) w.store)
  unfolding sends app_send
  send_drain w k a d t ls c e g =
      let ev : AppEvent = record { cmd = k; address = a; event_data = d } in
      let l : AppLink = record w.link { queue = ev ∷ [] } in
      let u : World b = record w { link = l; thread = t } in
      let first : Step b w u = app_step w l t (e ∙ rw (c.no_event) refl) g in
      let (w', m) = drain u (omega arith) in
      (
        w',
        Runs-trans (step stay first) m.runs,
        m.thread_kept,
        record {
          no_event = m.no_event;
          no_request = m.no_request;
          arrived = m.answered ∙ rw (c.no_request, c.arrived, append-nil (requested ev)) refl;
          patient = m.flag_kept ∙ c.patient;
        },
      )

  CanEnd-test :
      (k : Option ℕ → Program) (x n : ℕ) (w : World b)
      → ((u : World b) → u.thread ≡ Thread.run (k (some x)) → IsCalm u [] → CanEnd u)
      → w.thread ≡ Thread.test n k
      → IsCalm w (x ∷ [])
      → CanEnd w
  unfolding app_move gives_up app_receive
  CanEnd-test k x n w rest h c =
      let l : AppLink = record w.link { load_q = [] } in
      let o : polls_on n w.link ≡ false = rw c.arrived (ground arith) in
      let moved : Step b w (record w { link = l; thread = Thread.run (k (some x)) }) =
        app_step w l (Thread.run (k (some x))) (rw h (rw (o, c.arrived)))
          (rw h (rw (o, c.arrived))) in
      CanEnd-after (step stay moved) (
        rest (record w { link = l; thread = Thread.run (k (some x)) }) refl
          (record {
            no_event = c.no_event;
            no_request = c.no_request;
            arrived = refl;
            patient = c.patient;
          }))

  CanEnd-poll :
      (k : Option ℕ → Program) (x n : ℕ) (w : World b)
      → ((u : World b) → u.thread ≡ Thread.run (k (some x)) → IsCalm u [] → CanEnd u)
      → w.thread ≡ Thread.poll n k
      → IsCalm w (x ∷ [])
      → CanEnd w
  unfolding app_move gives_up
  CanEnd-poll k x n w rest h c =
      let (w', r, h', c') =
        send_drain w SramCmd.nop n 0 (Thread.test n k) (x ∷ []) c (rw h) (rw h) in
      CanEnd-after r (CanEnd-test k x n w' rest h' c')

  CanEnd-run : (p : Program) (w : World b) → w.thread ≡ Thread.run p → IsCalm w [] → CanEnd w
  unfolding app_move gives_up memory_op_request
  CanEnd-run Program.finished w h c =
      let (w', r, h', c') = send_drain w SramCmd.done 0 0 Thread.halted [] c (rw h) (rw h) in
      (w', r, (c'.patient, inl h'))
  CanEnd-run Program.fatal w h c = (w, stay, (c.patient, inr h))
  CanEnd-run (Program.write a d p) w h c =
      let (w', r, h', c') = send_drain w SramCmd.write a d (Thread.run p) [] c (rw h) (rw h) in
      CanEnd-after r (CanEnd-run p w' h' c')
  CanEnd-run (Program.read a k) w h c =
      let (w', r, h', c') =
        send_drain w SramCmd.read a 0 (Thread.poll receive_timeout k) [] c (rw h) (rw h) in
      let x : ℕ = of_bytes (b.get w.store a 8) in
      CanEnd-after r
        (CanEnd-poll k x receive_timeout w' (λ u q m. CanEnd-run (k (some x)) u q m) h' c')

  CanEnd-Follows :
      (p : Program) (s v : Store) (t : Thread) (w : World b) (ls : List ℕ)
      → Follows b p s t v ls
      → w.thread ≡ t
      → IsCalm w ls
      → CanEnd w
  CanEnd-Follows p s v (Thread.run q) w ls (f, e) h c = CanEnd-run q w h (subst (IsCalm w) e c)
  CanEnd-Follows p s v (Thread.poll n k) w ls (a, f, e) h c =
      CanEnd-poll k (word b v a) n w (λ u q m. CanEnd-run (k (some (word b v a))) u q m) h
        (subst (IsCalm w) e c)
  CanEnd-Follows p s v (Thread.test n k) w ls (a, f, e) h c =
      CanEnd-test k (word b v a) n w (λ u q m. CanEnd-run (k (some (word b v a))) u q m) h
        (subst (IsCalm w) e c)
  CanEnd-Follows p s v Thread.halted w ls f h c = (w, stay, (c.patient, inl h))

  -- From every world that the threads reach without a `receive` that has ended without a value,
  -- there are steps after which the application has ended, still without such a `receive`.
  pub application-CanEnd :
      {p : Program} {s : Store} (v : World b) → Reach b p s v → v.timed_out ≡ false → CanEnd v
  application-CanEnd {p} {s} v r h =
      let (w, d) = drain v ((Reach-Corresponds b r).short) in
      CanEnd-after d.runs (
        CanEnd-Follows p s (stored b (flight v.requests v.link) v.store) v.thread w (answers b v)
          (interleaving_refines b v r h) d.thread_kept
          (record {
            no_event = d.no_event;
            no_request = d.no_request;
            arrived = d.answered;
            patient = d.flag_kept ∙ h;
          }))
