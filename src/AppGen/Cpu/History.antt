-- ===== src/AppGen/Cpu/History.antt =====
-- The processor with its generator and a memory that answers in any order (mirandaCPU_kg.cc,
-- `clockTick` and `handleEvent`).
use sst_pim.Prelude.{
  ℕ, ◌+◌, ◌-◌, ◌^◌, ◌==◌, ◌≡◌, ◌<◌, ◌≤◌, refl, sym, subst, arith, Bool, false, not, ◌&&◌, none,
  some, List, [], ◌++◌, map, length, ◌⊎◌, inl, inr, Bool-cases, Outcome, ok, ◌>>=◌, >>=-eq-ok,
}
use sst_pim.AppGen.Requests.{RequestQueue}
use sst_pim.AppGen.Cpu
use sst_pim.AppGen.Cpu.{
  CpuRequest, Counts, Response, StdMem, find_key, insert_key, erase_key, decrement, add_pending,
  new_cpu_request, handle_response, finish_part, handle_event,
}
use sst_pim.AppGen.Cpu.Maps.{count}
use mathlib.Core.List.{append-nil}
use sst_pim.AppGen.Cpu.{
  Generator, is_idle, clock_tick, issue_pending, generate_loop, satisfy_dependency,
}
use sst_pim.AppGen.Cpu.Opens.{opened_all}
use sst_pim.AppGen.Cpu.Issue.{Booked}
use sst_pim.AppGen.Cpu.Loop.{issue_pending-Booked}
use sst_pim.AppGen.Cpu.Books.{Kind, is_kind, pending_of, Sound, response, fewer}
use sst_pim.AppGen.Cpu.Responses.{received, handle_event-Sound, finish_part-cases}

module _ (g : Generator) where
  pub record World : Type 0 where
    pub cpu : Cpu.Cpu
    pub generator : g.State
    -- the requests that the memory has and has not answered
    pub open_requests : List (ℕ × Kind)

  -- A tick of the clock, after which the memory has what was sent; and a response to any request
  -- that is open.
  pub data Step (w : World) : World → Type 0 where
    tick :
        {c : Cpu.Cpu} {s : g.State} {d : Bool}
        → clock_tick g (record w.cpu { sent = [] }) w.generator ≡ ok (c, s, d)
        → Step w (record {
          cpu = c;
          generator = s;
          open_requests = w.open_requests ++ opened_all c.sent;
        })
    reply :
        (i : ℕ) (k : Kind) (bytes : List ℕ) {c : Cpu.Cpu}
        → find_key i w.open_requests ≡ some k
        → (w.cpu.use_app_link ≡ false) ⊎ (length bytes ≡ 8)
        → handle_event w.cpu i (response k bytes) ≡ ok c
        → Step w (record w { cpu = c; open_requests = erase_key i w.open_requests })

  -- A processor that has sent nothing, with limits below the largest 32-bit number.
  pub record IsFresh (c : Cpu.Cpu) : Type 0 where
    pub no_flight : c.requests_in_flight ≡ []
    pub no_request : c.cpu_requests ≡ []
    pub no_pending : (k : Kind) → pending_of k c.requests_pending ≡ 0
    pub limits : (k : Kind) → pending_of k c.max_requests_pending + 1 < 2 ^ 32

  pub data Reach (c : Cpu.Cpu) (s : g.State) : World → Type 0 where
    start : Reach c s (record { cpu = c; generator = s; open_requests = [] })
    later : {v w : World} → Reach c s v → Step v w → Reach c s w

  fresh-Sound : (c : Cpu.Cpu) → IsFresh c → Sound c []
  unfolding find_key
  fresh-Sound c f =
      rw (f.no_flight, f.no_request)
        (record {
          same_keys = refl;
          flight_below = tt;
          reqs_below = tt;
          reqs_distinct = tt;
          counted = f.no_pending;
          limited = λ k. omega (arith, f.no_pending k);
          small = f.limits;
          parts = λ k. refl;
        })

  -- The tick of a processor that is not done.
  abbrev fills : Cpu.Cpu → g.State × RequestQueue → Outcome (Cpu.Cpu × g.State × Bool)
  fills c (s, q) = issue_pending (record c { pending_requests = q }) >>= λ c'. ok (c', s, false)

  ticked :
      (c c' : Cpu.Cpu) (s s' : g.State) (d : Bool) (o : List (ℕ × Kind))
      → Booked c o
      → (generate_loop g
            (c.max_op_lookup - length c.pending_requests.elements)
            (c.use_app_link && not (c.requests_pending.reads == 0))
            s
            c.pending_requests
          >>= fills c)
        ≡ ok (c', s', d)
      → Booked c' o
  ticked c c' s s' d o b h =
      let ((s1, q), e, h1) =
        >>=-eq-ok
          (generate_loop g (c.max_op_lookup - length c.pending_requests.elements)
            (c.use_app_link && not (c.requests_pending.reads == 0)) s c.pending_requests)
          (fills c) h in
      let (c1, e1, h2) = >>=-eq-ok (issue_pending (record c { pending_requests = q })) _ h1 in
      subst (λ x. Booked x o) {x = c1} {y = c'} (ground (arith, h2))
        (issue_pending-Booked (record c { pending_requests = q }) c1 o b e1)

  tick-Sound :
      (c c' : Cpu.Cpu) (s s' : g.State) (d : Bool) (o : List (ℕ × Kind))
      → Sound c o
      → clock_tick g (record c { sent = [] }) s ≡ ok (c', s', d)
      → Sound c' (o ++ opened_all c'.sent)
  unfolding clock_tick
  tick-Sound c c' s s' d o b h =
      let c0 : Cpu.Cpu = record c { sent = [] } in
      let b0 : Booked c0 o = subst (Sound c) (sym (append-nil o)) b in
      elim (Bool-cases (g.is_finished s && is_idle g c0)) [
        | inl t ↦ subst (λ x. Booked x o) {x = c0} {y = c'} (ground (arith, h, t)) b0
        | inr t ↦ ticked c0 c' s s' d o b0 (ground (arith, h, t))
      ]

  Reach-Sound :
      {c : Cpu.Cpu} {s : g.State} {w : World}
      → IsFresh c
      → Reach c s w
      → Sound w.cpu w.open_requests
  Reach-Sound {c} f start = fresh-Sound c f
  Reach-Sound f (later {v} {w} r (tick {c} {s} {d} h)) =
      tick-Sound v.cpu c v.generator s d v.open_requests (Reach-Sound f r) h
  Reach-Sound f (later {v} {w} r (reply i k bytes {c} e a h)) =
      let (key, q, ld, m, n, x, y) =
        handle_event-Sound v.cpu v.open_requests i k bytes (Reach-Sound f r) e a in
      subst (λ z. Sound z (erase_key i v.open_requests))
        {x = finish_part (received v.cpu i k ld) key (fewer q)} {y = c} (ground (arith, h, x)) y

  -- In every history of ticks and of responses to open requests, in whatever order: the processor
  -- counts for each kind the requests that the memory has not answered, and they are at most one
  -- more than the limit of the kind, which a split request can add.
  pub pending_bounded :
      {c : Cpu.Cpu} {s : g.State} (w : World) (k : Kind)
      → IsFresh c
      → Reach c s w
      → (pending_of k w.cpu.requests_pending ≡ count (is_kind k) w.open_requests)
        × (pending_of k w.cpu.requests_pending ≤ pending_of k w.cpu.max_requests_pending + 1)
  pending_bounded w k f r = ((Reach-Sound f r).counted k, (Reach-Sound f r).limited k)

  -- The parts of the request at a key that are still in flight.
  abbrev pub left : ℕ → Cpu.Cpu → ℕ
  left key c = count (λ v. v == key) c.requests_in_flight

  -- In every such history a response to an open request is handled without a fault. The request
  -- that it is a part of is known. If other parts of it are in flight, the requests that wait in
  -- the queue stay as they are; with the last part the request is forgotten, and all that wait for
  -- it are freed of it.
  pub responses_complete :
      {c : Cpu.Cpu} {s : g.State} (w : World) (i : ℕ) (k : Kind) (bytes : List ℕ)
      → IsFresh c
      → Reach c s w
      → find_key i w.open_requests ≡ some k
      → (w.cpu.use_app_link ≡ false) ⊎ (length bytes ≡ 8)
      → (c' : Cpu.Cpu) × (key : ℕ) × (q : CpuRequest) × (handle_event w.cpu i (response k bytes)
          ≡ ok c')
        × (find_key i w.cpu.requests_in_flight ≡ some key)
        × (find_key key w.cpu.cpu_requests ≡ some q)
        × (((0 < left key c') × (c'.pending_requests ≡ w.cpu.pending_requests))
            ⊎ ((left key c' ≡ 0)
                × (find_key key c'.cpu_requests ≡ none)
                × (c'.pending_requests.elements
                    ≡ map (satisfy_dependency q.original_id) w.cpu.pending_requests.elements)))
  responses_complete w i k bytes f r e a =
      let (key, q, ld, g1, h, x, y) =
        handle_event-Sound w.cpu w.open_requests i k bytes (Reach-Sound f r) e a in
      let c' : Cpu.Cpu = finish_part (received w.cpu i k ld) key (fewer q) in
      (
        c',
        key,
        q,
        x,
        g1,
        h,
        finish_part-cases key (left key c') (fewer q) (received w.cpu i k ld)
            ((Reach-Sound f r).reqs_distinct) (y.parts key),
      )
