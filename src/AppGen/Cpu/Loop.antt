-- ===== src/AppGen/Cpu/Loop.antt =====
-- The loop of `clockTick` (mirandaCPU_kg.cc) in the books of the processor.
use sst_pim.Prelude.{
  ℕ, ◌+◌, ◌==◌, ltb, ◌≡◌, ◌<◌, refl, subst, arith, Bool, true, false, ◌||◌, List, [], ◌∷◌, ◌++◌,
  if◌then◌else◌, ◌⊎◌, inl, inr, Bool-cases, Outcome, ok, ◌>>=◌, >>=-eq-ok,
}
use sst_pim.AppGen.Requests.{GeneratorRequest, Operation, can_issue, erase}
use sst_pim.AppGen.Cpu
use sst_pim.AppGen.Cpu.{
  CpuRequest, Counts, Response, StdMem, find_key, insert_key, erase_key, decrement, add_pending,
  new_cpu_request, handle_response, finish_part, handle_event,
}
use sst_pim.AppGen.Cpu.{
  Verdict, issue_whole, issue_split, issue_request, issue_custom_request, issue_step, issue_loop,
  issue_pending, map_address,
}
use sst_pim.AppGen.Cpu.Books.{Kind, pending_of}
use sst_pim.AppGen.Cpu.Issue.{Booked, access_kind, issue_request-Booked, issue_custom-Booked}

kept : (o : List (ℕ × Kind)) (x y : Cpu.Cpu) → x ≡ y → Booked x o → Booked y o
kept o x y e s = subst (λ z. Booked z o) e s

abbrev with_issued : Cpu.Cpu → Outcome (Cpu.Cpu × Verdict)
with_issued x = ok (x, Verdict.issued)

-- The branch of a memory request that is not issued, and of one that is.
issue_memory-Booked :
    (c c' : Cpu.Cpu) (o : List (ℕ × Kind)) (q : GeneratorRequest) (w : Bool) (a n : ℕ) (d : List ℕ)
    (v : Verdict)
    → Booked c o
    → q.operation ≡ Operation.memory_op w a n d
    → pending_of (access_kind w) c.requests_pending
      < pending_of (access_kind w) c.max_requests_pending
    → (if can_issue q then (issue_request c q w a n >>= with_issued) else ok (c, Verdict.waits))
      ≡ ok (c', v)
    → Booked c' o
issue_memory-Booked c c' o q w a n d v s e g h = elim (Bool-cases (can_issue q)) [
  | inl t ↦
      let h' : (issue_request c q w a n >>= with_issued) ≡ ok (c', v) = ground (arith, h, t) in
      let (x, f, k) = >>=-eq-ok (issue_request c q w a n) with_issued h' in
      kept o x c' (ground (arith, k)) (issue_request-Booked c x o q w a n d s g e f)
  | inr t ↦ kept o c c' (ground (arith, h, t)) s
]

-- What the loop of the clock does with a request keeps the books.
issue_step-Booked :
    (c c' : Cpu.Cpu) (o : List (ℕ × Kind)) (q : GeneratorRequest) (op : Operation) (v : Verdict)
    → Booked c o
    → q.operation ≡ op
    → issue_step c q op ≡ ok (c', v)
    → Booked c' o
unfolding issue_step
issue_step-Booked c c' o q Operation.fence_op v s e h = kept o c c' (ground (arith, h)) s
issue_step-Booked c c' o q (Operation.custom_op a n) v s e h =
    elim (Bool-cases (ltb c.requests_pending.customs c.max_requests_pending.customs)) [
      | inl t ↦ elim (Bool-cases (can_issue q)) [
        | inl u ↦
            kept o (issue_custom_request c q a n) c' (ground (arith, h, t, u))
              (issue_custom-Booked c o q a n s (ground (arith, t)) e)
        | inr u ↦ kept o c c' (ground (arith, h, t, u)) s
      ]
      | inr t ↦ kept o c c' (ground (arith, h, t)) s
    ]
issue_step-Booked c c' o q (Operation.memory_op true a n d) v s e h =
    elim (Bool-cases (ltb c.requests_pending.writes c.max_requests_pending.writes)) [
      | inl t ↦
          issue_memory-Booked c c' o q true a n d v s e (ground (arith, t)) (ground (arith, h, t))
      | inr t ↦ kept o c c' (ground (arith, h, t)) s
    ]
issue_step-Booked c c' o q (Operation.memory_op false a n d) v s e h =
    elim (Bool-cases (ltb c.requests_pending.reads c.max_requests_pending.reads)) [
      | inl t ↦
          issue_memory-Booked c c' o q false a n d v s e (ground (arith, t)) (ground (arith, h, t))
      | inr t ↦ kept o c c' (ground (arith, h, t)) s
    ]

-- The rest of the loop after a request.
abbrev goes_on :
    List GeneratorRequest → ℕ → ℕ → List ℕ → Cpu.Cpu × Verdict → Outcome (Cpu.Cpu × List ℕ)
goes_on qs i n dels (c, v) = elim v [
  | Verdict.issued ↦ issue_loop qs (i + 1) (n + 1) (dels ++ (i ∷ [])) c
  | Verdict.waits ↦ issue_loop qs (i + 1) n dels c
  | Verdict.retired ↦ ok (c, dels ++ (i ∷ []))
  | Verdict.stops ↦ ok (c, dels)
]

verdict_cases :
    (v : Verdict)
    → ((v ≡ Verdict.issued) ⊎ (v ≡ Verdict.waits)) ⊎ ((v ≡ Verdict.retired) ⊎ (v ≡ Verdict.stops))
verdict_cases Verdict.issued = inl (inl refl)
verdict_cases Verdict.waits = inl (inr refl)
verdict_cases Verdict.retired = inr (inl refl)
verdict_cases Verdict.stops = inr (inr refl)

-- So does the loop, and the issue part of the clock.
issue_loop-Booked :
    (qs : List GeneratorRequest) (i n : ℕ) (dels : List ℕ) (c : Cpu.Cpu) (r : Cpu.Cpu × List ℕ)
    (o : List (ℕ × Kind))
    → Booked c o
    → issue_loop qs i n dels c ≡ ok r
    → Booked r.0 o
unfolding issue_loop
issue_loop-Booked [] i n dels c r o s h = kept o c r.0 (ground (arith, h)) s
issue_loop-Booked (q ∷ qs) i n dels c r o s h =
    elim (Bool-cases ((n == c.req_max_per_cycle) || (i == c.max_op_lookup))) [
      | inl t ↦ kept o c r.0 (ground (arith, h, t)) s
      | inr t ↦
          let h' : (issue_step c q q.operation >>= goes_on qs i n dels) ≡ ok r =
            ground (arith, h, t) in
          let ((c', v), e, g) = >>=-eq-ok (issue_step c q q.operation) (goes_on qs i n dels) h' in
          let s' : Booked c' o = issue_step-Booked c c' o q q.operation v s refl e in
          elim (verdict_cases v) [
            | inl m ↦ elim m [
              | inl z ↦
                  issue_loop-Booked qs (i + 1) (n + 1) (dels ++ (i ∷ [])) c' r o s'
                    (ground (arith, g, z))
              | inr z ↦ issue_loop-Booked qs (i + 1) n dels c' r o s' (ground (arith, g, z))
            ]
            | inr m ↦ elim m [
              | inl z ↦ kept o c' r.0 (ground (arith, g, z)) s'
              | inr z ↦ kept o c' r.0 (ground (arith, g, z)) s'
            ]
          ]
    ]

pub issue_pending-Booked :
    (c c' : Cpu.Cpu) (o : List (ℕ × Kind)) → Booked c o → issue_pending c ≡ ok c' → Booked c' o
unfolding issue_pending
issue_pending-Booked c c' o s h =
    let ((c1, dels), e, g) = >>=-eq-ok (issue_loop c.pending_requests.elements 0 0 [] c) _ h in
    kept o (record c1 { pending_requests = erase c1.pending_requests dels }) c' (ground (arith, g))
      (issue_loop-Booked c.pending_requests.elements 0 0 [] c (c1, dels) o s e)
