-- ===== src/AppGen/Cpu/Issue.antt =====
-- The bookkeeping of the processor when it issues requests (mirandaCPU_kg.cc, `issueRequest`,
-- `issueCustomRequest` and the loop of `clockTick`).
use sst_pim.Prelude.{
  ℕ, ◌+◌, ◌-◌, ltb, ◌≡◌, ◌<◌, refl, sym, ◌∙◌, subst, arith, Bool, true, false, not, List, [], ◌∷◌,
  ◌++◌, if◌then◌else◌, inl, inr, Bool-cases, ok, >>=-eq-ok, to_bytes, replicate, resize, check,
  assertion, ◌%◌,
}
use sst_pim.AppGen.Requests.{GeneratorRequest, Operation, get_data}
use sst_pim.AppGen.Cpu
use sst_pim.AppGen.Cpu.{
  CpuRequest, Counts, Response, StdMem, find_key, insert_key, erase_key, decrement, add_pending,
  new_cpu_request, handle_response, finish_part, handle_event,
}
use sst_pim.AppGen.Cpu.Maps.{
  KeysBelow, KeysBelow-mono, KeysBelow-append, find_none-KeysBelow, insert_fresh,
}
use mathlib.Core.List.{append_assoc}
use sst_pim.Pimdef.{u64}
use sst_pim.AppGen.Cpu.{
  Verdict, issue_whole, issue_split, issue_request, issue_custom_request, issue_step, issue_loop,
  issue_pending, map_address,
}
use sst_pim.AppGen.Cpu.Books.{Kind, pending_of, Sound}
use sst_pim.AppGen.Cpu.Opens.{opened_all, opened_all-append, more, open-IsSound}

-- One new part, or two, by identifier.
abbrev one_part : ℕ → ℕ → List (ℕ × ℕ)
one_part n k = (n, k) ∷ []

abbrev two_parts : ℕ → ℕ → List (ℕ × ℕ)
two_parts n k = (n, k) ∷ (n + 1, k) ∷ []

-- The processor after a request with one part, and after one with two.
abbrev pub with_one : Cpu.Cpu → ℕ → Kind → List StdMem → Cpu.Cpu
with_one c original k out = record c {
  requests_in_flight = c.requests_in_flight ++ one_part c.next_id c.next_id;
  cpu_requests = c.cpu_requests ++ ((c.next_id, new_cpu_request c original 1) ∷ []);
  sent = c.sent ++ out;
  next_id = c.next_id + 1;
  requests_pending = more k 1 c.requests_pending;
}

abbrev pub with_two : Cpu.Cpu → ℕ → Kind → List StdMem → Cpu.Cpu
with_two c original k out = record c {
  requests_in_flight = c.requests_in_flight ++ two_parts c.next_id c.next_id;
  cpu_requests = c.cpu_requests ++ ((c.next_id, new_cpu_request c original 2) ∷ []);
  sent = c.sent ++ out;
  next_id = c.next_id + 2;
  requests_pending = more k 2 c.requests_pending;
}

-- The books with all that the processor has sent since the last answers.
abbrev pub Booked : Cpu.Cpu → List (ℕ × Kind) → Type 0
Booked c o = Sound c (o ++ opened_all c.sent)

with_one-Booked :
    (c : Cpu.Cpu) (o : List (ℕ × Kind)) (original : ℕ) (k : Kind) (out : List StdMem)
    → Booked c o
    → pending_of k c.requests_pending < pending_of k c.max_requests_pending
    → opened_all out ≡ (c.next_id, k) ∷ []
    → Booked (with_one c original k out) o
with_one-Booked c o original k out s g e =
    rw (opened_all-append c.sent out, e, ← append_assoc o (opened_all c.sent) ((c.next_id, k) ∷ []))
      (open-IsSound c.requests_in_flight (one_part c.next_id c.next_id) c.cpu_requests c.next_id
        (c.next_id + 1) 1 (new_cpu_request c original 1) c.requests_pending c.max_requests_pending k
        (o ++ opened_all c.sent) ((c.next_id, k) ∷ []) s (omega arith) (omega arith) (omega arith)
        refl g refl (omega arith, tt) (λ j. omega arith) (λ j. omega arith))

with_two-Booked :
    (c : Cpu.Cpu) (o : List (ℕ × Kind)) (original : ℕ) (k : Kind) (out : List StdMem)
    → Booked c o
    → pending_of k c.requests_pending < pending_of k c.max_requests_pending
    → opened_all out ≡ (c.next_id, k) ∷ (c.next_id + 1, k) ∷ []
    → Booked (with_two c original k out) o
with_two-Booked c o original k out s g e =
    rw
      (
        opened_all-append c.sent out,
        e,
        ← append_assoc o (opened_all c.sent) ((c.next_id, k) ∷ (c.next_id + 1, k) ∷ []),
      )
      (open-IsSound c.requests_in_flight (two_parts c.next_id c.next_id) c.cpu_requests c.next_id
        (c.next_id + 2) 2 (new_cpu_request c original 2) c.requests_pending c.max_requests_pending k
        (o ++ opened_all c.sent) ((c.next_id, k) ∷ (c.next_id + 1, k) ∷ []) s (omega arith)
        (omega arith) (omega arith) refl g refl (omega arith, (omega arith, tt)) (λ j. ground arith)
        (λ j. ground arith))

-- A key that is not there, inserted.
insert_next :
    {A : Type 0} (n : ℕ) (a : A) (m : List (ℕ × A))
    → KeysBelow n m
    → insert_key n a m ≡ m ++ ((n, a) ∷ [])
insert_next n a m b = insert_fresh n a m (find_none-KeysBelow n n m b (omega arith))

insert_two :
    (n : ℕ) (m : List (ℕ × ℕ))
    → KeysBelow n m
    → insert_key (n + 1) n (insert_key n n m) ≡ m ++ two_parts n n
insert_two n m b = rw (insert_next n n m b) (
    insert_next (n + 1) n (m ++ ((n, n) ∷ [])) (
      KeysBelow-append (n + 1) m ((n, n) ∷ []) (KeysBelow-mono n (n + 1) m (omega arith) b)
        (omega arith, tt))
    ∙ append_assoc m ((n, n) ∷ []) ((n + 1, n) ∷ []))

abbrev pub access_kind : Bool → Kind
access_kind true = Kind.writing
access_kind false = Kind.reading

issue_whole-with_one :
    (c c' : Cpu.Cpu) (q : GeneratorRequest) (w : Bool) (a n d aq nq : ℕ) (dq : List ℕ)
    → KeysBelow c.next_id c.requests_in_flight
    → KeysBelow c.next_id c.cpu_requests
    → q.operation ≡ Operation.memory_op w aq nq dq
    → issue_whole c q w a n d ≡ ok c'
    → (out : List StdMem) × (opened_all out ≡ (c.next_id, access_kind w) ∷ [])
      × (c' ≡ with_one c q.req_id (access_kind w) out)
unfolding issue_whole
issue_whole-with_one c c' q true a n d aq nq dq b1 b2 e h =
    let (p, f, g) = >>=-eq-ok (map_address c.mem_mgr a) _ h in
    let bytes = if c.use_app_link then to_bytes 8 d else replicate n 0 in
    (
      StdMem.write c.next_id p n bytes ∷ [],
      refl,
      ground (
        arith,
        g,
        e,
        insert_next c.next_id c.next_id c.requests_in_flight b1,
        insert_next c.next_id (new_cpu_request c q.req_id 1) c.cpu_requests b2,
      ),
    )
issue_whole-with_one c c' q false a n d aq nq dq b1 b2 e h =
    let (p, f, g) = >>=-eq-ok (map_address c.mem_mgr a) _ h in
    (
      StdMem.read c.next_id p n ∷ [],
      refl,
      ground (
        arith,
        g,
        e,
        insert_next c.next_id c.next_id c.requests_in_flight b1,
        insert_next c.next_id (new_cpu_request c q.req_id 1) c.cpu_requests b2,
      ),
    )

issue_split-with_two :
    (c c' : Cpu.Cpu) (q : GeneratorRequest) (w : Bool) (a n aq nq : ℕ) (dq : List ℕ)
    → KeysBelow c.next_id c.requests_in_flight
    → KeysBelow c.next_id c.cpu_requests
    → q.operation ≡ Operation.memory_op w aq nq dq
    → issue_split c q w a n ≡ ok c'
    → (out : List StdMem) × (opened_all out
        ≡ (c.next_id, access_kind w) ∷ (c.next_id + 1, access_kind w) ∷ [])
      × (c' ≡ with_two c q.req_id (access_kind w) out)
unfolding issue_split
issue_split-with_two c c' q true a n aq nq dq b1 b2 e h =
    let (t, f0, h1) = >>=-eq-ok (check (not c.use_app_link) assertion) _ h in
    let (lower, f1, h2) = >>=-eq-ok (map_address c.mem_mgr a) _ h1 in
    let (upper, f2, g) =
      >>=-eq-ok (map_address c.mem_mgr (u64 (lower - lower % c.cache_line + c.cache_line))) _ h2 in
    let l : ℕ = c.cache_line - a % c.cache_line in
    (
      StdMem.write c.next_id lower l (replicate l 0)
          ∷ StdMem.write (c.next_id + 1) upper (n - l) (resize (replicate l 0) (n - l) 0)
          ∷ [],
      refl,
      ground (
        arith,
        g,
        e,
        insert_two c.next_id c.requests_in_flight b1,
        insert_next c.next_id (new_cpu_request c q.req_id 2) c.cpu_requests b2,
      ),
    )
issue_split-with_two c c' q false a n aq nq dq b1 b2 e h =
    let (t, f0, h1) = >>=-eq-ok (check (not c.use_app_link) assertion) _ h in
    let (lower, f1, h2) = >>=-eq-ok (map_address c.mem_mgr a) _ h1 in
    let (upper, f2, g) =
      >>=-eq-ok (map_address c.mem_mgr (u64 (lower - lower % c.cache_line + c.cache_line))) _ h2 in
    let l : ℕ = c.cache_line - a % c.cache_line in
    (
      StdMem.read c.next_id lower l ∷ StdMem.read (c.next_id + 1) upper (n - l) ∷ [],
      refl,
      ground (
        arith,
        g,
        e,
        insert_two c.next_id c.requests_in_flight b1,
        insert_next c.next_id (new_cpu_request c q.req_id 2) c.cpu_requests b2,
      ),
    )

pub issue_request-Booked :
    (c c' : Cpu.Cpu) (o : List (ℕ × Kind)) (q : GeneratorRequest) (w : Bool) (a n : ℕ) (d : List ℕ)
    → Booked c o
    → pending_of (access_kind w) c.requests_pending
      < pending_of (access_kind w) c.max_requests_pending
    → q.operation ≡ Operation.memory_op w a n d
    → issue_request c q w a n ≡ ok c'
    → Booked c' o
unfolding issue_request
issue_request-Booked c c' o q w a n d s g e h =
    let (x, f, k) = >>=-eq-ok (if c.use_app_link then get_data q.operation else ok 0) _ h in
    elim (Bool-cases (ltb c.cache_line (u64 (a % c.cache_line + n)))) [
      | inl t ↦
          let (out, m, r) =
            issue_split-with_two c c' q w a n a n d s.flight_below s.reqs_below e
              (ground (arith, k, t)) in
          subst (λ x. Booked x o) (sym r) (with_two-Booked c o q.req_id (access_kind w) out s g m)
      | inr t ↦
          let (out, m, r) =
            issue_whole-with_one c c' q w a n x a n d s.flight_below s.reqs_below e
              (ground (arith, k, t)) in
          subst (λ x. Booked x o) (sym r) (with_one-Booked c o q.req_id (access_kind w) out s g m)
    ]

pub issue_custom-Booked :
    (c : Cpu.Cpu) (o : List (ℕ × Kind)) (q : GeneratorRequest) (a n : ℕ)
    → Booked c o
    → c.requests_pending.customs < c.max_requests_pending.customs
    → q.operation ≡ Operation.custom_op a n
    → Booked (issue_custom_request c q a n) o
unfolding issue_custom_request
issue_custom-Booked c o q a n s g e =
    let r : issue_custom_request c q a n
        ≡ with_one c q.req_id Kind.custom (StdMem.custom c.next_id a n ∷ []) =
      ground (
        arith,
        e,
        insert_next c.next_id c.next_id c.requests_in_flight s.flight_below,
        insert_next c.next_id (new_cpu_request c q.req_id 1) c.cpu_requests s.reqs_below,
      ) in
    subst (λ x. Booked x o) (sym r)
      (with_one-Booked c o q.req_id Kind.custom (StdMem.custom c.next_id a n ∷ []) s g refl)
