-- ===== src/AppGen/Cpu/Responses.antt =====
-- A response in the books of the processor (mirandaCPU_kg.cc, `handleEvent`).
use sst_pim.Prelude.{
  ℕ, ◌+◌, ◌^◌, ◌==◌, ltb, ◌≡◌, ◌<◌, ◌≤◌, refl, sym, ◌∙◌, subst, arith, false, Option, none, some,
  List, [], ◌∷◌, ◌++◌, map, length, if◌then◌else◌, ◌⊎◌, inl, inr, Bool-cases, ok, eq→beq,
}
use sst_pim.AppGen.Cpu
use sst_pim.AppGen.Cpu.{
  CpuRequest, Counts, Response, StdMem, find_key, insert_key, erase_key, decrement, add_pending,
  new_cpu_request, handle_response, finish_part, handle_event, satisfy_dependency,
}
use sst_pim.AppGen.Cpu.Maps.{
  count, KeysBelow, KeysBelow-erase, find_none-KeysBelow, count-erase, IsDistinct, keys-erase,
  find-keys,
}
use sst_pim.AppGen.Cpu.Books.{
  Kind, is_kind, pending_of, PartsAre, Sound, response, less, pending_of-less, fewer,
  finish_part-find, finish_part-IsDistinct, finish_part-KeysBelow, PartsAre-next,
}

finish_part-rest :
    (key : ℕ) (q : CpuRequest) (c : Cpu.Cpu)
    → ((finish_part c key q).requests_in_flight ≡ c.requests_in_flight)
      × ((finish_part c key q).next_id ≡ c.next_id)
      × ((finish_part c key q).requests_pending ≡ c.requests_pending)
      × ((finish_part c key q).max_requests_pending ≡ c.max_requests_pending)
unfolding finish_part
finish_part-rest key q c = elim (Bool-cases (q.outstanding_parts == 0)) [
  | inl z ↦ rw z (refl, refl, refl, refl)
  | inr z ↦ rw z (refl, refl, refl, refl)
]

handle_response-less :
    (c : Cpu.Cpu) (k : Kind) (bytes : List ℕ)
    → (c.use_app_link ≡ false) ⊎ (length bytes ≡ 8)
    → (ld : List ℕ) × (handle_response c (response k bytes)
        ≡ ok (record c { requests_pending = less k c.requests_pending; load_q = ld }))
unfolding handle_response
handle_response-less c Kind.reading bytes h =
    (if c.use_app_link then c.load_q ++ (Cpu.of_bytes bytes ∷ []) else c.load_q, ground (arith, h))
handle_response-less c Kind.writing bytes h = (c.load_q, refl)
handle_response-less c Kind.custom bytes h = (c.load_q, refl)

less-counted :
    (k j : Kind) (p limit : Counts) (i : ℕ) (o : List (ℕ × Kind))
    → find_key i o ≡ some k
    → pending_of j p ≡ count (is_kind j) o
    → pending_of j p ≤ pending_of j limit + 1
    → pending_of j limit + 1 < 2 ^ 32
    → (pending_of j (less k p) ≡ count (is_kind j) (erase_key i o))
      × (pending_of j (less k p) ≤ pending_of j limit + 1)
less-counted k j p limit i o f e l s =
    let n = count-erase (is_kind j) i k o f in
    let m = pending_of-less k j p in (ground (arith, n, m, e, l, s), ground (arith, n, m, e, l, s))

has_entry :
    (i key : ℕ) (flight : List (ℕ × ℕ)) (x : Option CpuRequest)
    → find_key i flight ≡ some key
    → PartsAre x (count (λ v. v == key) flight)
    → (q : CpuRequest) × (x ≡ some q)
has_entry i key flight none f h =
    absurd (ground (arith, count-erase (λ v. v == key) i key flight f, eq→beq key key refl, h))
has_entry i key flight (some q) f h = (q, refl)

found_below :
    (n key : ℕ) (q : CpuRequest) (m : List (ℕ × CpuRequest))
    → KeysBelow n m
    → find_key key m ≡ some q
    → key < n
found_below n key q m b f = elim (Bool-cases (ltb key n)) [
  | inl l ↦ ground (arith, l)
  | inr l ↦ absurd (ground (arith, f, find_none-KeysBelow n key m b (ground (arith, l))))
]

-- The processor after the response to an open request.
abbrev pub received : Cpu.Cpu → ℕ → Kind → List ℕ → Cpu.Cpu
received c i k ld = record c {
  requests_in_flight = erase_key i c.requests_in_flight;
  requests_pending = less k c.requests_pending;
  load_q = ld;
}

finish-Sound :
    (c : Cpu.Cpu) (o : List (ℕ × Kind)) (i key : ℕ) (k : Kind) (q : CpuRequest) (ld : List ℕ)
    → Sound c o
    → find_key i o ≡ some k
    → find_key i c.requests_in_flight ≡ some key
    → find_key key c.cpu_requests ≡ some q
    → Sound (finish_part (received c i k ld) key (fewer q)) (erase_key i o)
finish-Sound c o i key k q ld s f g h =
    let (e1, e2, e3, e4) = finish_part-rest key (fewer q) (received c i k ld) in
    let d = s.reqs_distinct in
    let l = found_below c.next_id key q c.cpu_requests s.reqs_below h in
    let less_lem = λ (j : Kind).
      less-counted k j c.requests_pending c.max_requests_pending i o f (s.counted j) (s.limited j)
        (s.small j) in
    rw (e1, e2, e3, e4)
      (record {
        same_keys = keys-erase i c.requests_in_flight o s.same_keys;
        flight_below = KeysBelow-erase c.next_id i c.requests_in_flight s.flight_below;
        reqs_below =
            finish_part-KeysBelow c.next_id key (fewer q) (received c i k ld) d l s.reqs_below;
        reqs_distinct = finish_part-IsDistinct key (fewer q) (received c i k ld) d;
        counted = λ j. let (a, b) = less_lem j in a;
        limited = λ j. let (a, b) = less_lem j in b;
        small = s.small;
        parts = λ j. PartsAre-next i key j q c.requests_in_flight (received c i k ld) d g h s.parts;
      })

-- The last part of a request, and one that is not the last.
pub finish_part-cases :
    (key n : ℕ) (q : CpuRequest) (c : Cpu.Cpu)
    → IsDistinct c.cpu_requests
    → PartsAre (find_key key (finish_part c key q).cpu_requests) n
    → ((0 < n) × ((finish_part c key q).pending_requests ≡ c.pending_requests))
      ⊎ ((n ≡ 0)
          × (find_key key (finish_part c key q).cpu_requests ≡ none)
          × ((finish_part c key q).pending_requests.elements
              ≡ map (satisfy_dependency q.original_id) c.pending_requests.elements))
unfolding finish_part
finish_part-cases key n q c d p =
    let f = finish_part-find key key q c d in
    elim (Bool-cases (q.outstanding_parts == 0)) [
      | inl z ↦
          let e : find_key key (finish_part c key q).cpu_requests ≡ none =
            f ∙ rw (eq→beq key key refl, z) refl in
          inr (subst (λ x. PartsAre x n) e p, e, rw z refl)
      | inr z ↦
          let e : find_key key (finish_part c key q).cpu_requests ≡ some q =
            f ∙ rw (eq→beq key key refl, z) refl in
          let (a, b, l) = subst (λ x. PartsAre x n) e p in inl (b, rw z refl)
    ]

-- What the response to an open request does: its key and entry are there, and the books are right
-- afterwards.
pub handle_event-Sound :
    (c : Cpu.Cpu) (o : List (ℕ × Kind)) (i : ℕ) (k : Kind) (bytes : List ℕ)
    → Sound c o
    → find_key i o ≡ some k
    → (c.use_app_link ≡ false) ⊎ (length bytes ≡ 8)
    → (key : ℕ) × (q : CpuRequest) × (ld : List ℕ) × (find_key i c.requests_in_flight ≡ some key)
      × (find_key key c.cpu_requests ≡ some q)
      × (handle_event c i (response k bytes) ≡ ok (finish_part (received c i k ld) key (fewer q)))
      × Sound (finish_part (received c i k ld) key (fewer q)) (erase_key i o)
unfolding handle_event
handle_event-Sound c o i k bytes s f a =
    let (key, g) = find-keys i k o c.requests_in_flight (sym s.same_keys) f in
    let (q, h) =
      has_entry i key c.requests_in_flight (find_key key c.cpu_requests) g (s.parts key) in
    let (ld, e) =
      handle_response-less (record c { requests_in_flight = erase_key i c.requests_in_flight }) k
        bytes a in
    (key, q, ld, g, h, rw (g, h) (rw e refl), finish-Sound c o i key k q ld s f g h)
