-- ===== src/AppGen/Cpu/Books.antt =====
-- The bookkeeping of the processor (mirandaCPU_kg.cc) against the requests that the memory has open.
use sst_pim.Prelude.{
  ℕ, ◌+◌, ◌^◌, ◌==◌, ◌≡◌, ◌<◌, ◌≤◌, refl, sym, ap, ◌∙◌, subst, arith, Bool, true, false, Option,
  none, some, List, [], ◌∷◌, ◌++◌, if◌then◌else◌, inl, inr, Bool-cases, beq→eq, eq→beq,
}
use sst_pim.AppGen.Cpu
use sst_pim.AppGen.Cpu.{
  CpuRequest, Counts, Response, StdMem, find_key, insert_key, erase_key, decrement, add_pending,
  new_cpu_request, handle_response, finish_part, handle_event, satisfy_dependency,
}
use sst_pim.AppGen.Cpu.Maps.{
  keys, count, KeysBelow, KeysBelow-append, KeysBelow-erase, insert_fresh, count-erase, IsDistinct,
  find-erase, IsDistinct-erase, find-append, IsDistinct-append,
}

pub data Kind : Type 0 where
  reading writing custom : Kind

abbrev pub is_kind : Kind → Kind → Bool
is_kind Kind.reading Kind.reading = true
is_kind Kind.writing Kind.writing = true
is_kind Kind.custom Kind.custom = true
is_kind _ _ = false

abbrev pub pending_of : Kind → Counts → ℕ
pending_of Kind.reading p = p.reads
pending_of Kind.writing p = p.writes
pending_of Kind.custom p = p.customs

-- The number of open parts of a request.
abbrev pub PartsAre : Option CpuRequest → ℕ → Type 0
PartsAre none n = n ≡ 0
PartsAre (some q) n = (q.outstanding_parts ≡ n) × (0 < n) × (n ≤ 2)

-- The state of the processor, by the members that count, and the requests that are open.
pub record IsSound (flight : List (ℕ × ℕ)) (reqs : List (ℕ × CpuRequest)) (next : ℕ)
    (pending limit : Counts) (open_requests : List (ℕ × Kind)) : Type 0 where
  pub same_keys : keys flight ≡ keys open_requests
  pub flight_below : KeysBelow next flight
  pub reqs_below : KeysBelow next reqs
  pub reqs_distinct : IsDistinct reqs
  pub counted : (k : Kind) → pending_of k pending ≡ count (is_kind k) open_requests
  pub limited : (k : Kind) → pending_of k pending ≤ pending_of k limit + 1
  pub small : (k : Kind) → pending_of k limit + 1 < 2 ^ 32
  pub parts : (k : ℕ) → PartsAre (find_key k reqs) (count (λ v. v == k) flight)

abbrev pub Sound : Cpu.Cpu → List (ℕ × Kind) → Type 0
Sound c o =
    IsSound c.requests_in_flight c.cpu_requests c.next_id c.requests_pending c.max_requests_pending
      o

-- The response to a request.
abbrev pub response : Kind → List ℕ → Response
response Kind.reading bytes = Response.read_resp bytes
response Kind.writing bytes = Response.write_resp
response Kind.custom bytes = Response.custom_resp

-- One pending request of a kind less.
abbrev pub less : Kind → Counts → Counts
less Kind.reading p = record p { reads = decrement p.reads }
less Kind.writing p = record p { writes = decrement p.writes }
less Kind.custom p = record p { customs = decrement p.customs }

pub pending_of-less :
    (k j : Kind) (p : Counts)
    → pending_of j (less k p) ≡ (if is_kind j k then decrement (pending_of j p) else pending_of j p)
pending_of-less Kind.reading Kind.reading p = refl
pending_of-less Kind.reading Kind.writing p = refl
pending_of-less Kind.reading Kind.custom p = refl
pending_of-less Kind.writing Kind.reading p = refl
pending_of-less Kind.writing Kind.writing p = refl
pending_of-less Kind.writing Kind.custom p = refl
pending_of-less Kind.custom Kind.reading p = refl
pending_of-less Kind.custom Kind.writing p = refl
pending_of-less Kind.custom Kind.custom p = refl

erased :
    (key : ℕ) (m : List (ℕ × CpuRequest)) → IsDistinct m → find_key key (erase_key key m) ≡ none
erased key m d = find-erase key key m d ∙ rw (eq→beq key key refl) refl

finish_reqs :
    (key : ℕ) (q : CpuRequest) (c : Cpu.Cpu)
    → IsDistinct c.cpu_requests
    → (finish_part c key q).cpu_requests ≡ (
        if q.outstanding_parts == 0
        then erase_key key c.cpu_requests
        else erase_key key c.cpu_requests ++ ((key, q) ∷ []))
unfolding finish_part
finish_reqs key q c d = elim (Bool-cases (q.outstanding_parts == 0)) [
  | inl z ↦ rw z refl
  | inr z ↦ rw z (insert_fresh key q (erase_key key c.cpu_requests) (erased key c.cpu_requests d))
]

-- The entries after a part of the request at `key` is there.
pub finish_part-find :
    (key k : ℕ) (q : CpuRequest) (c : Cpu.Cpu)
    → IsDistinct c.cpu_requests
    → find_key k (finish_part c key q).cpu_requests ≡ (
        if key == k
        then (if q.outstanding_parts == 0 then none else some q)
        else find_key k c.cpu_requests)
finish_part-find key k q c d =
    let m : List (ℕ × CpuRequest) = erase_key key c.cpu_requests in
    let gone : find_key k m ≡ (if key == k then none else find_key k c.cpu_requests) =
      find-erase key k c.cpu_requests d in
    ap (find_key k) (finish_reqs key q c d)
    ∙ ground (arith, gone, find-append key k q m (erased key c.cpu_requests d))

pub finish_part-IsDistinct :
    (key : ℕ) (q : CpuRequest) (c : Cpu.Cpu)
    → IsDistinct c.cpu_requests
    → IsDistinct (finish_part c key q).cpu_requests
finish_part-IsDistinct key q c d =
    let m : List (ℕ × CpuRequest) = erase_key key c.cpu_requests in
    let dm : IsDistinct m = IsDistinct-erase key c.cpu_requests d in
    elim (Bool-cases (q.outstanding_parts == 0)) [
      | inl z ↦ rw (finish_reqs key q c d, z) dm
      | inr z ↦
          rw (finish_reqs key q c d, z) (IsDistinct-append key q m (erased key c.cpu_requests d) dm)
    ]

pub finish_part-KeysBelow :
    (n key : ℕ) (q : CpuRequest) (c : Cpu.Cpu)
    → IsDistinct c.cpu_requests
    → key < n
    → KeysBelow n c.cpu_requests
    → KeysBelow n (finish_part c key q).cpu_requests
finish_part-KeysBelow n key q c d l b =
    let m : List (ℕ × CpuRequest) = erase_key key c.cpu_requests in
    let bm : KeysBelow n m = KeysBelow-erase n key c.cpu_requests b in
    elim (Bool-cases (q.outstanding_parts == 0)) [
      | inl z ↦ rw (finish_reqs key q c d, z) bm
      | inr z ↦ rw (finish_reqs key q c d, z) (KeysBelow-append n m ((key, q) ∷ []) bm (l, tt))
    ]

-- The entry of a request with one part less.
abbrev pub fewer : CpuRequest → CpuRequest
fewer q = record q { outstanding_parts = decrement q.outstanding_parts }

PartsAre-fewer :
    (q : CpuRequest) (n : ℕ)
    → PartsAre (some q) (1 + n)
    → PartsAre (if decrement q.outstanding_parts == 0 then none else some (fewer q)) n
PartsAre-fewer q n (e, l, h) =
    let m : decrement q.outstanding_parts ≡ n = ground (arith, e, h) in
    elim (Bool-cases (decrement q.outstanding_parts == 0)) [
      | inl z ↦ rw z (ground (arith, m, z))
      | inr z ↦ rw z (m, ground (arith, m, z), omega arith)
    ]

-- The parts after one of the request at `key` is there.
pub PartsAre-next :
    (i key k : ℕ) (q : CpuRequest) (flight : List (ℕ × ℕ)) (c : Cpu.Cpu)
    → IsDistinct c.cpu_requests
    → find_key i flight ≡ some key
    → find_key key c.cpu_requests ≡ some q
    → ((j : ℕ) → PartsAre (find_key j c.cpu_requests) (count (λ v. v == j) flight))
    → PartsAre
        (find_key k (finish_part c key (fewer q)).cpu_requests)
        (count (λ v. v == k) (erase_key i flight))
PartsAre-next i key k q flight c d f g h =
    let n = count-erase (λ v. v == k) i key flight f in
    elim (Bool-cases (key == k)) [
      | inl e ↦
          let same : find_key k c.cpu_requests ≡ some q =
            ap (λ x. find_key x c.cpu_requests) (sym (beq→eq key k e)) ∙ g in
          rw (finish_part-find key k (fewer q) c d, e)
            (PartsAre-fewer q (count (λ v. v == k) (erase_key i flight)) (
              subst (PartsAre (some q)) (ground (arith, n, e))
                (subst (λ o. PartsAre o (count (λ v. v == k) flight)) same (h k))))
      | inr e ↦
          rw (finish_part-find key k (fewer q) c d, e)
            (subst (PartsAre (find_key k c.cpu_requests)) (ground (arith, n, e)) (h k))
    ]
