-- ===== src/AppGen/Stream.antt =====
-- singlestream_kg.cc: the requests that the generator of a single stream makes.
use sst_pim.Prelude.{
  ℕ, zero, suc, ◌+◌, ◌-◌, ◌*◌, ◌%◌, ◌^◌, ◌==◌, ◌≡◌, ◌≤◌, ◌<◌, refl, ◌∙◌, sym, arith, Bool, List, [],
  ◌∷◌, ◌++◌, if◌then◌else◌,
}
use mathlib.Core.List.{append-nil, append_assoc}
use sst_pim.Pimdef.{u64}
use sst_pim.AppGen.Requests.{GeneratorRequest, RequestQueue, memory_op_request, push_back}
use sst_pim.AppGen.Sources.{
  SingleStream, build, generator_request, single_stream_generate, single_stream_finished,
}

-- `n` calls of `generate`.
unfoldable pub generate_times : ℕ → SingleStream × RequestQueue → SingleStream × RequestQueue
generate_times zero r = r
generate_times (suc n) (s, q) = generate_times n (single_stream_generate s q)

-- `n` requests for eight bytes each, from an address and an identifier on.
unfoldable pub strided : Bool → ℕ → ℕ → ℕ → ℕ → List GeneratorRequest
strided w len i a zero = []
strided w len i a (suc n) =
    generator_request i (memory_op_request w a len 0) ∷ strided w len (i + 1) (a + len) n

small : (a m : ℕ) → a < m → a % m ≡ a
small a m h = grind arith

count_down : (c : ℕ) → 0 < c → c < 2 ^ 64 → (c + 2 ^ 64 - 1) % 2 ^ 64 ≡ c - 1
count_down c p h = grind arith

-- The next address where it does not reach the bound.
following :
    (start a max : ℕ)
    → start ≤ a
    → a < max
    → max < 2 ^ 64
    → (if u64 a % max == 0 then start else u64 a % max) ≡ a
following start a max l h m =
    rw (small a (2 ^ 64) (omega (arith, h, m)), small a max h) (ground arith)

-- One call, where the next address does not reach the bound.
generate_step :
    (s : SingleStream) (q : RequestQueue)
    → s.start_addr ≤ s.next_addr
    → s.next_addr + s.req_length < s.max_addr
    → s.max_addr < 2 ^ 64
    → 0 < s.issue_count
    → s.issue_count < 2 ^ 64
    → single_stream_generate s q ≡ (
      record s {
        next_addr = s.next_addr + s.req_length;
        issue_count = s.issue_count - 1;
        next_request = s.next_request + 1;
      },
      push_back q (
          generator_request s.next_request
            (memory_op_request s.is_write s.next_addr s.req_length 0)),
    )
unfolding single_stream_generate
generate_step s q l h m p c =
    rw
      (
        following s.start_addr (s.next_addr + s.req_length) s.max_addr (omega arith) h m,
        count_down s.issue_count p c,
      )
      refl

-- `n` calls from any state, where no address reaches the bound.
generate_times_from :
    (n : ℕ) (s : SingleStream) (q : RequestQueue)
    → s.start_addr ≤ s.next_addr
    → s.next_addr + s.req_length * n < s.max_addr
    → s.max_addr < 2 ^ 64
    → n ≤ s.issue_count
    → s.issue_count < 2 ^ 64
    → let r = generate_times n (s, q) in
      (r.1.elements ≡ q.elements ++ strided s.is_write s.req_length s.next_request s.next_addr n)
      × (r.0.issue_count ≡ s.issue_count - n)
unfolding generate_times strided push_back
generate_times_from zero s q l h m p c = (sym (append-nil q.elements), omega arith)
generate_times_from (suc n) s q l h m p c =
    let step : s.req_length * suc n ≡ s.req_length + s.req_length * n = grind arith in
    let s' : SingleStream = record s {
      next_addr = s.next_addr + s.req_length;
      issue_count = s.issue_count - 1;
      next_request = s.next_request + 1;
    } in
    let q' : RequestQueue = push_back q (
      generator_request s.next_request (memory_op_request s.is_write s.next_addr s.req_length 0)) in
    let (e, k) =
      generate_times_from n s' q' (omega arith) (omega (arith, step, h)) m (omega arith)
        (omega arith) in
    rw (generate_times, generate_step s q l (omega (arith, step, h)) m (omega arith) c)
      (e ∙ append_assoc q.elements _ _, k ∙ omega arith)

-- A generator that is built with any count and length, and a start from which the whole stream
-- stays below the largest address. After `n` calls, not more than the count, it has made exactly
-- `n` requests, at addresses one length apart from the start on, and it is finished exactly if `n`
-- is the count. Each request is for eight bytes, whatever the length is.
pub generate_times-strided :
    (count len start max n : ℕ) (w : Bool) (q : RequestQueue)
    → count < 2 ^ 64
    → start + len * count < max
    → max < 2 ^ 64
    → n ≤ count
    → let r = generate_times n (build count len start max w, q) in
      (r.1.elements ≡ q.elements ++ strided w len 0 start n)
      × (single_stream_finished r.0 ≡ (n == count))
unfolding build
generate_times-strided count len start max n w q c h m l =
    let le : len * n ≤ len * count = grind arith in
    let (e, k) =
      generate_times_from n (build count len start max w) q (omega arith) (omega (arith, le, h)) m l
        c in
    (e, rw k (ground arith))
