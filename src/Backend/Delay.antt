-- ===== src/Backend/Delay.antt =====
-- The delay buffer of PIMBackend.cc: `issueRequest` and `handleNextRequest`, with a self link and
-- without one.
use sst_pim.Prelude.{
  ℕ, ◌+◌, ◌-◌, ◌≡◌, ◌<◌, refl, ◌∙◌, ap, arith, Bool, true, false, List, [], ◌∷◌, ◌++◌, length,
  length-append, Outcome, ◌⊎◌, inl, inr, if◌then◌else◌, subst, sym, ok, fault, out_of_range,
}
use mathlib.Core.List.{append_assoc, append-nil}

-- `PIMBackend::Req`
pub record Req : Type 0 where
  pub id : ℕ
  pub addr : ℕ
  pub is_write : Bool
  pub num_bytes : ℕ

-- Whether there is a self link; `requestBuffer`; the events on the self link that are under way; and, for the theorems, what the
-- nested backend has accepted so far.
pub record DelayBuffer : Type 0 where
  pub has_link : Bool
  pub request_buffer : List Req
  pub wakeups : ℕ
  pub accepted : List Req

unfoldable pub empty : Bool → DelayBuffer
empty link = record { has_link = link; request_buffer = []; wakeups = 0; accepted = [] }

-- `issueRequest`, with the value that it returns; `takes` is what the nested backend answers. With a
-- link it takes every request.
unfoldable pub issue_request : DelayBuffer → Req → Bool → DelayBuffer × Bool
issue_request b r takes =
    if b.has_link
    then (record b { request_buffer = b.request_buffer ++ (r ∷ []); wakeups = b.wakeups + 1 }, true)
    else if takes
    then (record b { accepted = b.accepted ++ (r ∷ []) }, true)
    else (b, false)

-- `handleNextRequest`, on a wakeup; `takes` is what the nested backend answers. The front of an
-- empty queue is out of range.
unfoldable pub handle_front : DelayBuffer → List Req → Bool → Outcome DelayBuffer
handle_front b [] takes = fault out_of_range
handle_front b (r ∷ rs) false = ok (record b { wakeups = b.wakeups + 1 })
handle_front b (r ∷ rs) true =
    ok (record b { request_buffer = rs; accepted = b.accepted ++ (r ∷ []) })

-- The arrival of a wakeup takes it off the link.
unfoldable pub handle_next_request : DelayBuffer → Bool → Outcome DelayBuffer
unfolding handle_front
handle_next_request b takes =
    handle_front (record b { wakeups = b.wakeups - 1 }) b.request_buffer takes

-- The history of a buffer, with the requests that it took.
pub data History : List Req → DelayBuffer → Type 0 where
  start : (link : Bool) → History [] (empty link)
  request :
      {rs : List Req} {b b' : DelayBuffer} (r : Req) (takes : Bool)
      → issue_request b r takes ≡ (b', true)
      → History rs b
      → History (rs ++ (r ∷ [])) b'
  refusal :
      {rs : List Req} {b b' : DelayBuffer} (r : Req) (takes : Bool)
      → issue_request b r takes ≡ (b', false)
      → History rs b
      → History rs b'
  wakeup :
      {rs : List Req} {b b' : DelayBuffer} (takes : Bool)
      → 0 < b.wakeups
      → handle_next_request b takes ≡ ok b'
      → History rs b
      → History rs b'

-- A wakeup is under way for every request that waits, none waits without a link, and no request is
-- lost, repeated or passed.
pub record IsFair (rs : List Req) (b : DelayBuffer) : Type 0 where
  pub one_each : b.wakeups ≡ length b.request_buffer
  pub no_wait : (b.has_link ≡ true) ⊎ (b.request_buffer ≡ [])
  pub in_order : rs ≡ b.accepted ++ b.request_buffer

front_IsFair :
    (rs : List Req) (b b' : DelayBuffer) (q : List Req) (takes : Bool)
    → b.request_buffer ≡ q
    → IsFair rs b
    → 0 < b.wakeups
    → handle_front (record b { wakeups = b.wakeups - 1 }) q takes ≡ ok b'
    → IsFair rs b'
unfolding handle_front
front_IsFair rs b b' [] takes e f w h = cc
front_IsFair rs b b' (r ∷ q) true e f w h = ground (arith, append_assoc b.accepted (r ∷ []) q)
front_IsFair rs b b' (r ∷ q) false e f w h = ground arith

front_handled :
    {rs : List Req} (b : DelayBuffer) (takes : Bool) (q : List Req)
    → b.request_buffer ≡ q
    → IsFair rs b
    → 0 < b.wakeups
    → (b' : DelayBuffer) × (handle_front (record b { wakeups = b.wakeups - 1 }) q takes ≡ ok b')
unfolding handle_front
front_handled b takes [] e f w = absurd (ground arith)
front_handled b true (r ∷ q) e f w = (_, refl)
front_handled b false (r ∷ q) e f w = (_, refl)

abbrev queued : DelayBuffer → Req → DelayBuffer
queued b r = record b { request_buffer = b.request_buffer ++ (r ∷ []); wakeups = b.wakeups + 1 }

abbrev passed_on : DelayBuffer → Req → DelayBuffer
passed_on b r = record b { accepted = b.accepted ++ (r ∷ []) }

taken_cases :
    (b b' : DelayBuffer) (r : Req) (takes : Bool)
    → issue_request b r takes ≡ (b', true)
    → ((b.has_link ≡ true) × (b' ≡ queued b r)) ⊎ ((b.has_link ≡ false) × (b' ≡ passed_on b r))
unfolding issue_request
taken_cases b b' r takes e = ground arith

queued-IsFair :
    (rs : List Req) (b : DelayBuffer) (r : Req)
    → b.has_link ≡ true
    → IsFair rs b
    → IsFair (rs ++ (r ∷ [])) (queued b r)
queued-IsFair rs b r k f = record {
  one_each = omega (arith, length-append b.request_buffer (r ∷ []), f.one_each);
  no_wait = inl k;
  in_order = ap (λ l. l ++ (r ∷ [])) f.in_order ∙ append_assoc b.accepted b.request_buffer (r ∷ []);
}

passed_on-IsFair :
    (rs : List Req) (b : DelayBuffer) (r : Req)
    → b.has_link ≡ false
    → IsFair rs b
    → IsFair (rs ++ (r ∷ [])) (passed_on b r)
passed_on-IsFair rs b r k f =
    let n : b.request_buffer ≡ [] = ground (arith, f.no_wait, k) in
    record {
      one_each = f.one_each;
      no_wait = f.no_wait;
      in_order =
          rw (f.in_order, n, append-nil b.accepted, append-nil (b.accepted ++ (r ∷ []))) refl;
    }

taken_IsFair :
    (rs : List Req) (b b' : DelayBuffer) (r : Req) (takes : Bool)
    → issue_request b r takes ≡ (b', true)
    → IsFair rs b
    → IsFair (rs ++ (r ∷ [])) b'
taken_IsFair rs b b' r takes e f = elim (taken_cases b b' r takes e) [
  | inl (k, q) ↦ subst (IsFair (rs ++ (r ∷ []))) (sym q) (queued-IsFair rs b r k f)
  | inr (k, q) ↦ subst (IsFair (rs ++ (r ∷ []))) (sym q) (passed_on-IsFair rs b r k f)
]

refused_same :
    (b b' : DelayBuffer) (r : Req) (takes : Bool) → issue_request b r takes ≡ (b', false) → b' ≡ b
unfolding issue_request
refused_same b b' r takes e = ground arith

-- Whatever requests come and whatever the nested backend answers, in any order of requests and
-- wakeups, with a self link or without: there is one wakeup under way for each waiting request, no
-- request waits without a link, and the requests that `issueRequest` took are those that were
-- accepted, in their order, followed by those that wait, in their order.
pub History-IsFair : {rs : List Req} {b : DelayBuffer} → History rs b → IsFair rs b
unfolding empty handle_next_request
History-IsFair (start link) = record { one_each = refl; no_wait = inr refl; in_order = refl }
History-IsFair (request {rs} {b} {b'} r takes e h) =
    taken_IsFair rs b b' r takes e (History-IsFair h)
History-IsFair (refusal {rs} {b} {b'} r takes e h) =
    subst (IsFair rs) (sym (refused_same b b' r takes e)) (History-IsFair h)
History-IsFair (wakeup {rs} {b} {b'} takes w e h) =
    front_IsFair rs b b' b.request_buffer takes refl (History-IsFair h) w e

-- A wakeup never finds the queue empty: it is handled without a fault.
pub wakeup_handled :
    {rs : List Req} {b : DelayBuffer} (takes : Bool)
    → History rs b
    → 0 < b.wakeups
    → (b' : DelayBuffer) × (handle_next_request b takes ≡ ok b')
unfolding handle_next_request
wakeup_handled {b = b} takes h w = front_handled b takes b.request_buffer refl (History-IsFair h) w
