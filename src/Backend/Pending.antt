-- ===== src/Backend/Pending.antt =====
-- Requests of the device and the completions that wait for them (PIMBackend.cc,
-- `issueDRAMRequest` and `handlePIMCompletion`).
use sst_pim.Prelude.{
  ℕ, ◌+◌, ◌≡◌, ◌≢◌, ◌<◌, ◌≤◌, refl, arith, ne→beq, true, false, none, some, fatal, fault, List, [],
  ◌∷◌, ◌++◌, ok, ◌==◌, if◌then◌else◌, ◌>>=◌,
}
use sst_pim.Event.{Command, MemEvent, no_flags, mem_event}
use sst_pim.Tclpim.{Tclpim, DramRequest, Completion}
use sst_pim.Device
use sst_pim.Backend.{
  PimBackend, insert_pending, find_pending, erase_pending, inject, issue_dram_request,
  finish_pending, handle_pim_completion, self_test_data,
}

-- Every identifier in use is older than the next one.
abbrev pub AllBelow : ℕ → List (ℕ × Completion) → Type 0
AllBelow n [] = Unit {0}
AllBelow n ((i, c) ∷ m) = (i < n) × AllBelow n m

AllBelow-le : (n k : ℕ) (m : List (ℕ × Completion)) → n ≤ k → AllBelow n m → AllBelow k m
AllBelow-le n k [] h a = tt
AllBelow-le n k ((i, c) ∷ m) h a = (omega arith, AllBelow-le n k m h a.1)

AllBelow-insert :
    (n : ℕ) (c : Completion) (m : List (ℕ × Completion))
    → AllBelow n m
    → AllBelow (n + 1) (insert_pending n c m)
unfolding insert_pending
AllBelow-insert n c [] a = (omega arith, tt)
AllBelow-insert n c ((i, e) ∷ m) a =
    rw (ne→beq n i (omega arith)) (omega arith, AllBelow-insert n c m a.1)

AllBelow-erase :
    (n i : ℕ) (m : List (ℕ × Completion)) → AllBelow n m → AllBelow n (erase_pending i m)
unfolding erase_pending
AllBelow-erase n i [] a = tt
AllBelow-erase n i ((j, e) ∷ m) a = ground (arith, AllBelow-erase n i m)

find-insert_fresh :
    (n : ℕ) (c : Completion) (m : List (ℕ × Completion))
    → AllBelow n m
    → find_pending n (insert_pending n c m) ≡ some c
unfolding insert_pending find_pending
find-insert_fresh n c [] a = ground arith
find-insert_fresh n c ((i, e) ∷ m) a = ground (arith, find-insert_fresh n c m)

erase-insert_fresh :
    (n : ℕ) (c : Completion) (m : List (ℕ × Completion))
    → AllBelow n m
    → erase_pending n (insert_pending n c m) ≡ m
unfolding insert_pending erase_pending
erase-insert_fresh n c [] a = ground arith
erase-insert_fresh n c ((i, e) ∷ m) a = ground (arith, erase-insert_fresh n c m)

find-insert_ne :
    (n i : ℕ) (c : Completion) (m : List (ℕ × Completion))
    → i ≢ n
    → find_pending i (insert_pending n c m) ≡ find_pending i m
unfolding insert_pending find_pending
find-insert_ne n i c [] h = ground arith
find-insert_ne n i c ((j, e) ∷ m) h = ground (arith, find-insert_ne n i c m h)

find-insert :
    (n i : ℕ) (c : Completion) (m : List (ℕ × Completion))
    → AllBelow n m
    → find_pending i (insert_pending n c m) ≡ (if i == n then some c else find_pending i m)
find-insert n i c m a = ground (arith, find-insert_fresh n c m a, find-insert_ne n i c m)

-- The backend after a request.
requested : PimBackend → DramRequest → PimBackend
unfolding inject
requested p r =
    record (inject p (if r.is_write then Command.write else Command.get_s) r.address r.payload
      (record no_flags { noncacheable = true })) {
        pending_pim_events = insert_pending p.next_id r.completion p.pending_pim_events;
      }

issue_inv :
    (p p' : PimBackend) (r : DramRequest) → issue_dram_request p r ≡ ok p' → p' ≡ requested p r
unfolding issue_dram_request requested
issue_inv p p' r h = ground arith

-- One request of the device: an event with a new identifier, the address and the bytes goes to the
-- controller, as a read or a write by the request; the completion waits under that identifier;
-- every other entry is as before; and identifiers stay older than the next.
pub issue_dram_request_lem :
    (p : PimBackend) (r : DramRequest)
    → p.num_nodes ≡ 1
    → AllBelow p.next_id p.pending_pim_events
    → (p' : PimBackend) × (issue_dram_request p r ≡ ok p')
      × (p'.injected
          ≡ p.injected
            ++ (mem_event p.next_id
                  (if r.is_write then Command.write else Command.get_s)
                  r.address
                  r.address
                  r.payload
                  (record no_flags { noncacheable = true })
                ∷ []))
      × ((i : ℕ)
          → find_pending i p'.pending_pim_events
            ≡ (if i == p.next_id then some r.completion else find_pending i p.pending_pim_events))
      × AllBelow p'.next_id p'.pending_pim_events
unfolding issue_dram_request requested
issue_dram_request_lem p r n a = (
  requested p r,
  rw n,
  refl,
  λ i. find-insert p.next_id i r.completion p.pending_pim_events a,
  AllBelow-insert p.next_id r.completion p.pending_pim_events a,
)

-- The response to that event, once the self-test is over, calls that completion with the bytes of
-- the response, and the entries that wait are those from before the request.
pub completion_roundtrip :
    (p p' : PimBackend) (r : DramRequest) (e : MemEvent) (t : Tclpim)
    → AllBelow p.next_id p.pending_pim_events
    → issue_dram_request p r ≡ ok p'
    → e.id ≡ p.next_id
    → p.self_check_done ≡ true
    → p.pimsim ≡ some t
    → handle_pim_completion p' e ≡ (
        Device.complete r.completion e.payload t >>= λ t'.
        ok (record p' { pimsim = some t'; pending_pim_events = p.pending_pim_events }))
unfolding requested handle_pim_completion finish_pending
completion_roundtrip p p' r e t a h i s d =
    rw (issue_inv p p' r h, i)
      (ground (
        arith,
        find-insert_fresh p.next_id r.completion p.pending_pim_events a,
        erase-insert_fresh p.next_id r.completion p.pending_pim_events a,
      ))

pub test_answer_lem :
    (p : PimBackend) (e : MemEvent)
    → p.self_check_done ≡ false
    → e.cmd ≡ Command.get_s_resp
    → e.payload ≡ self_test_data
    → handle_pim_completion p e ≡ ok (record p { self_check_done = true })
unfolding handle_pim_completion
test_answer_lem p e s c d = rw (s, c, d) refl

-- A request of the device before the self-test is over, to a backend whose identifiers are older
-- than the next. Its own response, with the test data by chance, ends the self-test in place of the
-- answer to the test: the device does not get it, and its completion goes on waiting. The answer to
-- the test, under an identifier that no completion waits for, then stops the simulation.
pub self_check_takes_any :
    (p p' : PimBackend) (r : DramRequest) (e test : MemEvent)
    → AllBelow p.next_id p.pending_pim_events
    → p.self_check_done ≡ false
    → issue_dram_request p r ≡ ok p'
    → e.id ≡ p.next_id
    → e.cmd ≡ Command.get_s_resp
    → e.payload ≡ self_test_data
    → find_pending test.id p'.pending_pim_events ≡ none
    → (p2 : PimBackend) × (handle_pim_completion p' e ≡ ok p2)
      × (p2.pimsim ≡ p.pimsim)
      × (find_pending e.id p2.pending_pim_events ≡ some r.completion)
      × (handle_pim_completion p2 test ≡ fault fatal)
unfolding requested handle_pim_completion finish_pending
self_check_takes_any p p' r e test a s h i c d n =
    let q = issue_inv p p' r h in
    (
      record p' { self_check_done = true },
      test_answer_lem p' e (rw q s) c d,
      rw q refl,
      rw (q, i) (find-insert_fresh p.next_id r.completion p.pending_pim_events a),
      rw n refl,
    )
