-- ===== src/AppGen/Link/Drain.antt =====
-- What is on its way from the application to the memory: the events of the link, then the
-- generator's requests, and what the memory holds and has answered when it has served all of it.
use sst_pim.Prelude.{
  ℕ, ◌≡◌, ◌≤◌, refl, ap, ◌∙◌, arith, true, false, ◌⊎◌, inl, inr, none, some, List, [], ◌∷◌, ◌++◌,
  length, ok, of_bytes,
}
use mathlib.Core.List.{append-nil, append_assoc}
use sst_pim.Pimdef.{SramCmd}
use sst_pim.Memory.{Backing}
use sst_pim.AppGen.Requests.{
  GeneratorRequest, Operation, RequestQueue, push_back, memory_op_request,
}
use sst_pim.AppGen.Sources.{
  AppEvent, AppLink, app_send, transactor_generate, ask, generator_request, handle_load_response,
}
use sst_pim.AppGen.Link.{serve}

-- The request that `generate` makes of an event.
abbrev pub requested : AppEvent → List Operation
requested e = elim e.cmd [
  | SramCmd.nop ↦ []
  | SramCmd.read ↦ memory_op_request false e.address 8 0 ∷ []
  | SramCmd.write ↦ memory_op_request true e.address 8 e.event_data ∷ []
  | SramCmd.done ↦ []
]

abbrev pub requested_all : List AppEvent → List Operation
requested_all [] = []
requested_all (e ∷ es) = requested e ++ requested_all es

abbrev pub operations : List GeneratorRequest → List Operation
operations [] = []
operations (r ∷ rs) = r.operation ∷ operations rs

operations-append :
    (rs qs : List GeneratorRequest) → operations (rs ++ qs) ≡ operations rs ++ operations qs
operations-append [] qs = refl
operations-append (r ∷ rs) qs = ap (λ x. r.operation ∷ x) (operations-append rs qs)

-- All that is on its way.
abbrev pub flight : RequestQueue → AppLink → List Operation
flight q l = operations q.elements ++ requested_all l.queue

-- The hand-over of one event.
abbrev pub Handed : AppLink → RequestQueue → AppLink → RequestQueue → Type 0
Handed l q l' q' =
    (transactor_generate l q ≡ some (ok (l', q')))
    × (flight q' l' ≡ flight q l)
    × (l'.load_q ≡ l.load_q)
    × (l'.queue ≡ [])

pushed :
    (q q' : RequestQueue) (r : GeneratorRequest) (l l' : AppLink)
    → q'.elements ≡ q.elements ++ (r ∷ [])
    → l'.queue ≡ []
    → requested_all l.queue ≡ r.operation ∷ []
    → flight q' l' ≡ flight q l
pushed q q' r l l' e n k =
    rw (e, n, k)
      (append-nil (operations (q.elements ++ (r ∷ []))) ∙ operations-append q.elements (r ∷ []))

hand_over :
    (c : SramCmd) (a d : ℕ) (l : AppLink) (q : RequestQueue)
    → l.queue ≡ record { cmd = c; address = a; event_data = d } ∷ []
    → (l' : AppLink) × (q' : RequestQueue) × Handed l q l' q'
unfolding transactor_generate ask push_back
hand_over SramCmd.nop a d l q h = (record l { queue = [] }, q, (rw h refl, rw h refl, refl, refl))
hand_over SramCmd.done a d l q h =
    (record l { queue = []; is_done = true }, q, (rw h refl, rw h refl, refl, refl))
hand_over SramCmd.read a d l q h =
    let (l', q') = ask (record l { queue = [] }) q false a 0 in
    (
      l',
      q',
      (
        rw h refl,
        pushed q q' (generator_request l.next_request (memory_op_request false a 8 0)) l l' refl
            refl (rw h refl),
        refl,
        refl,
      ),
    )
hand_over SramCmd.write a d l q h =
    let (l', q') = ask (record l { queue = [] }) q true a d in
    (
      l',
      q',
      (
        rw h refl,
        pushed q q' (generator_request l.next_request (memory_op_request true a 8 d)) l l' refl refl
            (rw h refl),
        refl,
        refl,
      ),
    )

-- With one event at most the generator waits exactly when there is none, does not fail, and keeps
-- what is on its way.
pub generate_cases :
    (l : AppLink) (q : RequestQueue)
    → length l.queue ≤ 1
    → ((l.queue ≡ []) × (transactor_generate l q ≡ none))
      ⊎ ((l' : AppLink) × (q' : RequestQueue) × Handed l q l' q')
unfolding transactor_generate
generate_cases l q h = cases l.queue refl
  where
    cases :
        (es : List AppEvent)
        → l.queue ≡ es
        → ((l.queue ≡ []) × (transactor_generate l q ≡ none))
          ⊎ ((l' : AppLink) × (q' : RequestQueue) × Handed l q l' q')
    cases [] e = inl (e, rw e)
    cases (x ∷ []) e = inr (hand_over x.cmd x.address x.event_data l q e)
    cases (x ∷ y ∷ es) e = absurd (omega (arith, ap length e))

empty_of_length : (es : List AppEvent) → length es ≡ 0 → es ≡ []
empty_of_length [] h = refl
empty_of_length (e ∷ es) h = absurd (omega arith)

-- `send` adds the request of its event at the end of what is on its way.
pub send-flight :
    (l l' : AppLink) (q : RequestQueue) (k : SramCmd) (a d : ℕ)
    → app_send l k a d ≡ some l'
    → (flight q l' ≡ flight q l ++ requested (record { cmd = k; address = a; event_data = d }))
      × (l'.load_q ≡ l.load_q)
      × (length l'.queue ≤ 1)
unfolding app_send
send-flight l l' q k a d h =
    let e : AppEvent = record { cmd = k; address = a; event_data = d } in
    let n : l.queue ≡ [] = empty_of_length l.queue (ground (arith, h)) in
    let m : l' ≡ record l { queue = e ∷ [] } = ground (arith, h, n) in
    (
      rw (m, n) (rw (append-nil (requested e), append-nil (operations q.elements))),
      ground (arith, m),
      rw m (omega arith),
    )

module _ (b : Backing) where
  open b use {Store, set, get}

  -- The store after all requests.
  abbrev pub stored : List Operation → Store → Store
  stored [] s = s
  stored (Operation.memory_op true a n d ∷ os) s = stored os (set s a d)
  stored (Operation.memory_op false a n d ∷ os) s = stored os s
  stored (Operation.custom_op a n ∷ os) s = stored os s
  stored (Operation.fence_op ∷ os) s = stored os s

  -- The answers to the reads among them.
  abbrev pub loaded : List Operation → Store → List ℕ
  loaded [] s = []
  loaded (Operation.memory_op true a n d ∷ os) s = loaded os (set s a d)
  loaded (Operation.memory_op false a n d ∷ os) s = of_bytes (get s a n) ∷ loaded os s
  loaded (Operation.custom_op a n ∷ os) s = loaded os s
  loaded (Operation.fence_op ∷ os) s = loaded os s

  pub stored-append :
      (os ps : List Operation) (s : Store) → stored (os ++ ps) s ≡ stored ps (stored os s)
  stored-append [] ps s = refl
  stored-append (Operation.memory_op true a n d ∷ os) ps s = stored-append os ps (set s a d)
  stored-append (Operation.memory_op false a n d ∷ os) ps s = stored-append os ps s
  stored-append (Operation.custom_op a n ∷ os) ps s = stored-append os ps s
  stored-append (Operation.fence_op ∷ os) ps s = stored-append os ps s

  pub loaded-append :
      (os ps : List Operation) (s : Store)
      → loaded (os ++ ps) s ≡ loaded os s ++ loaded ps (stored os s)
  loaded-append [] ps s = refl
  loaded-append (Operation.memory_op true a n d ∷ os) ps s = loaded-append os ps (set s a d)
  loaded-append (Operation.memory_op false a n d ∷ os) ps s =
      ap (λ x. of_bytes (get s a n) ∷ x) (loaded-append os ps s)
  loaded-append (Operation.custom_op a n ∷ os) ps s = loaded-append os ps s
  loaded-append (Operation.fence_op ∷ os) ps s = loaded-append os ps s

  -- A request that is served leaves the same store and answers at the end.
  pub serve-stored :
      (o : Operation) (os : List Operation) (l : AppLink) (s : Store)
      → (stored os (serve b o l s).1 ≡ stored (o ∷ os) s)
        × ((serve b o l s).0.load_q ++ loaded os (serve b o l s).1 ≡ l.load_q ++ loaded (o ∷ os) s)
        × ((serve b o l s).0.queue ≡ l.queue)
  unfolding serve handle_load_response
  serve-stored (Operation.memory_op true a n d) os l s = (refl, refl, refl)
  serve-stored (Operation.memory_op false a n d) os l s =
      (refl, append_assoc l.load_q (of_bytes (get s a n) ∷ []) (loaded os s), refl)
  serve-stored (Operation.custom_op a n) os l s = (refl, refl, refl)
  serve-stored Operation.fence_op os l s = (refl, refl, refl)
