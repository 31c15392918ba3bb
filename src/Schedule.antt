-- ===== src/Schedule.antt =====
-- A function of the device and its memory in any order: clocks, and answers of the memory that come
-- any number of clocks later. MemCopy/Patient.antt, MulVec/Patient.antt and Device/Patient.antt give
-- the clocks and the answers.
use sst_pim.Prelude.{
  ℕ, suc, ◌+◌, ◌≤◌, ◌≡◌, ◌⊎◌, refl, arith, inl, inr, Bool, true, false, List, [], ◌∷◌, Outcome, ok,
  ◌>>=◌, Bool-cases, >>=-eq-ok,
}

-- A clock, or the answers to all requests that are open.
pub data Move : Type 0 where
  tick reply : Move

-- How often an answer follows a clock at once; the flag says that the move before was a clock.
unfoldable pub rounds : Bool → List Move → ℕ
rounds p [] = 0
rounds p (Move.tick ∷ ms) = rounds true ms
rounds true (Move.reply ∷ ms) = suc (rounds false ms)
rounds false (Move.reply ∷ ms) = rounds false ms

abbrev bit : Bool → ℕ
bit true = 1
bit false = 0

module _ {M : Type 0} (on_tick : M → Outcome (M × Bool)) (on_reply : M → Outcome M) where
  unfoldable pub play_on : (M → Outcome (M × Bool)) → M × Bool → Outcome (M × Bool)
  play_on rest (m, true) = ok (m, true)
  play_on rest (m, false) = rest m

  -- The moves in order, up to the clock that reports the end of the function.
  unfoldable pub play : List Move → M → Outcome (M × Bool)
  unfolding play_on
  play [] m = ok (m, false)
  play (Move.tick ∷ ms) m = on_tick m >>= play_on (play ms)
  play (Move.reply ∷ ms) m = on_reply m >>= play ms

  -- A function that ends after a number of rounds: at rest it has no open request, and each clock
  -- reports the end or leaves one round less, at rest or waiting for the answer; while it waits, a
  -- clock changes nothing that matters.
  pub record Settles (Rest Waits : ℕ → M → Type 0) (Finished : M → Type 0) : Type 0 where
    pub positive : (n : ℕ) (m : M) → Rest n m → 1 ≤ n
    pub tick_rest :
        (n : ℕ) (m : M)
        → Rest n m
        → (m' : M) × (((on_tick m ≡ ok (m', true)) × Finished m')
            ⊎ ((on_tick m ≡ ok (m', false)) × (k : ℕ) × (n ≡ suc k) × (Rest k m' ⊎ Waits k m')))
    pub tick_waits :
        (n : ℕ) (m : M) → Waits n m → (m' : M) × (on_tick m ≡ ok (m', false)) × Waits n m'
    pub reply_rest : (n : ℕ) (m : M) → Rest n m → on_reply m ≡ ok m
    pub reply_waits : (n : ℕ) (m : M) → Waits n m → (m' : M) × (on_reply m ≡ ok m') × Rest n m'

  play-tick_end :
      (ms : List Move) (m m' : M)
      → on_tick m ≡ ok (m', true)
      → play (Move.tick ∷ ms) m ≡ ok (m', true)
  unfolding play
  play-tick_end ms m m' e = rw e refl

  play-tick :
      (ms : List Move) (m m' : M) (r : Outcome (M × Bool))
      → on_tick m ≡ ok (m', false)
      → play ms m' ≡ r
      → play (Move.tick ∷ ms) m ≡ r
  unfolding play
  play-tick ms m m' r e h = rw e h

  play-reply :
      (ms : List Move) (m m' : M) (r : Outcome (M × Bool))
      → on_reply m ≡ ok m'
      → play ms m' ≡ r
      → play (Move.reply ∷ ms) m ≡ r
  unfolding play
  play-reply ms m m' r e h = rw e h

  module _ {Rest Waits : ℕ → M → Type 0} {Finished : M → Type 0}
      (s : Settles Rest Waits Finished) where
    -- The function at rest, or, after a clock, waiting.
    abbrev At : Bool → ℕ → M → Type 0
    At true n m = Rest n m ⊎ Waits n m
    At false n m = Rest n m

    abbrev Ends : List Move → M → Type 0
    Ends ms m = (m' : M) × (play ms m ≡ ok (m', true)) × Finished m'

    Ends-tick :
        (ms : List Move) (m m' : M)
        → on_tick m ≡ ok (m', false)
        → Ends ms m'
        → Ends (Move.tick ∷ ms) m
    Ends-tick ms m m' e (x, h, f) = (x, play-tick ms m m' (ok (x, true)) e h, f)

    Ends-reply :
        (ms : List Move) (m m' : M) → on_reply m ≡ ok m' → Ends ms m' → Ends (Move.reply ∷ ms) m
    Ends-reply ms m m' e (x, h, f) = (x, play-reply ms m m' (ok (x, true)) e h, f)

    -- A clock at rest, where what follows ends.
    Rest-tick :
        (ms : List Move) (n : ℕ) (m : M)
        → ((k : ℕ) (m' : M) → At true k m' → k + 1 ≤ rounds true ms → Ends ms m')
        → Rest n m
        → n ≤ rounds true ms
        → Ends (Move.tick ∷ ms) m
    Rest-tick ms n m later a h =
        let (m', c) = s.tick_rest n m a in
        elim c [
          | inl (e, f) ↦ (m', play-tick_end ms m m' e, f)
          | inr (e, k, z, b) ↦ Ends-tick ms m m' e (later k m' b (omega (arith, z, h)))
        ]

    -- Enough rounds bring the function to its end.
    pub play-At :
        (ms : List Move) (p : Bool) (n : ℕ) (m : M) → At p n m → n + bit p ≤ rounds p ms → Ends ms m
    unfolding rounds
    play-At [] true n m a h = absurd (omega arith)
    play-At [] false n m a h = absurd (let z = s.positive n m a in omega arith)
    play-At (Move.tick ∷ ms) true n m (inl a) h =
        Rest-tick ms n m (λ k m' b i. play-At ms true k m' b i) a (omega arith)
    play-At (Move.tick ∷ ms) true n m (inr w) h =
        let (m', e, w') = s.tick_waits n m w in
        Ends-tick ms m m' e (play-At ms true n m' (inr w') h)
    play-At (Move.tick ∷ ms) false n m a h =
        Rest-tick ms n m (λ k m' b i. play-At ms true k m' b i) a (omega arith)
    play-At (Move.reply ∷ ms) true n m (inl a) h =
        Ends-reply ms m m (s.reply_rest n m a) (play-At ms false n m a (omega arith))
    play-At (Move.reply ∷ ms) true n m (inr w) h =
        let (m', e, a) = s.reply_waits n m w in
        Ends-reply ms m m' e (play-At ms false n m' a (omega arith))
    play-At (Move.reply ∷ ms) false n m a h =
        Ends-reply ms m m (s.reply_rest n m a) (play-At ms false n m a h)

-- Two systems, with a relation that every successful move of the first keeps.
module _ {M N : Type 0} (tick1 : M → Outcome (M × Bool)) (reply1 : M → Outcome M)
    (tick2 : N → Outcome (N × Bool)) (reply2 : N → Outcome N) where
  -- `During m x` relates them while the function runs, and `After m x` at its end.
  pub record Simulates (During After : M → N → Type 0) : Type 0 where
    pub on_tick :
        (m m' : M) (x : N)
        → During m x
        → tick1 m ≡ ok (m', false)
        → (x' : N) × (tick2 x ≡ ok (x', false)) × During m' x'
    pub on_end :
        (m m' : M) (x : N)
        → During m x
        → tick1 m ≡ ok (m', true)
        → (x' : N) × (tick2 x ≡ ok (x', true)) × After m' x'
    pub on_reply :
        (m m' : M) (x : N)
        → During m x
        → reply1 m ≡ ok m'
        → (x' : N) × (reply2 x ≡ ok x') × During m' x'

  play-tick_cases :
      (ms : List Move) (m m' : M)
      → play tick1 reply1 (Move.tick ∷ ms) m ≡ ok (m', true)
      → (tick1 m ≡ ok (m', true))
        ⊎ ((m1 : M) × (tick1 m ≡ ok (m1, false)) × (play tick1 reply1 ms m1 ≡ ok (m', true)))
  unfolding play play_on
  play-tick_cases ms m m' h =
      let ((m1, d), e, f) = >>=-eq-ok (tick1 m) (play_on tick1 reply1 (play tick1 reply1 ms)) h in
      elim (Bool-cases d) [
        | inl t ↦ inl (ground (arith, e, f, t))
        | inr t ↦ inr (m1, ground (arith, e, t), ground (arith, f, t))
      ]

  -- What the first plays to the end, the second plays too.
  pub play_sim :
      {During After : M → N → Type 0} (s : Simulates During After) (ms : List Move) (m m' : M)
      (x : N)
      → During m x
      → play tick1 reply1 ms m ≡ ok (m', true)
      → (x' : N) × (play tick2 reply2 ms x ≡ ok (x', true)) × After m' x'
  unfolding play
  play_sim {During} {After} s [] m m' x r h = absurd (cc)
  play_sim {During} {After} s (Move.tick ∷ ms) m m' x r h = elim (play-tick_cases ms m m' h) [
    | inl e ↦
        let (x', e2, q) = s.on_end m m' x r e in (x', play-tick_end tick2 reply2 ms x x' e2, q)
    | inr (m1, e, f) ↦
        let (x1, e2, q) = s.on_tick m m1 x r e in
        let (x', e3, q') = play_sim s ms m1 m' x1 q f in
        (x', play-tick tick2 reply2 ms x x1 (ok (x', true)) e2 e3, q')
  ]
  play_sim {During} {After} s (Move.reply ∷ ms) m m' x r h =
      let (m1, e, f) = >>=-eq-ok (reply1 m) (play tick1 reply1 ms) h in
      let (x1, e2, q) = s.on_reply m m1 x r e in
      let (x', e3, a) = play_sim s ms m1 m' x1 q f in
      (x', play-reply tick2 reply2 ms x x1 (ok (x', true)) e2 e3, a)
