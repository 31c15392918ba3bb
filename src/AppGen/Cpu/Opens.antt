-- ===== src/AppGen/Cpu/Opens.antt =====
-- New requests in the books of the processor (mirandaCPU_kg.cc).
use sst_pim.Prelude.{
  ℕ, ◌+◌, ◌==◌, ◌≡◌, ◌<◌, ◌≤◌, refl, sym, ap, ◌∙◌, subst, arith, true, none, List, [], ◌∷◌, ◌++◌,
  if◌then◌else◌, inl, inr, Bool-cases, beq→eq,
}
use sst_pim.AppGen.Cpu.{CpuRequest, Counts, StdMem, find_key}
use sst_pim.AppGen.Cpu.Maps.{
  keys, count, count-append, KeysBelow, KeysBelow-mono, KeysBelow-append, find_none-KeysBelow,
  find-append, IsDistinct-append, keys-append,
}
use sst_pim.AppGen.Cpu.Books.{Kind, is_kind, pending_of, PartsAre, IsSound}

-- The request that a message opens.
abbrev pub opened : StdMem → ℕ × Kind
opened (StdMem.read i a n) = (i, Kind.reading)
opened (StdMem.write i a n d) = (i, Kind.writing)
opened (StdMem.custom i a n) = (i, Kind.custom)

abbrev pub opened_all : List StdMem → List (ℕ × Kind)
opened_all [] = []
opened_all (x ∷ xs) = opened x ∷ opened_all xs

pub opened_all-append :
    (xs ys : List StdMem) → opened_all (xs ++ ys) ≡ opened_all xs ++ opened_all ys
opened_all-append [] ys = refl
opened_all-append (x ∷ xs) ys = ap (λ l. opened x ∷ l) (opened_all-append xs ys)

-- More pending requests of a kind.
abbrev pub more : Kind → ℕ → Counts → Counts
more Kind.reading n p = record p { reads = p.reads + n }
more Kind.writing n p = record p { writes = p.writes + n }
more Kind.custom n p = record p { customs = p.customs + n }

pending_of-more :
    (k j : Kind) (n : ℕ) (p : Counts)
    → pending_of j (more k n p) ≡ pending_of j p + (if is_kind j k then n else 0)
pending_of-more Kind.reading Kind.reading n p = refl
pending_of-more Kind.reading Kind.writing n p = omega arith
pending_of-more Kind.reading Kind.custom n p = omega arith
pending_of-more Kind.writing Kind.reading n p = omega arith
pending_of-more Kind.writing Kind.writing n p = refl
pending_of-more Kind.writing Kind.custom n p = omega arith
pending_of-more Kind.custom Kind.reading n p = omega arith
pending_of-more Kind.custom Kind.writing n p = omega arith
pending_of-more Kind.custom Kind.custom n p = refl

is_kind→≡ : (j k : Kind) → is_kind j k ≡ true → j ≡ k
is_kind→≡ Kind.reading Kind.reading h = refl
is_kind→≡ Kind.reading Kind.writing h = ground arith
is_kind→≡ Kind.reading Kind.custom h = ground arith
is_kind→≡ Kind.writing Kind.reading h = ground arith
is_kind→≡ Kind.writing Kind.writing h = refl
is_kind→≡ Kind.writing Kind.custom h = ground arith
is_kind→≡ Kind.custom Kind.reading h = ground arith
is_kind→≡ Kind.custom Kind.writing h = ground arith
is_kind→≡ Kind.custom Kind.custom h = refl

-- A request at the next key with its parts, which are new entries.
pub open-IsSound :
    (flight new : List (ℕ × ℕ)) (reqs : List (ℕ × CpuRequest)) (next next' n : ℕ) (r : CpuRequest)
    (pending limit : Counts) (k : Kind) (o o' : List (ℕ × Kind))
    → IsSound flight reqs next pending limit o
    → next < next'
    → 0 < n
    → n ≤ 2
    → r.outstanding_parts ≡ n
    → pending_of k pending < pending_of k limit
    → keys new ≡ keys o'
    → KeysBelow next' new
    → ((j : ℕ) → count (λ v. v == j) new ≡ (if next == j then n else 0))
    → ((j : Kind) → count (is_kind j) o' ≡ (if is_kind j k then n else 0))
    → IsSound (flight ++ new) (reqs ++ ((next, r) ∷ [])) next' (more k n pending) limit (o ++ o')
open-IsSound flight new reqs next next' n r pending limit k o o' s l z b e g ks kb cf co =
    let fresh : find_key next reqs ≡ none =
      find_none-KeysBelow next next reqs s.reqs_below (omega arith) in
    record {
      same_keys = keys-append flight new o o' s.same_keys ks;
      flight_below =
          KeysBelow-append next' flight new
            (KeysBelow-mono next next' flight (omega arith) s.flight_below) kb;
      reqs_below =
          KeysBelow-append next' reqs ((next, r) ∷ [])
            (KeysBelow-mono next next' reqs (omega arith) s.reqs_below) (l, tt);
      reqs_distinct = IsDistinct-append next r reqs fresh s.reqs_distinct;
      counted = λ j.
          omega (
            arith,
            pending_of-more k j n pending,
            s.counted j,
            count-append (is_kind j) o o',
            co j,
          );
      limited = λ j. limits j;
      small = s.small;
      parts = λ j. part j;
    }
  where
    limits : (j : Kind) → pending_of j (more k n pending) ≤ pending_of j limit + 1
    limits j = elim (Bool-cases (is_kind j k)) [
      | inl t ↦
          let q : pending_of j pending < pending_of j limit =
            subst (λ i. pending_of i pending < pending_of i limit) (sym (is_kind→≡ j k t)) g in
          ground (arith, pending_of-more k j n pending, t, q)
      | inr t ↦ ground (arith, pending_of-more k j n pending, t, s.limited j)
    ]

    part :
        (j : ℕ)
        → PartsAre (find_key j (reqs ++ ((next, r) ∷ []))) (count (λ v. v == j) (flight ++ new))
    part j =
        let fresh : find_key next reqs ≡ none =
          find_none-KeysBelow next next reqs s.reqs_below (omega arith) in
        let all = count-append (λ v. v == j) flight new in
        let news = cf j in
        elim (Bool-cases (next == j)) [
          | inl t ↦
              let none_here : find_key j reqs ≡ none =
                ap (λ i. find_key i reqs) (sym (beq→eq next j t)) ∙ fresh in
              let zero : count (λ v. v == j) flight ≡ 0 =
                subst (λ x. PartsAre x (count (λ v. v == j) flight)) none_here (s.parts j) in
              let sum : count (λ v. v == j) (flight ++ new) ≡ n =
                ground (arith, all, news, t, zero) in
              rw (find-append next j r reqs fresh, t)
                (omega (arith, sum, e), omega (arith, sum), omega (arith, sum))
          | inr t ↦
              let sum : count (λ v. v == j) flight ≡ count (λ v. v == j) (flight ++ new) =
                ground (arith, all, news, t) in
              rw (find-append next j r reqs fresh, t)
                (subst (PartsAre (find_key j reqs)) sum (s.parts j))
        ]
