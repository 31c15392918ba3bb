-- ===== src/AppGen/Cpu/Args.antt =====
-- mirandaCPU_kg.cc, the constructor: the parameter `args`, cut at its spaces into the arguments of
-- the application. A string is the list of its character codes.
use sst_pim.Prelude.{
  ℕ, zero, suc, ◌+◌, ◌-◌, ◌==◌, leb, ◌≡◌, ◌≢◌, ◌≤◌, ◌<◌, refl, arith, ap, ◌∙◌, sym, Option, none,
  some, List, [], ◌∷◌, ◌++◌, length, take, drop, if◌then◌else◌, Outcome, ok, check, out_of_range,
  ◌>>=◌, ◌>>◌, Bool-cases, inl, inr, length-drop, true, le→leb, beq→eq, beq→ne, ◌⊎◌,
}
use mathlib.Core.List.{append_assoc}

abbrev pub space : ℕ
space = 32

-- `"appLink"`
abbrev pub app_link_name : List ℕ
app_link_name = 97 ∷ 112 ∷ 112 ∷ 76 ∷ 105 ∷ 110 ∷ 107 ∷ []

-- The first place of a character in a string whose first character is at `i`.
unfoldable pub position : ℕ → List ℕ → ℕ → Option ℕ
position c [] i = none
position c (x ∷ xs) i = if x == c then some i else position c xs (i + 1)

-- `s.find(c, i)`
unfoldable pub find : List ℕ → ℕ → ℕ → Option ℕ
unfolding position
find s c i = position c (drop i s) i

-- `s.substr(i, n)`
unfoldable pub substr : List ℕ → ℕ → ℕ → Outcome (List ℕ)
substr s i n = check (leb i (length s)) out_of_range >> ok (take n (drop i s))

-- The end of a round: the last argument, or the next round from the next space.
abbrev pub next_round :
    List ℕ → ℕ → List (List ℕ) → (ℕ → Outcome (List (List ℕ))) → Option ℕ → Outcome (List (List ℕ))
next_round s i args rest none = substr s i (length s) >>= λ last. ok (args ++ last ∷ [])
next_round s i args rest (some j) = rest j

-- The loop, with the fuel that is left, `i`, `j` and the arguments so far.
unfoldable pub split_loop : ℕ → List ℕ → ℕ → ℕ → List (List ℕ) → Outcome (List (List ℕ))
unfolding find substr
split_loop zero s i j args = ok args
split_loop (suc fuel) s i j args = substr s i (j - i) >>= λ arg.
    next_round s (j + 1) (args ++ arg ∷ []) (λ k. split_loop fuel s (j + 1) k (args ++ arg ∷ []))
      (find s space (j + 1))

abbrev pub first_round : List ℕ → Option ℕ → Outcome (List (List ℕ))
first_round s none = ok (app_link_name ∷ s ∷ [])
first_round s (some j) = split_loop (length s) s 0 j (app_link_name ∷ [])

-- `appLink.args`. Every round but the last starts one character further at least.
unfoldable pub split_args : List ℕ → Outcome (List (List ℕ))
unfolding split_loop find
split_args s = first_round s (find s space 0)

-- The words of a string: what stands between its spaces, in order.
pub add_to_first : ℕ → List (List ℕ) → List (List ℕ)
add_to_first x [] = (x ∷ []) ∷ []
add_to_first x (w ∷ ws) = (x ∷ w) ∷ ws

unfoldable pub words : List ℕ → List (List ℕ)
words [] = [] ∷ []
words (x ∷ xs) = let ws = words xs in if x == space then [] ∷ ws else add_to_first x ws

-- Words with a space between each two.
unfoldable pub joined : List (List ℕ) → List ℕ
joined [] = []
joined (w ∷ []) = w
joined (w ∷ v ∷ ws) = w ++ space ∷ joined (v ∷ ws)

abbrev pub HasNoSpace : List ℕ → Type 0
HasNoSpace [] = Unit {0}
HasNoSpace (x ∷ xs) = (x ≢ space) × HasNoSpace xs

abbrev pub NoneHasSpace : List (List ℕ) → Type 0
NoneHasSpace [] = Unit {0}
NoneHasSpace (w ∷ ws) = HasNoSpace w × NoneHasSpace ws

joined-add : (x : ℕ) (ws : List (List ℕ)) → joined (add_to_first x ws) ≡ x ∷ joined ws
unfolding joined add_to_first
joined-add x [] = refl
joined-add x (w ∷ []) = refl
joined-add x (w ∷ v ∷ ws) = refl

NoneHasSpace-add :
    (x : ℕ) (ws : List (List ℕ)) → x ≢ space → NoneHasSpace ws → NoneHasSpace (add_to_first x ws)
unfolding add_to_first
NoneHasSpace-add x [] h k = ((h, tt), tt)
NoneHasSpace-add x (w ∷ ws) h (a, k) = ((h, a), k)

words_cases : (s : List ℕ) → (w : List ℕ) × (ws : List (List ℕ)) × (words s ≡ w ∷ ws)
unfolding words add_to_first
words_cases [] = ([], [], refl)
words_cases (x ∷ xs) =
    let (w, ws, e) = words_cases xs in
    elim (Bool-cases (x == space)) [
      | inl t ↦ ([], words xs, rw t refl)
      | inr t ↦ (x ∷ w, ws, rw (t, e) refl)
    ]

joined-words : (s : List ℕ) → joined (words s) ≡ s
unfolding joined words
joined-words [] = refl
joined-words (x ∷ xs) =
    let (w, ws, e) = words_cases xs in
    let h : joined (w ∷ ws) ≡ xs = ap joined (sym e) ∙ joined-words xs in
    elim (Bool-cases (x == space)) [
      | inl t ↦ rw (t, e, h) (ap (λ y. y ∷ xs) (sym (beq→eq x space t)))
      | inr t ↦ rw (t, e) (joined-add x (w ∷ ws) ∙ ap (λ y. x ∷ y) h)
    ]

words-NoneHasSpace : (s : List ℕ) → NoneHasSpace (words s)
unfolding words
words-NoneHasSpace [] = (tt, tt)
words-NoneHasSpace (x ∷ xs) = elim (Bool-cases (x == space)) [
  | inl t ↦ rw t (tt, words-NoneHasSpace xs)
  | inr t ↦ rw t (NoneHasSpace-add x (words xs) (beq→ne x space t) (words-NoneHasSpace xs))
]

drop_nil : (n : ℕ) → drop {A = ℕ} n [] ≡ []
drop_nil zero = refl
drop_nil (suc n) = refl

drop-drop : (a b : ℕ) (s : List ℕ) → drop a (drop b s) ≡ drop (b + a) s
drop-drop a zero s = ap (λ n. drop n s) (omega arith)
drop-drop a (suc b) [] = drop_nil a ∙ sym (drop_nil (suc b + a))
drop-drop a (suc b) (x ∷ s) =
    let e : suc b + a ≡ suc (b + a) = omega arith in
    drop-drop a b s ∙ ap (λ n. drop n (x ∷ s)) (sym e)

take_all : (n : ℕ) (s : List ℕ) → length s ≤ n → take n s ≡ s
take_all zero [] h = refl
take_all zero (x ∷ s) h = absurd (omega arith)
take_all (suc n) [] h = refl
take_all (suc n) (x ∷ s) h = ap (λ y. x ∷ y) (take_all n s (omega arith))

-- The first space is `n` characters on, and ends the first word.
record IsAt (xs : List ℕ) (i n : ℕ) : Type 0 where
  found : position space xs i ≡ some (i + n)
  inside : n < length xs
  first : words xs ≡ take n xs ∷ words (drop (suc n) xs)

position_cases :
    (xs : List ℕ) (i : ℕ)
    → ((position space xs i ≡ none) × (words xs ≡ xs ∷ [])) ⊎ ((n : ℕ) × IsAt xs i n)
unfolding position words add_to_first
position_cases [] i = inl (refl, refl)
position_cases (x ∷ xs) i = elim (Bool-cases (x == space)) [
  | inl t ↦
      inr (
        0,
        record { found = rw t (ap some (omega arith)); inside = omega arith; first = rw t refl },
      )
  | inr t ↦ elim (position_cases xs (i + 1)) [
    | inl (p, w) ↦ inl (rw t p, rw (t, w) refl)
    | inr (n, a) ↦ inr (
      suc n,
      record {
        found = rw t (a.found ∙ ap some (omega arith));
        inside = let l = a.inside in omega (arith, l);
        first = rw (t, a.first) refl;
      },
    )
  ]
]

split_loop-words :
    (fuel : ℕ) (s : List ℕ) (i n : ℕ) (args : List (List ℕ))
    → length (drop i s) ≤ fuel
    → IsAt (drop i s) i n
    → split_loop fuel s i (i + n) args ≡ ok (args ++ words (drop i s))
unfolding split_loop find substr
split_loop-words zero s i n args f a = absurd (let l = a.inside in omega (arith, l))
split_loop-words (suc fuel) s i n args f a =
    let l = a.inside in
    let m = length-drop i s in
    let ok_i : leb i (length s) ≡ true = le→leb i (length s) (omega (arith, l, m)) in
    let ok_k : leb (i + n + 1) (length s) ≡ true =
      le→leb (i + n + 1) (length s) (omega (arith, l, m)) in
    let e : drop (suc n) (drop i s) ≡ drop (i + n + 1) s =
      drop-drop (suc n) i s ∙ ap (λ k. drop k s) (omega arith) in
    let z : i + n - i ≡ n = omega arith in
    let d = length-drop (i + n + 1) s in
    elim (position_cases (drop (i + n + 1) s) (i + n + 1)) [
      | inl (p, w) ↦
          rw
            (
              ok_i,
              z,
              p,
              ok_k,
              a.first,
              e,
              w,
              take_all (length s) (drop (i + n + 1) s) (omega (arith, d)),
            )
            (ap ok (append_assoc args _ _))
      | inr (n', b) ↦
          rw (ok_i, z, b.found)
            (split_loop-words fuel s (i + n + 1) n' (args ++ take n (drop i s) ∷ [])
                (omega (arith, d, m, l, f)) b
              ∙ rw (a.first, e) (ap ok (append_assoc args _ _)))
    ]

-- For every value of `args`: no `substr` of the loop starts past the end of the string, and the
-- application's arguments are its own name and the words of the string. The words hold no space,
-- and with one space between each two they are the string.
pub split_args-words :
    (s : List ℕ)
    → (split_args s ≡ ok (app_link_name ∷ words s))
      × (joined (words s) ≡ s)
      × NoneHasSpace (words s)
unfolding split_args find
split_args-words s = (
  elim (position_cases s 0) [
    | inl (p, w) ↦ rw (p, w) refl
    | inr (n, a) ↦ rw a.found (split_loop-words (length s) s 0 n _ (omega arith) a)
  ],
  joined-words s,
  words-NoneHasSpace s,
)
