-- ===== src/AppGen/Cpu/Maps.antt =====
-- `std::map` as the processor uses it (mirandaCPU_kg.cc): keys, entries and their number.
use sst_pim.Prelude.{
  ℕ, ◌+◌, ◌==◌, ◌≡◌, ◌<◌, ◌≤◌, refl, arith, Bool, none, some, List, [], ◌∷◌, ◌++◌, if◌then◌else◌,
  inl, inr, Bool-cases,
}
use sst_pim.AppGen.Cpu.{find_key, insert_key, erase_key}

module _ {ℓ} {A : Type ℓ} where
  abbrev pub keys : List (ℕ × A) → List ℕ
  keys [] = []
  keys ((i, a) ∷ m) = i ∷ keys m

  -- The number of entries that a test accepts.
  abbrev pub count : (A → Bool) → List (ℕ × A) → ℕ
  count f [] = 0
  count f ((i, a) ∷ m) = (if f a then 1 else 0) + count f m

  pub count-append : (f : A → Bool) (m n : List (ℕ × A)) → count f (m ++ n) ≡ count f m + count f n
  count-append f [] n = omega arith
  count-append f ((i, a) ∷ m) n = omega (arith, count-append f m n)

  -- All keys are below a bound.
  abbrev pub KeysBelow : ℕ → List (ℕ × A) → Type 0
  KeysBelow n [] = Unit {0}
  KeysBelow n ((i, a) ∷ m) = (i < n) × KeysBelow n m

  pub KeysBelow-mono : (n k : ℕ) (m : List (ℕ × A)) → n ≤ k → KeysBelow n m → KeysBelow k m
  KeysBelow-mono n k [] h b = tt
  KeysBelow-mono n k ((i, a) ∷ m) h (l, b) = (omega arith, KeysBelow-mono n k m h b)

  pub KeysBelow-append :
      (n : ℕ) (m k : List (ℕ × A)) → KeysBelow n m → KeysBelow n k → KeysBelow n (m ++ k)
  KeysBelow-append n [] k b c = c
  KeysBelow-append n ((i, a) ∷ m) k (l, b) c = (l, KeysBelow-append n m k b c)

  pub KeysBelow-erase : (n i : ℕ) (m : List (ℕ × A)) → KeysBelow n m → KeysBelow n (erase_key i m)
  unfolding erase_key
  KeysBelow-erase n i [] b = tt
  KeysBelow-erase n i ((j, a) ∷ m) (l, b) = ground (arith, KeysBelow-erase n i m b)

  pub find_none-KeysBelow :
      (n i : ℕ) (m : List (ℕ × A)) → KeysBelow n m → n ≤ i → find_key i m ≡ none
  unfolding find_key
  find_none-KeysBelow n i [] b h = refl
  find_none-KeysBelow n i ((j, a) ∷ m) (l, b) h = ground (arith, find_none-KeysBelow n i m b h)

  -- A key that is not there goes to the end.
  pub insert_fresh :
      (i : ℕ) (a : A) (m : List (ℕ × A))
      → find_key i m ≡ none
      → insert_key i a m ≡ m ++ ((i, a) ∷ [])
  unfolding find_key insert_key
  insert_fresh i a [] h = refl
  insert_fresh i a ((j, x) ∷ m) h = ground (arith, insert_fresh i a m)

  pub count-erase :
      (f : A → Bool) (i : ℕ) (a : A) (m : List (ℕ × A))
      → find_key i m ≡ some a
      → (if f a then 1 else 0) + count f (erase_key i m) ≡ count f m
  unfolding find_key erase_key
  count-erase f i a [] h = absurd (ground arith)
  count-erase f i a ((j, x) ∷ m) h = ground (arith, count-erase f i a m)

  -- No key is there twice.
  abbrev pub IsDistinct : List (ℕ × A) → Type ℓ
  IsDistinct [] = Unit {ℓ}
  IsDistinct ((i, a) ∷ m) = (find_key i m ≡ none) × IsDistinct m

  pub find-erase :
      (i k : ℕ) (m : List (ℕ × A))
      → IsDistinct m
      → find_key k (erase_key i m) ≡ (if i == k then none else find_key k m)
  unfolding find_key erase_key
  find-erase i k [] d = ground arith
  find-erase i k ((j, x) ∷ m) (h, d) = ground (arith, find-erase i k m d)

  pub IsDistinct-erase : (i : ℕ) (m : List (ℕ × A)) → IsDistinct m → IsDistinct (erase_key i m)
  unfolding erase_key
  IsDistinct-erase i [] d = tt
  IsDistinct-erase i ((j, x) ∷ m) (h, d) =
      ground (arith, IsDistinct-erase i m d, find-erase i j m d)

  pub find-append :
      (i k : ℕ) (a : A) (m : List (ℕ × A))
      → find_key i m ≡ none
      → find_key k (m ++ ((i, a) ∷ [])) ≡ (if i == k then some a else find_key k m)
  unfolding find_key
  find-append i k a [] h = ground arith
  find-append i k a ((j, x) ∷ m) h = ground (arith, find-append i k a m)

  pub IsDistinct-append :
      (i : ℕ) (a : A) (m : List (ℕ × A))
      → find_key i m ≡ none
      → IsDistinct m
      → IsDistinct (m ++ ((i, a) ∷ []))
  unfolding find_key
  IsDistinct-append i a [] h d = (refl, tt)
  IsDistinct-append i a ((j, x) ∷ m) h (k, d) =
      ground (arith, IsDistinct-append i a m, find-append i j a m, k, d)

module _ {ℓ κ} {A : Type ℓ} {B : Type κ} where
  pub keys-erase :
      (i : ℕ) (m : List (ℕ × A)) (n : List (ℕ × B))
      → keys m ≡ keys n
      → keys (erase_key i m) ≡ keys (erase_key i n)
  unfolding erase_key
  keys-erase i [] [] h = refl
  keys-erase i [] ((j, b) ∷ n) h = ground arith
  keys-erase i ((j, a) ∷ m) [] h = ground arith
  keys-erase i ((j, a) ∷ m) ((k, b) ∷ n) h = ground (arith, keys-erase i m n)

  pub keys-append :
      (m m' : List (ℕ × A)) (n n' : List (ℕ × B))
      → keys m ≡ keys n
      → keys m' ≡ keys n'
      → keys (m ++ m') ≡ keys (n ++ n')
  keys-append [] m' [] n' h k = k
  keys-append [] m' ((j, b) ∷ n) n' h k = absurd (ground arith)
  keys-append ((j, a) ∷ m) m' [] n' h k = absurd (ground arith)
  keys-append ((j, a) ∷ m) m' ((i, b) ∷ n) n' h k = ground (arith, keys-append m m' n n')

  -- A key that one map has, the other has.
  pub find-keys :
      (i : ℕ) (a : A) (m : List (ℕ × A)) (n : List (ℕ × B))
      → keys m ≡ keys n
      → find_key i m ≡ some a
      → (b : B) × (find_key i n ≡ some b)
  unfolding find_key
  find-keys i a [] n h f = absurd (ground arith)
  find-keys i a ((j, x) ∷ m) [] h f = absurd (ground arith)
  find-keys i a ((j, x) ∷ m) ((k, b) ∷ n) h f = elim (Bool-cases (i == k)) [
    | inl c ↦ (b, rw c refl)
    | inr c ↦
        let (d, e) = find-keys i a m n (ground (arith, h)) (ground (arith, f, h, c)) in (d, rw c e)
  ]
