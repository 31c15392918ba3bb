-- ===== src/AppGen/Requests.antt =====
-- mirandaGenerator_kg.h: the requests of a generator, and the queue that holds them.
use sst_pim.Prelude.{
  ℕ, ◌+◌, ◌^◌, ◌==◌, ◌≡◌, ◌<◌, refl, ◌∙◌, ap, sym, arith, Bool, false, ◌||◌, List, [], ◌∷◌, ◌++◌,
  length, if◌then◌else◌, to_bytes, of_bytes, of_bytes-to_bytes, Outcome, Bool-cases, beq→eq, subst,
  inl, inr, ok, fault, check, assertion, ◌>>◌, ne→beq,
}

-- What a request asks for: `MemoryOpRequest`, `CustomOpRequest` with the address and the size of
-- its payload, and `FenceOpRequest`.
pub data Operation : Type 0 where
  memory_op : Bool → ℕ → ℕ → List ℕ → Operation
  custom_op : ℕ → ℕ → Operation
  fence_op : Operation

pub record GeneratorRequest : Type 0 where
  pub req_id : ℕ
  pub depends_on : List ℕ
  pub operation : Operation

-- `setData` in the constructor of `MemoryOpRequest`: the length becomes 8 whatever it was.
unfoldable pub memory_op_request : Bool → ℕ → ℕ → ℕ → Operation
memory_op_request is_write a len d = Operation.memory_op is_write a 8 (to_bytes 8 d)

-- `getData`
unfoldable pub get_data : Operation → Outcome ℕ
get_data (Operation.memory_op w a len data_vec) = do
  check (len == 8) assertion
  check (length data_vec == 8) assertion
  ok (of_bytes data_vec)
get_data _ = fault assertion

-- `getLength`
unfoldable pub get_length : Operation → ℕ
get_length (Operation.memory_op w a len data_vec) = len
get_length (Operation.custom_op a n) = n
get_length Operation.fence_op = 0

-- `satisfyDependency`: the first entry that is the request goes.
unfoldable pub remove_first : ℕ → List ℕ → List ℕ
remove_first r [] = []
remove_first r (d ∷ ds) = if r == d then ds else d ∷ remove_first r ds

unfoldable pub satisfy_dependency : ℕ → GeneratorRequest → GeneratorRequest
unfolding remove_first
satisfy_dependency r q = record q { depends_on = remove_first r q.depends_on }

-- `canIssue`
abbrev pub can_issue : GeneratorRequest → Bool
can_issue q = length q.depends_on == 0

-- `MirandaRequestQueue`
pub record RequestQueue : Type 0 where
  pub elements : List GeneratorRequest
  pub max_capacity : ℕ

abbrev pub new_queue : RequestQueue
new_queue = record { elements = []; max_capacity = 16 }

-- `push_back`, which calls `resize` when the queue is full.
unfoldable pub push_back : RequestQueue → GeneratorRequest → RequestQueue
push_back q t = record q {
  elements = q.elements ++ (t ∷ []);
  max_capacity =
      if length q.elements == q.max_capacity then q.max_capacity + 16 else q.max_capacity;
}

-- The loop of `erase`, from index `i` on, with the indices that are still to be skipped.
unfoldable pub erase_from {ℓ} : {A : Type ℓ} → ℕ → List ℕ → List A → List A
erase_from i skips [] = []
erase_from i [] (x ∷ xs) = x ∷ erase_from (i + 1) [] xs
erase_from i (k ∷ ks) (x ∷ xs) =
    if k == i then erase_from (i + 1) ks xs else x ∷ erase_from (i + 1) (k ∷ ks) xs

-- `erase`
unfoldable pub erase : RequestQueue → List ℕ → RequestQueue
unfolding erase_from
erase q erase_list = record q { elements = erase_from 0 erase_list q.elements }

-- A list of indices from `i` on that grows.
abbrev pub Ascending : ℕ → List ℕ → Type 0
Ascending i [] = Unit {0}
Ascending i (k ∷ ks) = (i < k + 1) × Ascending (k + 1) ks

unfoldable pub is_listed : ℕ → List ℕ → Bool
is_listed i [] = false
is_listed i (k ∷ ks) = (k == i) || is_listed i ks

-- The elements whose index, counted from `i`, is not listed.
unfoldable pub unlisted {ℓ} : {A : Type ℓ} → ℕ → List ℕ → List A → List A
unlisted i ks [] = []
unlisted i ks (x ∷ xs) =
    let rest = unlisted (i + 1) ks xs in if is_listed i ks then rest else x ∷ rest

is_listed-below : (i j : ℕ) (ks : List ℕ) → i < j → Ascending j ks → is_listed i ks ≡ false
unfolding is_listed
is_listed-below i j [] h a = refl
is_listed-below i j (k ∷ ks) h a = ground (arith, is_listed-below i (k + 1) ks (omega arith) a.1)

Ascending-le : (i j : ℕ) (ks : List ℕ) → i < j + 1 → Ascending j ks → Ascending i ks
Ascending-le i j [] h a = tt
Ascending-le i j (k ∷ ks) h a = (omega arith, a.1)

unlisted-past {ℓ} :
    {A : Type ℓ} (i k : ℕ) (ks : List ℕ) (xs : List A)
    → k < i
    → unlisted i (k ∷ ks) xs ≡ unlisted i ks xs
unfolding unlisted is_listed
unlisted-past i k ks [] h = refl
unlisted-past i k ks (x ∷ xs) h =
    rw (ne→beq k i (omega arith), unlisted-past (i + 1) k ks xs (omega arith)) refl

erase_from-unlisted {ℓ} :
    {A : Type ℓ} (i : ℕ) (ks : List ℕ) (xs : List A)
    → Ascending i ks
    → erase_from i ks xs ≡ unlisted i ks xs
unfolding erase_from unlisted is_listed
erase_from-unlisted i ks [] a = refl
erase_from-unlisted i [] (x ∷ xs) a =
    ap (λ ys. x ∷ ys) (erase_from-unlisted (i + 1) [] xs tt) ∙ ground arith
erase_from-unlisted i (k ∷ ks) (x ∷ xs) a = elim (Bool-cases (k == i)) [
  | inl e ↦ rw e (
      erase_from-unlisted (i + 1) ks xs (subst (λ j. Ascending (j + 1) ks) (beq→eq k i e) a.1)
      ∙ sym (unlisted-past (i + 1) k ks xs (ground arith)))
  | inr e ↦
      rw (e, is_listed-below i (k + 1) ks (omega (arith, a.0)) a.1)
        (ap (λ ys. x ∷ ys) (erase_from-unlisted (i + 1) (k ∷ ks) xs (ground arith, a.1)))
]

-- For indices in ascending order, `erase` keeps in their order exactly the elements whose index is
-- not in the list.
pub erase-unlisted :
    (q : RequestQueue) (erase_list : List ℕ)
    → Ascending 0 erase_list
    → (erase q erase_list).elements ≡ unlisted 0 erase_list q.elements
unfolding erase
erase-unlisted q ks a = erase_from-unlisted 0 ks q.elements a

-- A memory request holds every 64-bit value, and its length is 8 whatever length it was given.
pub get_data-memory_op_request :
    (is_write : Bool) (a len d : ℕ)
    → d < 2 ^ 64
    → (get_data (memory_op_request is_write a len d) ≡ ok d)
      × (get_length (memory_op_request is_write a len d) ≡ 8)
unfolding get_data memory_op_request get_length
get_data-memory_op_request w a len d h = (ap ok (of_bytes-to_bytes 8 d h), refl)
