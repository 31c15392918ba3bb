-- ===== src/Backend/Construct.antt =====
-- PIMBackend.cc, the constructor on its parameters: which device it makes, the delay, and the size
-- of the memory.
use sst_pim.Prelude.{
  ◌+◌, ◌*◌, ◌%◌, ◌^◌, ◌==◌, ◌≡◌, ◌<◌, ◌≢◌, ◌⊎◌, refl, arith, inl, inr, subst, outcome_cases,
  Bool-cases, Bool, not, Option, none, some, [], if◌then◌else◌, value_or, length, Outcome, ok,
  fault, check, fatal, assertion, ◌>>=◌, ◌>>◌, overwrite, replicate, to_bytes, ℕ, zero, suc, ap,
  ◌∙◌, length-overwrite,
}
use sst_pim.Pimdef.{
  func_num_f1, func_num_u5, pim_type_test, pim_type_reserve, pim_type_tcl, sram_size,
}
use sst_pim.Fsm.{mem_copy, mul_vec, new_mem_copy, new_mul_vec}
use sst_pim.FuncState.{FuncState, new_func_state, is_running}
use sst_pim.FuncState.Protocol.{new_func_state-IsWellFormed}
use sst_pim.Tclpim.{Tclpim, new_tclpim}
use sst_pim.Device.Session.{TakesCopy, TakesMul}
use sst_pim.Backend.{PimBackend, new_backend}

-- The parameters: whether `request_delay` is in seconds and is not 0, and the others, as far as they
-- are given. `mem_size` is what the nested backend has.
pub record BackendParams : Type 0 where
  pub delay_in_seconds : Bool
  pub delays : Bool
  pub mem_size : ℕ
  pub pim_type : Option ℕ
  pub num_nodes : Option ℕ
  pub node_id : Option ℕ

-- `pimsim`
unfoldable pub make_pim : ℕ → ℕ → Outcome (Option Tclpim)
make_pim pim_type node_id =
    if pim_type == pim_type_test
    then fault fatal
    else if pim_type == pim_type_tcl
    then (new_tclpim node_id >>= λ t. ok (some t))
    else if pim_type == pim_type_reserve
    then fault fatal
    else ok none

-- What the constructor leaves: the members, `m_memSize`, and whether there is a `delay_self_link`.
pub record Constructed : Type 0 where
  pub backend : PimBackend
  pub mem_size : ℕ
  pub has_delay_link : Bool

-- `PIMBackend::PIMBackend`
unfoldable pub construct : BackendParams → Outcome Constructed
unfolding make_pim new_backend
construct p = do
  check p.delay_in_seconds fatal
  check (not (value_or 0 p.num_nodes == 0)) assertion
  pimsim ← make_pim (value_or pim_type_test p.pim_type) (value_or 0 p.node_id)
  ok (record {
    backend = new_backend pimsim (value_or 0 p.num_nodes);
    mem_size = p.mem_size;
    has_delay_link = p.delays;
  })

length-replicate : (n v : ℕ) → length (replicate n v) ≡ n
length-replicate zero v = refl
length-replicate (suc n) v = ap suc (length-replicate n v)

abbrev first_state : FuncState
first_state = new_func_state func_num_f1 (mem_copy new_mem_copy)

abbrev second_state : FuncState
second_state = new_func_state func_num_u5 (mul_vec new_mul_vec)

id_written : (i : ℕ) → length (overwrite (to_bytes 8 i) (replicate sram_size 0)) ≡ sram_size
id_written i =
    length-overwrite (to_bytes 8 i) (replicate sram_size 0) ∙ length-replicate sram_size 0

-- A device that has just been made.
new_tclpim-Takes :
    (node : ℕ) (t : Tclpim)
    → new_tclpim node ≡ ok t
    → TakesCopy t first_state second_state new_mem_copy
      × TakesMul t first_state second_state new_mul_vec
unfolding new_tclpim new_func_state is_running
new_tclpim-Takes node t h = (
  record {
    installed = ground (arith, h);
    closed = inl refl;
    well_formed = new_func_state-IsWellFormed func_num_f1 (mem_copy new_mem_copy);
    object = refl;
    alone = refl;
    none_issued = ground (arith, h);
    whole = ground (arith, h, id_written ((pim_type_tcl * 2 ^ 56 + node * 2 ^ 12) % 2 ^ 64));
  },
  record {
    installed = ground (arith, h);
    closed = inl refl;
    well_formed = new_func_state-IsWellFormed func_num_u5 (mul_vec new_mul_vec);
    object = refl;
    alone = refl;
    none_issued = ground (arith, h);
  },
)

-- What is made for a type and a node.
abbrev pub Made : ℕ → ℕ → Option Tclpim → Type 0
Made pim_type node o =
    ((o ≡ none)
      × (pim_type ≢ pim_type_tcl)
      × (pim_type ≢ pim_type_test)
      × (pim_type ≢ pim_type_reserve))
    ⊎ ((t : Tclpim) × (o ≡ some t)
        × (pim_type ≡ pim_type_tcl)
        × (node ≡ 0)
        × TakesCopy t first_state second_state new_mem_copy
        × TakesMul t first_state second_state new_mul_vec)

new_tclpim_node : (node : ℕ) (t : Tclpim) → new_tclpim node ≡ ok t → node ≡ 0
unfolding new_tclpim
new_tclpim_node node t h = ground arith

make_pim-Made :
    (pim_type node : ℕ) (o : Option Tclpim) → make_pim pim_type node ≡ ok o → Made pim_type node o
unfolding make_pim
make_pim-Made pim_type node o h = elim (Bool-cases (pim_type == pim_type_tcl)) [
  | inl e ↦ elim (outcome_cases (new_tclpim node)) [
    | inl (t, m) ↦
        let (a, b) = new_tclpim-Takes node t m in
        inr (t, ground (arith, h, e, m), ground (arith, e), new_tclpim_node node t m, a, b)
    | inr (k, m) ↦ absurd (ground (arith, h, e, m))
  ]
  | inr e ↦ inl (ground (arith, h, e), ground (arith, e), ground (arith, h), ground (arith, h, e))
]

-- Whatever the parameters are: a backend that the constructor returns has nodes, nothing is under
-- way in it, it takes over the size of the nested memory, and has the self link exactly if there is
-- a delay. If the type is TCL, it is node 0, and its device takes calls of both functions at once;
-- for every other type, which is then neither TEST, the default, nor RESERVE, it has no device.
pub construct_lem :
    (p : BackendParams) (c : Constructed)
    → construct p ≡ ok c
    → (0 < c.backend.num_nodes)
      × (c.backend.pending_pim_events ≡ [])
      × (c.backend.injected ≡ [])
      × (c.mem_size ≡ p.mem_size)
      × (c.has_delay_link ≡ p.delays)
      × Made (value_or pim_type_test p.pim_type) (value_or 0 p.node_id) c.backend.pimsim
unfolding construct new_backend
construct_lem p c h =
    let k : ℕ = value_or pim_type_test p.pim_type in
    let n : ℕ = value_or 0 p.node_id in
    elim (outcome_cases (make_pim k n)) [
      | inl (o, m) ↦ (
        ground (arith, h, m),
        ground (arith, h, m),
        ground (arith, h, m),
        ground (arith, h, m),
        ground (arith, h, m),
        subst (Made k n) {x = o} {y = c.backend.pimsim} (ground (arith, h, m))
            (make_pim-Made k n o m),
      )
      | inr (e, m) ↦ absurd (ground (arith, h, m))
    ]
