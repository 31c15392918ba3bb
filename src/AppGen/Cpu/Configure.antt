-- ===== src/AppGen/Cpu/Configure.antt =====
-- mirandaCPU_kg.cc, the constructor of the processor on its parameters, and the generators that a
-- link brings (`handleSrcEvent`, `loadGenerator`) with the end of `clockTick`.
use sst_pim.Prelude.{
  ℕ, ◌+◌, ◌%◌, ◌^◌, ◌==◌, ◌≡◌, ◌<◌, arith, Bool, true, not, Option, none, some, List, [], ◌∷◌,
  value_or, Outcome, ok, fault, check, fatal, assertion, undefined, ◌>>=◌, ◌>>◌, ◌⊎◌,
}
use sst_pim.AppGen.Requests.{new_queue}
use sst_pim.AppGen.Pages.{memory_manager}
use sst_pim.AppGen.Cpu
use sst_pim.AppGen.Cpu.{Counts, Generator}
use sst_pim.AppGen.Cpu.Args.{split_args, split_args-words, app_link_name, words}
use sst_pim.AppGen.Cpu.Books.{Kind, pending_of}
use sst_pim.AppGen.Cpu.History.{IsFresh}

-- The parameter `pagemap`: "RANDOMIZED" or "randomized", "LINEAR" or "linear", or another string.
pub data PageMapping : Type 0 where
  randomized linear other : PageMapping

-- Where the generator comes from: the slot, a name that loads or does not, the port `src`, nowhere.
pub data GeneratorSource : Type 0 where
  slot src_port nowhere : GeneratorSource
  name : Bool → GeneratorSource

-- The parameters, as far as they are given. `has_memory` says that the memory interface loads.
pub record CpuParams : Type 0 where
  pub maxloadmemreqpending : Option ℕ
  pub maxstorememreqpending : Option ℕ
  pub maxcustommemreqpending : Option ℕ
  pub args : List ℕ
  pub has_memory : Bool
  pub max_reorder_lookups : Option ℕ
  pub cache_line_size : Option ℕ
  pub pagesize : Option ℕ
  pub pagecount : Option ℕ
  pub pagemap : Option PageMapping
  pub generator : GeneratorSource
  pub max_reqs_cycle : Option ℕ

-- The policy, as the rounds of the shuffle: `rounds` if it is RANDOMIZED, and none if it is LINEAR.
unfoldable pub policy : Option PageMapping → List (ℕ × ℕ) → Outcome (List (ℕ × ℕ))
policy none rounds = ok []
policy (some PageMapping.linear) rounds = ok []
policy (some PageMapping.randomized) rounds = ok rounds
policy (some PageMapping.other) rounds = fault fatal

-- The generator: loading it from the port `src` fails an assertion.
unfoldable pub load_generator : GeneratorSource → Outcome (Unit {0})
load_generator GeneratorSource.slot = ok tt
load_generator (GeneratorSource.name loads) = check loads fatal
load_generator GeneratorSource.src_port = fault assertion
load_generator GeneratorSource.nowhere = fault fatal

-- The parameters of the memory: a page is a multiple of a cache line.
unfoldable pub check_pages : ℕ → ℕ → Outcome (Unit {0})
check_pages page_size cache_line = do
  check (not (cache_line == 0)) undefined
  check (page_size % cache_line == 0) fatal

abbrev pub no_counts : Counts
no_counts = record { reads = 0; writes = 0; customs = 0 }

no_counts-zero : (k : Kind) → pending_of k no_counts ≡ 0
no_counts-zero k = ground arith

abbrev pub limits : CpuParams → Counts
limits p = record {
  reads = value_or 16 p.maxloadmemreqpending;
  writes = value_or 16 p.maxstorememreqpending;
  customs = value_or 16 p.maxcustommemreqpending;
}

-- `RequestGenCPU_KG::RequestGenCPU_KG`: the processor and the arguments of its application.
-- `maxOpLookup` has 32 bits, its parameter 64.
unfoldable pub configure : CpuParams → List (ℕ × ℕ) → Outcome (Cpu.Cpu × List (List ℕ))
unfolding policy load_generator check_pages
configure p rounds = do
  args ← split_args p.args
  check p.has_memory fatal
  let cache_line = value_or 64 p.cache_line_size
  let page_size = value_or 0xffffffffffff0000 p.pagesize
  check_pages page_size cache_line
  shuffles ← policy p.pagemap rounds
  load_generator p.generator
  ok (
    record {
      mem_mgr = memory_manager page_size (value_or 1 p.pagecount) shuffles;
      cache_line = cache_line;
      use_app_link = true;
      max_requests_pending = limits p;
      req_max_per_cycle = value_or 2 p.max_reqs_cycle;
      max_op_lookup = value_or 16 p.max_reorder_lookups % 2 ^ 32;
      requests_pending = no_counts;
      requests_in_flight = [];
      cpu_requests = [];
      pending_requests = new_queue;
      load_q = [];
      sent = [];
      next_id = 0;
      now = 0;
    },
    args,
  )

-- A processor that the constructor returns on any parameters, with limits below the largest 32-bit
-- number: it is fresh, as the histories of its requests start (Cpu/History.antt), with an empty
-- queue; a page is a multiple of a cache line, which is not empty; its application gets its own
-- name and the words of `args`; and there is a generator, which is not from the port `src`.
pub configure-IsFresh :
    (p : CpuParams) (rounds : List (ℕ × ℕ)) (g : Generator) (c : Cpu.Cpu) (args : List (List ℕ))
    → ((k : Kind) → pending_of k (limits p) + 1 < 2 ^ 32)
    → configure p rounds ≡ ok (c, args)
    → IsFresh g c
      × (c.pending_requests.elements ≡ [])
      × (args ≡ app_link_name ∷ words p.args)
      × (0 < c.cache_line)
      × (c.mem_mgr.page_size % c.cache_line ≡ 0)
      × ((p.generator ≡ GeneratorSource.slot) ⊎ (p.generator ≡ GeneratorSource.name true))
unfolding configure policy load_generator check_pages memory_manager
configure-IsFresh p rounds g c args l h =
    let w = (split_args-words p.args).0 in
    let none_pending : c.requests_pending ≡ no_counts = ground (arith, h, w) in
    let max_pending : c.max_requests_pending ≡ limits p = ground (arith, h, w) in
    (
      record {
        no_flight = ground (arith, h, w);
        no_request = ground (arith, h, w);
        no_pending = λ k. rw none_pending (no_counts-zero k);
        limits = λ k. rw max_pending (l k);
      },
      ground (arith, h, w),
      ground (arith, h, w),
      ground (arith, h, w),
      ground (arith, h, w),
      ground (arith, h, w),
    )
