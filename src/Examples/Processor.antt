-- ===== src/Examples/Processor.antt =====
-- The processor and its pages.
use sst_pim.Prelude.{ℕ, ◌*◌, ◌%◌, ◌<◌, ◌≡◌, ◌≢◌, ◌⊎◌, arith, [], ◌∷◌, ok}
use sst_pim.AppGen.Requests.{GeneratorRequest, Operation, RequestQueue}
use sst_pim.AppGen.Pages.{MemoryManager, memory_manager, map_address}
use sst_pim.AppGen.Pages.Shuffle.{shuffled_map}
use sst_pim.AppGen.Cpu.{Counts}

abbrev fence : ℕ → GeneratorRequest
fence i = record { req_id = i; depends_on = []; operation = Operation.fence_op }

abbrev queue : RequestQueue
queue = record { elements = fence 1 ∷ fence 2 ∷ fence 3 ∷ []; max_capacity = 16 }

abbrev low_page : ℕ
low_page = 0x5008

abbrev high_page : ℕ
high_page = 0x9008

shuffled_map_example :
    (p : ℕ) × (q : ℕ) × (map_address (memory_manager 4096 64 ((5, 9) ∷ (70, 3) ∷ [])) low_page
      ≡ ok p)
    × (map_address (memory_manager 4096 64 ((5, 9) ∷ (70, 3) ∷ [])) high_page ≡ ok q)
    × (p < 4096 * 64)
    × (p % 4096 ≡ low_page % 4096)
    × ((low_page ≡ high_page) ⊎ (p ≢ q))
shuffled_map_example =
    shuffled_map 4096 64 ((5, 9) ∷ (70, 3) ∷ []) low_page high_page (omega arith) (omega arith)
      (omega arith) (omega arith)

abbrev pages : MemoryManager
pages = record {
  page_size = 4096;
  page_count = 2;
  max_memory_address = 8192;
  page_map = 0 ∷ 4096 ∷ [];
}

abbrev no_counts : Counts
no_counts = record { reads = 0; writes = 0; customs = 0 }
