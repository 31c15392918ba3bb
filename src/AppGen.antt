-- ===== src/AppGen.antt =====
-- sstcomp/AppGen: the processor that drives the memory. Requests.antt is mirandaGenerator_kg.h,
-- Pages.antt is mirandaMemMgr_kg.h, Cpu.antt is mirandaCPU_kg.cc, and Sources.antt holds the two
-- generators of requests, singlestream_kg.cc and the application's appTransactor.cc and app.cc.
-- Link.antt has the two threads over the application's link, and AppTest.antt is appTest.cc.

pub mod Requests
pub mod Pages
pub mod Cpu
pub mod Sources
pub mod Link
pub mod AppTest
pub mod Spawn
pub mod Stream
