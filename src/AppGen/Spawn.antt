-- ===== src/AppGen/Spawn.antt =====
-- app.cc, appTest.h, appTransactor.h and the start of `clockTick` (mirandaCPU_kg.cc): the thread of
-- the application is spawned at the first tick. The thread itself is in Link.antt.
use sst_pim.Prelude.{
  ℕ, zero, suc, ◌==◌, ◌≡◌, refl, Bool, true, false, not, Option, none, some, if◌then◌else◌, Outcome,
  ok, fault, check, assertion, fatal, null_pointer, undefined, ◌>>=◌, ◌>>◌,
}

-- What `App` keeps: `_running`, and whether `out` is set.
pub record App : Type 0 where
  pub running : Bool
  pub has_output : Bool

-- `AppTest::AppTest`, by `App::App`.
abbrev pub new_app : App
new_app = record { running = false; has_output = false }

-- `AppTransactor`: whether its `out` and its `appLink` are set, and its `app`.
pub record AppTransactor : Type 0 where
  pub has_output : Bool
  pub has_link : Bool
  pub app : Option App

-- `AppTransactor::AppTransactor`
abbrev pub new_app_transactor : AppTransactor
new_app_transactor = record { has_output = true; has_link = false; app = none }

-- The generator of the processor: none, one of the class `AppxTest`, one of its base class, or one
-- that is no `AppTransactor`.
pub data ReqGen : Type 0 where
  null other : ReqGen
  appx_test base : AppTransactor → ReqGen

-- What is shared at the start: the generator, `appSpawned`, and whether `appLink.thr` is set.
pub record Startup : Type 0 where
  pub req_gen : ReqGen
  pub app_spawned : Bool
  pub has_thread : Bool

-- `App::setOutput`
unfoldable pub set_output : Bool → App → Outcome App
set_output out a = check out assertion >> ok (record a { has_output = true })

-- `App::spawn`, on `thr != nullptr`; `starts` says that the system starts a thread. The results are
-- the application, `thr != nullptr`, and the code.
unfoldable pub spawn : Bool → Bool → App → Outcome (App × Bool × ℕ)
spawn starts thr a = do
  check (not thr) assertion
  check (not a.running) assertion
  check starts assertion
  ok (record a { running = true }, true, 0)

-- `AppxTest::spawnApp`
unfoldable pub spawn_app : Bool → Bool → AppTransactor → Outcome (AppTransactor × Bool)
unfolding set_output spawn
spawn_app starts thr t = do
  check (not t.has_link) assertion
  a ← set_output t.has_output new_app
  (a', thr', rc) ← spawn starts thr a
  check (rc == 0) fatal
  ok (record t { has_link = true; app = some a' }, thr')

-- The virtual call of `spawnApp`, after the cast.
unfoldable pub spawn_generator : Bool → Bool → ReqGen → Outcome (ReqGen × Bool)
unfolding spawn_app
spawn_generator starts thr ReqGen.null = fault null_pointer
spawn_generator starts thr ReqGen.other = fault undefined
spawn_generator starts thr (ReqGen.base t) = ok (ReqGen.base t, thr)
spawn_generator starts thr (ReqGen.appx_test t) =
    spawn_app starts thr t >>= λ (t', thr'). ok (ReqGen.appx_test t', thr')

-- The start of `clockTick`.
unfoldable pub spawn_tick : Bool → Startup → Outcome Startup
unfolding spawn_generator
spawn_tick starts s =
    if s.app_spawned
    then ok s
    else (spawn_generator starts s.has_thread s.req_gen >>= λ (g, thr).
        ok (record { req_gen = g; app_spawned = true; has_thread = thr }))

-- The starts of `n` ticks.
unfoldable pub spawn_ticks : Bool → ℕ → Startup → Outcome Startup
unfolding spawn_tick
spawn_ticks starts zero s = ok s
spawn_ticks starts (suc n) s = spawn_tick starts s >>= spawn_ticks starts n

-- The assertion at the start of `AppTransactor::generate`.
unfoldable pub can_generate : ReqGen → Bool
can_generate (ReqGen.appx_test t) = t.has_link
can_generate (ReqGen.base t) = t.has_link
can_generate _ = false

-- A processor before its first tick.
abbrev pub fresh : ReqGen → Startup
fresh g = record { req_gen = g; app_spawned = false; has_thread = false }

-- The processor after its application has been spawned.
abbrev pub spawned : Startup
spawned = record {
  req_gen = ReqGen.appx_test (record {
    has_output = true;
    has_link = true;
    app = some (record { running = true; has_output = true });
  });
  app_spawned = true;
  has_thread = true;
}

-- The ticks after the first.
spawned_stays :
    (starts : Bool) (n : ℕ) (g : ReqGen) (thr : Bool)
    → let s : Startup = record { req_gen = g; app_spawned = true; has_thread = thr } in
      spawn_ticks starts n s ≡ ok s
unfolding spawn_ticks
spawned_stays starts zero g thr = refl
spawned_stays starts (suc n) g thr = spawned_stays starts n g thr

-- Over `n + 1` ticks of a processor with an `AppxTest`, where the system can start a thread: every
-- start succeeds, the first spawns the one thread and the others do nothing. The generator then has
-- its link, so that the assertion of `generate` holds. With the base class instead, the ticks
-- succeed too, but there is no thread, and that assertion fails.
pub spawn_ticks-spawned :
    (n : ℕ)
    → (spawn_ticks true (suc n) (fresh (ReqGen.appx_test new_app_transactor)) ≡ ok spawned)
      × (can_generate spawned.req_gen ≡ true)
      × ((s : Startup) × (spawn_ticks true (suc n) (fresh (ReqGen.base new_app_transactor)) ≡ ok s)
          × (s.has_thread ≡ false)
          × (can_generate s.req_gen ≡ false))
unfolding spawn_ticks can_generate
spawn_ticks-spawned n =
    let b : Startup = record {
      req_gen = ReqGen.base new_app_transactor;
      app_spawned = true;
      has_thread = false;
    } in
    (
      spawned_stays true n spawned.req_gen true,
      refl,
      (b, spawned_stays true n b.req_gen false, refl, refl),
    )
