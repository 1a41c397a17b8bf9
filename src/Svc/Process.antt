-- ===== src/Svc/Process.antt =====
-- libsvc/svc.c and libsvc/timerfd.c, the life of a service, and the table of services in
-- rhex_air/main.c, which rhex_ground/main.c repeats. What the system's calls give is a parameter.
pub mod Watchdog
use rhex_service.Base.{
  ℕ, zero, suc, ◌+◌, ◌-◌, ◌*◌, ◌/◌, ◌%◌, ◌^◌, List, [], ◌∷◌, ◌++◌, Bool, true, false, ◌&&◌, Option,
  none, some,
}
use rhex_service.Base.{if◌then◌else◌, ltb, ◌==◌, get_or, set, length}
use rhex_service.Base.Int.{ℤ, pos, negsuc, eq_ℤ}

abbrev pub time_s : ℕ
time_s = 1000000000

abbrev pub time_ms : ℕ
time_ms = 1000000

abbrev pub time_deadline : ℕ
time_deadline = 1 * time_s

-- svc_context_t without its log, which is modelled on its own.
pub record SvcContext : Type 0 where
  pub period : ℕ
  pub watchdog : ℕ
  pub timerfd : ℤ

-- struct timespec, and struct itimerspec.
pub record TimeSpec : Type 0 where
  pub tv_sec : ℕ
  pub tv_nsec : ℕ

pub record TimerSpec : Type 0 where
  pub it_value : TimeSpec
  pub it_interval : TimeSpec

-- `none`: clock_gettime() fails. The arithmetic has 64 bits.
unfoldable pub svc_get_monotime : Option TimeSpec → ℕ
svc_get_monotime none = 0
svc_get_monotime (some ts) = (ts.tv_nsec + ts.tv_sec * time_s) % 2 ^ 64

unfoldable pub svc_init_context : Option TimeSpec → SvcContext → SvcContext
svc_init_context now ctx = record ctx { watchdog = svc_get_monotime now }

-- INT64_MAX is 2^63 - 1.
unfoldable pub check_watchdog : Option TimeSpec → SvcContext → Bool
check_watchdog now ctx =
    let diff = (svc_get_monotime now + 2 ^ 64 - ctx.watchdog) % 2 ^ 64 in
    if ltb diff (2 ^ 63 - 1) then (if ltb time_deadline diff then false else true) else true

-- The result of read(), -1 on an error.
unfoldable pub timerfd_wait : ℤ → Bool
timerfd_wait count = if eq_ℤ count (pos 8) then true else false

-- `count`: what read() gives on the service's timer.
unfoldable pub svc_cycle : ℤ → Option TimeSpec → SvcContext → Bool
svc_cycle count now ctx =
    let timely = if ltb 0 ctx.period then timerfd_wait count else true in
    if check_watchdog now ctx then timely else false

unfoldable pub time_spec : ℕ → TimeSpec
time_spec nsec = record { tv_sec = nsec / time_s; tv_nsec = nsec % time_s }

-- `created` is the descriptor, `settable` says of a setting whether timerfd_settime() takes it. The
-- result is -1 when either fails; the descriptor is closed in the second case.
unfoldable pub timerfd_init : Option ℕ → (TimerSpec → Bool) → ℕ → ℕ → ℤ
unfolding time_spec
timerfd_init none settable start_nsec period_nsec = negsuc 0
timerfd_init (some fd) settable start_nsec period_nsec =
    if settable (record { it_value = time_spec start_nsec; it_interval = time_spec period_nsec })
    then pos fd
    else negsuc 0

-- svc_desc_t and svc_t. The functions of a service are not modelled here; `name` is a number.
pub record SvcDesc : Type 0 where
  pub name : ℕ
  pub period : ℕ

pub record SvcEntry : Type 0 where
  pub pid : ℕ
  pub name : ℕ
  pub ctx : SvcContext

abbrev pub services_max : ℕ
services_max = 32

-- The contents of new shared memory.
abbrev pub zero_context : SvcContext
zero_context = record { period = 0; watchdog = 0; timerfd = pos 0 }

-- In the main process: the table's entries and the result. `forked` is the process, if fork()
-- succeeds.
unfoldable pub start_svc : SvcDesc → Option ℕ → List SvcEntry → List SvcEntry × ℤ
start_svc desc forked entries =
    if length entries == services_max then (entries, negsuc 0) else elim forked [
      | none ↦ (entries, negsuc 0)
      | some pid ↦
          (entries ++ (record { pid = pid; name = desc.name; ctx = zero_context } ∷ []), pos 0)
    ]

-- In the new process: the context with which the service's main function is called, or `none` for
-- exit(1).
unfoldable pub child_start :
    SvcDesc → Option TimeSpec → Option ℕ → (TimerSpec → Bool) → SvcContext → Option SvcContext
child_start desc now created settable ctx =
    let ctx1 = record (svc_init_context now ctx) { period = desc.period } in
    if ltb 0 ctx1.period
    then elim (timerfd_init created settable desc.period desc.period) [
      | pos n ↦ some (record ctx1 { timerfd = pos n })
      | negsuc n ↦ none
    ]
    else some ctx1

-- The second loop of start_microservices, which does not look at the results; `forks` is what fork()
-- gives, in order.
unfoldable pub start_all : List SvcDesc → List (Option ℕ) → List SvcEntry → List SvcEntry
start_all [] forks entries = entries
start_all (d ∷ ds) [] entries = start_all ds [] (start_svc d none entries).0
start_all (d ∷ ds) (f ∷ fs) entries = start_all ds fs (start_svc d f entries).0

unfoldable pub start_microservices : List SvcDesc → List (Option ℕ) → List SvcEntry × ℤ
start_microservices descs forks = (start_all descs forks [], pos 0)

-- The loop of main_cycle, with what the clock gives for each service in turn.
unfoldable pub kick_all : List (Option TimeSpec) → List SvcEntry → List SvcEntry
kick_all nows [] = []
kick_all [] (e ∷ es) =
    record e { ctx = record e.ctx { watchdog = svc_get_monotime none } } ∷ kick_all [] es
kick_all (now ∷ nows) (e ∷ es) =
    record e { ctx = record e.ctx { watchdog = svc_get_monotime now } } ∷ kick_all nows es

-- The services of rhex_air: "gps", "sensors", "motion", "telemetry", "rc", "rssi" and "camera".
abbrev pub air_services : List SvcDesc
air_services =
    record { name = 0; period = 0 }
    ∷ record { name = 1; period = 50 * time_ms }
    ∷ record { name = 2; period = 10 * time_ms }
    ∷ record { name = 3; period = 100 * time_ms }
    ∷ record { name = 4; period = 30 * time_ms }
    ∷ record { name = 5; period = 1 * time_s / 3 }
    ∷ record { name = 6; period = 0 }
    ∷ []
