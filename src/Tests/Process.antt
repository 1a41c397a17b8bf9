-- ===== src/Tests/Process.antt =====
-- Two services that ask between the cycles of the main process, and one that asks too late.
use rhex_service.Base.{
  ℕ, ◌+◌, ◌*◌, ◌≡◌, ◌≤◌, ◌↔◌, refl, List, [], ◌∷◌, arith, true, false, Option, none, some, All,
}
use rhex_service.Base.Int.{pos}
use rhex_service.Svc.Process.{
  SvcContext, SvcEntry, TimeSpec, svc_get_monotime, svc_cycle, check_watchdog, start_microservices,
  air_services,
}
use rhex_service.Svc.Process.Watchdog.{told_to_go_on, svc_cycle_iff, told, Event, TimerWorks}

abbrev at : ℕ → Option TimeSpec
at ms = some (record { tv_sec = 5; tv_nsec = ms * 1000000 })

abbrev motion : SvcContext
motion = record { period = 10000000; watchdog = 5000000000; timerfd = pos 4 }

abbrev entries : List SvcEntry
entries =
    record { pid = 100; name = 2; ctx = motion }
    ∷ record { pid = 101; name = 6; ctx = record motion { period = 0 } }
    ∷ []

abbrev events : List Event
events =
    Event.cycle 0 (pos 8) (at 700)
    ∷ Event.main_cycle (at 800 ∷ at 801 ∷ [])
    ∷ Event.cycle 1 (pos 8) (at 900)
    ∷ []

told_to_go_on_example : All (λ answer. answer ≡ true) (told events entries)
unfolding svc_get_monotime
told_to_go_on_example = told_to_go_on 5000000000 events entries (omega arith) (
  omega arith,
  refl,
  omega arith,
  omega arith,
  (refl, omega arith, (omega arith, refl, omega arith, omega arith, tt)),
)

abbrev late : Option TimeSpec
late = some (record { tv_sec = 6; tv_nsec = 1 })

svc_cycle_iff_example :
    (svc_cycle (pos 8) late motion ≡ true)
    ↔ (TimerWorks (pos 8) motion × (svc_get_monotime late ≤ 5000000000 + 1000000000))
unfolding svc_get_monotime
svc_cycle_iff_example = svc_cycle_iff (pos 8) late motion (omega arith) (omega arith)

svc_cycle-late : svc_cycle (pos 8) late motion ≡ false
unfolding svc_cycle check_watchdog svc_get_monotime
svc_cycle-late = refl

-- A fork that fails leaves its service out, and nothing says so.
camera_missing :
    (start_microservices air_services
      (some 1 ∷ some 2 ∷ some 3 ∷ some 4 ∷ some 5 ∷ some 6 ∷ none ∷ [])).1
    ≡ pos 0
unfolding start_microservices
camera_missing = refl
