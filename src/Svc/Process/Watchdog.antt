-- ===== src/Svc/Process/Watchdog.antt =====
-- A service runs on while the main process counts, and no longer than a second after.
use rhex_service.Base.{
  ℕ, zero, suc, ◌+◌, ◌-◌, ◌%◌, ◌^◌, ◌≤◌, ◌<◌, ◌≡◌, ◌↔◌, refl, sym, ap, ◌∙◌, arith, List, [], ◌∷◌,
  Bool, true, false, Option, ◌⊎◌, inl, inr,
}
use rhex_service.Base.{
  if◌then◌else◌, ltb, All, length, Bool-cases, get_or, dec_le, if_true, if_false, if_intro, lt→ltb,
  subst,
}
use rhex_service.Base.Int.{ℤ, pos, negsuc}
use rhex_service.Svc.Process.{
  SvcContext, TimeSpec, SvcEntry, svc_get_monotime, check_watchdog, svc_cycle, timerfd_wait,
  kick_all, time_deadline, zero_context,
}

true-false : true ≡ false → ⊥
true-false h = cc

-- The clock before 2^63 - 1 nanoseconds, some 292 years after the start of the machine.
abbrev pub IsEarly : ℕ → Type 0
IsEarly t = t < 2 ^ 63 - 1

in_time :
    (t w : ℕ)
    → IsEarly t
    → IsEarly w
    → t ≤ w + 1000000000
    → (let diff = (t + 2 ^ 64 - w) % 2 ^ 64 in
        if ltb diff (2 ^ 63 - 1) then (if ltb time_deadline diff then false else true) else true)
      ≡ true
in_time t w ht hw h = ground arith

too_late :
    (t w : ℕ)
    → IsEarly t
    → IsEarly w
    → w + 1000000000 < t
    → (let diff = (t + 2 ^ 64 - w) % 2 ^ 64 in
        if ltb diff (2 ^ 63 - 1) then (if ltb time_deadline diff then false else true) else true)
      ≡ false
too_late t w ht hw h = ground arith

check_watchdog_iff :
    (now : Option TimeSpec) (ctx : SvcContext)
    → IsEarly (svc_get_monotime now)
    → IsEarly ctx.watchdog
    → (check_watchdog now ctx ≡ true) ↔ (svc_get_monotime now ≤ ctx.watchdog + 1000000000)
unfolding check_watchdog
check_watchdog_iff now ctx hn hw = (
  (λ alive. elim (dec_le (svc_get_monotime now) (ctx.watchdog + 1000000000)) [
    | yes h ↦ h
    | no h ↦ absurd (
        true-false
          (sym alive ∙ too_late (svc_get_monotime now) ctx.watchdog hn hw (omega (arith, h))))
  ]),
  (λ h. in_time (svc_get_monotime now) ctx.watchdog hn hw h),
)

-- Whether the timer of the service can be read, if it has one.
abbrev pub TimerWorks : ℤ → SvcContext → Type 0
TimerWorks count ctx = (ctx.period ≡ 0) ⊎ (count ≡ pos 8)

-- A read of anything but eight bytes stops a service that has a timer.
timer_fails : (count : ℤ) → timerfd_wait count ≡ true → count ≡ pos 8
unfolding timerfd_wait
timer_fails (pos n) h = ap pos (ground (arith, h))
timer_fails (negsuc n) h = absurd (ground (arith, h))

timely_if :
    (p : ℕ) (count : ℤ)
    → (if ltb 0 p then timerfd_wait count else true) ≡ true
    → (p ≡ 0) ⊎ (count ≡ pos 8)
timely_if zero count h = inl refl
timely_if (suc p) count h =
    inr (timer_fails count (sym (if_true _ _ (lt→ltb 0 (suc p) (omega arith))) ∙ h))

timely_of :
    (p : ℕ) (count : ℤ)
    → (p ≡ 0) ⊎ (count ≡ pos 8)
    → (if ltb 0 p then timerfd_wait count else true) ≡ true
unfolding timerfd_wait
timely_of p count (inl e) = ap (λ n. if ltb 0 n then timerfd_wait count else true) e
timely_of p count (inr e) =
    ap (λ c. if ltb 0 p then timerfd_wait c else true) e
    ∙ if_intro (λ b. b ≡ true) (ltb 0 p) refl refl

-- For times below 2^63 - 1 ns, svc_cycle lets a service go on exactly when it has no period or
-- eight bytes can be read from its timer, and the clock is at most a second ahead of the last count
-- of the main process; a count that is ahead of the clock does no harm.
pub svc_cycle_iff :
    (count : ℤ) (now : Option TimeSpec) (ctx : SvcContext)
    → IsEarly (svc_get_monotime now)
    → IsEarly ctx.watchdog
    → (svc_cycle count now ctx ≡ true)
      ↔ (TimerWorks count ctx × (svc_get_monotime now ≤ ctx.watchdog + 1000000000))
unfolding svc_cycle
svc_cycle_iff count now ctx hn hw = (
  (λ goes. elim (Bool-cases (check_watchdog now ctx)) [
    | inl alive ↦ (
      timely_if ctx.period count (sym (if_true _ _ alive) ∙ goes),
      (check_watchdog_iff now ctx hn hw).0 alive,
    )
    | inr dead ↦ absurd (true-false (sym goes ∙ if_false _ _ dead))
  ]),
  (λ h. if_true _ _ ((check_watchdog_iff now ctx hn hw).1 h.1) ∙ timely_of ctx.period count h.0),
)

-- What happens to the table of services: the main process counts, with what its clock gives for each
-- service, or the service `i` asks whether to go on.
pub data Event : Type 0 where
  main_cycle : List (Option TimeSpec) → Event
  cycle : ℕ → ℤ → Option TimeSpec → Event

abbrev pub no_entry : SvcEntry
no_entry = record { pid = 0; name = 0; ctx = zero_context }

-- What the services are told, in order.
abbrev pub told : List Event → List SvcEntry → List Bool
told [] entries = []
told (Event.main_cycle nows ∷ rest) entries = told rest (kick_all nows entries)
told (Event.cycle i count now ∷ rest) entries =
    svc_cycle count now (get_or entries i no_entry).ctx ∷ told rest entries

-- The time of the main process's last cycle, when `last` was the one before.
abbrev pub earliest : List (Option TimeSpec) → ℕ → ℕ
earliest [] last = last
earliest (now ∷ nows) last = svc_get_monotime now

-- Times do not go back within a cycle of the main process, a service asks within a second after
-- the last cycle, and the timers work. There are `n` services.
abbrev pub IsTimely : ℕ → ℕ → List Event → Type 0
IsTimely n last [] = Unit {0}
IsTimely n last (Event.main_cycle nows ∷ rest) =
    (length nows ≡ n)
    × All (λ now. (earliest nows last ≤ svc_get_monotime now) × IsEarly (svc_get_monotime now)) nows
    × IsTimely n (earliest nows last) rest
IsTimely n last (Event.cycle i count now ∷ rest) =
    (i < n)
    × (count ≡ pos 8)
    × IsEarly (svc_get_monotime now)
    × (svc_get_monotime now ≤ last + 1000000000)
    × IsTimely n last rest

-- Every service has been counted at `last` or later.
abbrev pub IsCounted : ℕ → SvcEntry → Type 0
IsCounted last e = (last ≤ e.ctx.watchdog) × IsEarly e.ctx.watchdog

kick_all-IsCounted :
    (last : ℕ) (nows : List (Option TimeSpec)) (entries : List SvcEntry)
    → length nows ≡ length entries
    → All (λ now. (last ≤ svc_get_monotime now) × IsEarly (svc_get_monotime now)) nows
    → All (IsCounted last) (kick_all nows entries)
      × (length (kick_all nows entries) ≡ length entries)
unfolding kick_all
kick_all-IsCounted last [] [] e h = (tt, refl)
kick_all-IsCounted last (now ∷ nows) [] e h = (tt, refl)
kick_all-IsCounted last [] (x ∷ entries) e h = absurd (omega arith)
kick_all-IsCounted last (now ∷ nows) (x ∷ entries) e h =
    let (rest, l) = kick_all-IsCounted last nows entries (omega arith) h.1 in
    ((h.0, rest), ap suc l)

IsCounted-at :
    (last : ℕ) (entries : List SvcEntry) (i : ℕ)
    → All (IsCounted last) entries
    → i < length entries
    → IsCounted last (get_or entries i no_entry)
IsCounted-at last [] i h k = absurd (omega arith)
IsCounted-at last (x ∷ entries) zero h k = h.0
IsCounted-at last (x ∷ entries) (suc i) h k = IsCounted-at last entries i h.1 (omega arith)

-- Every service is told to go on every time that it asks, in a run in which the main process counts
-- for all services with times that do not go back within its cycle, each service asks at most a
-- second after the last such cycle, the timers work and times are below 2^63 - 1 ns, when all
-- services have been counted before.
pub told_to_go_on :
    (last : ℕ) (events : List Event) (entries : List SvcEntry)
    → All (IsCounted last) entries
    → IsTimely (length entries) last events
    → All (λ answer. answer ≡ true) (told events entries)
told_to_go_on last [] entries h t = tt
told_to_go_on last (Event.main_cycle nows ∷ rest) entries h t =
    let (counted, same) = kick_all-IsCounted (earliest nows last) nows entries t.0 t.1 in
    told_to_go_on (earliest nows last) rest (kick_all nows entries) counted
      (subst (λ n. IsTimely n (earliest nows last) rest) (sym same) t.2)
told_to_go_on last (Event.cycle i count now ∷ rest) entries h t =
    let at = IsCounted-at last entries i h t.0 in
    (
      (svc_cycle_iff count now (get_or entries i no_entry).ctx t.2 at.1).1
          (inr t.1, omega (arith, t.3, at.0)),
      told_to_go_on last rest entries h t.4,
    )
