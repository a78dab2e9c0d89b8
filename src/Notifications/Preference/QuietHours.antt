-- ===== src/Notifications/Preference/QuietHours.antt =====
-- Quiet hours as an interval of the day that may pass midnight.
use uevent_backend.Base.{
  ℕ, ◌+◌, ◌-◌, ◌%◌, ◌<◌, ◌≡◌, ◌≢◌, ◌↔◌, ◌⊎◌, true, false, arith, leb, if◌then◌else◌,
}
use native.Mathlib.Nat.{mod-eq-sub-mod, mod-eq_of_lt}
use uevent_backend.Notifications.Preference.{is_in_quiet_hours}

-- How far the hands go from `start` to `time`.
arc-eq :
    (day start time : ℕ)
    → start < day
    → time < day
    → (time + day - start) % day ≡ (if leb start time then time - start else time + day - start)
arc-eq day start time hs ht =
    grind (arith, mod-eq-sub-mod {n = time + day - start} {m = day}, mod-eq_of_lt)

-- A time of the day is quiet exactly if the two ends of the quiet hours are the same, or if going
-- from the start the hands of the clock reach the time before the end: the test is the half-open arc
-- from the start to the end, past midnight or not, and the whole day where they are the same.
pub is_in_quiet_hours-arc :
    (day start end current : ℕ)
    → start < day
    → end < day
    → current < day
    → (is_in_quiet_hours start end current ≡ true)
      ↔ ((start ≡ end) ⊎ ((current + day - start) % day < (end + day - start) % day))
unfolding is_in_quiet_hours
is_in_quiet_hours-arc day start end current hs he hc =
    rw (arc-eq day start current hs hc, arc-eq day start end hs he)
      (λ h. ground arith, λ h. ground arith)

-- Swapping the ends of the quiet hours swaps quiet times and the others.
pub is_in_quiet_hours-swap :
    (start end current : ℕ)
    → start ≢ end
    → (is_in_quiet_hours start end current ≡ true) ↔ (is_in_quiet_hours end start current ≡ false)
unfolding is_in_quiet_hours
is_in_quiet_hours-swap start end current ne = (λ h. ground arith, λ h. ground arith)
