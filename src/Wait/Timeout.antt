-- ===== src/Wait/Timeout.antt =====
-- The timeout that `rmw_wait` computes for `epoll_wait`.
use https_github_com_nightdu.Base.{
  ℕ, ◌+◌, ◌-◌, ◌*◌, ◌/◌, ◌%◌, ◌^◌, ◌<◌, ◌≤◌, ◌≡◌, refl, ℤ, pos, negsuc, is_negative, true, Option,
  none, some, ltb, arith, if◌then◌else◌,
}
use https_github_com_nightdu.Platform.{Time}

-- (int)n of an unsigned 64-bit n: its low 32 bits, with a sign.
abbrev to_int : ℕ → ℤ
to_int n = let m = n % 2 ^ 32 in if ltb m (2 ^ 31) then pos m else negsuc (2 ^ 32 - m - 1)

-- The time in milliseconds, computed in 64 bits; -1 without a time.
unfoldable pub timeout_of : Option Time → ℤ
timeout_of none = negsuc 0
timeout_of (some t) = to_int ((t.sec * 1000 + t.nsec / 1000000) % 2 ^ 64)

abbrev pub nanoseconds : Time → ℕ
nanoseconds t = t.sec * 1000000000 + t.nsec

-- The number stands for the time in whole milliseconds, rounded down.
abbrev pub InMilliseconds : ℕ → Time → Type 0
InMilliseconds n t = (n * 1000000 ≤ nanoseconds t) × (nanoseconds t < (n + 1) * 1000000)

-- The timeout computed for a time of fewer than 2^31 milliseconds is not negative, and is the whole
-- milliseconds of the time, rounded down; from there to 2^32 milliseconds it is negative, as it is
-- without a time.
pub timeout_of-InMilliseconds :
    (t : Time)
    → nanoseconds t < 2 ^ 32 * 1000000
    → (nanoseconds t < 2 ^ 31 * 1000000
        → (n : ℕ) × (timeout_of (some t) ≡ pos n) × InMilliseconds n t)
      × (2 ^ 31 * 1000000 ≤ nanoseconds t → is_negative (timeout_of (some t)) ≡ true)
      × (is_negative (timeout_of none) ≡ true)
unfolding timeout_of
timeout_of-InMilliseconds t h = (
  (λ few. (t.sec * 1000 + t.nsec / 1000000, ground arith, (omega arith, omega arith))),
  (λ many. ground arith),
  refl,
)
