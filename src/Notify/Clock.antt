-- ===== src/Notify/Clock.antt =====
-- time.Time as nanoseconds since Go's zero time (January 1, year 1, UTC), and time.Duration as an
-- int64 of nanoseconds.
use we_term.Prelude.{if◌then◌else◌, leb, refl, ℕ, ◌-◌, ◌^◌, ◌≡◌}
use we_term.Prelude.Int.{negsuc, pos, wrap64, ℤ, ◌*ℤ◌}

abbrev pub max_duration : ℕ
max_duration = 2 ^ 63 - 1

abbrev at_most : ℕ → ℕ → ℕ
at_most a b = if leb a b then a else b

-- t.Sub(u), which saturates at the ends of an int64
unfoldable pub sub_time : ℕ → ℕ → ℤ
sub_time t u =
    if leb u t
    then pos (at_most (t - u) max_duration)
    else negsuc (at_most (u - t - 1) max_duration)

-- pendingTTL, 24 hours
abbrev pub pending_ttl : ℤ
pending_ttl = pos 86_400_000_000_000

abbrev pub minute : ℤ
minute = pos 60_000_000_000

-- time.Duration(minutes) * time.Minute: the product of two int64 wraps around
unfoldable pub cooldown_of : ℤ → ℤ
unfolding ◌*ℤ◌ wrap64
cooldown_of minutes = wrap64 (minutes *ℤ minute)

-- The default of two hours is what it says.
cooldown_test : cooldown_of (pos 120) ≡ pos 7_200_000_000_000
unfolding cooldown_of
cooldown_test = refl
