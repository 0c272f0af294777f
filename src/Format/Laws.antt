-- ===== src/Format/Laws.antt =====
-- The parts of a printed duration: what they add up to, and their ranges.
use reticle.Common.{ℕ, ◌+◌, ◌*◌, ◌<◌}
use reticle.Format.{Span, seconds, minutes_seconds, minutes, hours_minutes, days_hours}

-- The seconds that the parts name, and how much the last part leaves out.
abbrev pub named_seconds : Span → ℕ
named_seconds (seconds s) = s
named_seconds (minutes_seconds m s) = 60 * m + s
named_seconds (minutes m) = 60 * m
named_seconds (hours_minutes h m) = 3600 * h + 60 * m
named_seconds (days_hours d h) = 86400 * d + 3600 * h

abbrev pub grain : Span → ℕ
grain (seconds s) = 1
grain (minutes_seconds m s) = 1
grain (minutes m) = 60
grain (hours_minutes h m) = 60
grain (days_hours d h) = 3600

-- Each part but the first is below the count at which the part before it grows.
abbrev pub IsCarried : Span → Type 0
IsCarried (seconds s) = s < 60
IsCarried (minutes_seconds m s) = (m < 60) × (s < 60)
IsCarried (minutes m) = m < 60
IsCarried (hours_minutes h m) = m < 60
IsCarried (days_hours d h) = h < 24
