-- ===== src/Clock.antt =====
-- `time.time()`. A float of that size has 22 bits behind the point, so a time is a whole number
-- of ticks of 2 ** -22 seconds, and comparisons of it with whole seconds are exact.
use lvpn.Prelude.{ℕ, ◌-◌, ◌*◌, ◌/◌, Bool, ltb, leb, if◌then◌else◌}
use lvpn.Prelude.Int.{ℤ, pos, negsuc}

abbrev pub tick : ℕ
tick = 4194304

-- `int(time.time())`
abbrev pub whole_seconds : ℕ → ℕ
whole_seconds now = now / tick

-- `deadline > time.time()`, for a deadline in whole seconds.
abbrev pub is_before : ℕ → ℕ → Bool
is_before now deadline = ltb now (deadline * tick)

-- `deadline < time.time()`
abbrev pub is_past : ℕ → ℕ → Bool
is_past now deadline = ltb (deadline * tick) now

-- `int((deadline - time.time()) / unit)`, which rounds towards zero; `unit` is in seconds.
abbrev pub units_left : ℕ → ℕ → ℕ → ℤ
units_left unit now deadline =
    let early = (deadline * tick - now) / (unit * tick) in
    let late = (now - deadline * tick) / (unit * tick) in
    if leb now (deadline * tick) then pos early else if leb late 0 then pos 0 else negsuc (late - 1)

abbrev pub day : ℕ
day = 86400
