-- ===== src/Profiler/Clock.antt =====
-- The sums of times in src/lws_profiler.c. A difference of seconds is taken behind the sum, since the
-- clock does not go back.
use nginx_lws.Base.{ℕ, ◌+◌, ◌-◌, ◌*◌, ◌≤◌, ◌<◌, ◌≡◌, ltb, if◌then◌else◌, if-split, arith}
use nginx_lws.Monitor.Defs.{Timespec}

-- `lws_add_timespec`
unfoldable pub lws_add_timespec : Timespec → Timespec → Timespec
lws_add_timespec base inc =
    let sec = base.tv_sec + inc.tv_sec in
    let nsec = base.tv_nsec + inc.tv_nsec in
    if ltb 1000000000 nsec
    then record { tv_sec = sec + 1; tv_nsec = nsec - 1000000000 }
    else record { tv_sec = sec; tv_nsec = nsec }

-- `lws_add_timespec_delta`; the first test is the one on negative nanoseconds.
unfoldable pub lws_add_timespec_delta : Timespec → Timespec → Timespec → Timespec
lws_add_timespec_delta base from to =
    let sec = base.tv_sec + to.tv_sec in
    let nsec = base.tv_nsec + to.tv_nsec in
    if ltb nsec from.tv_nsec
    then record { tv_sec = sec - from.tv_sec - 1; tv_nsec = nsec + 1000000000 - from.tv_nsec }
    else if ltb 1000000000 (nsec - from.tv_nsec)
    then record { tv_sec = sec - from.tv_sec + 1; tv_nsec = nsec - from.tv_nsec - 1000000000 }
    else record { tv_sec = sec - from.tv_sec; tv_nsec = nsec - from.tv_nsec }

-- A time in nanoseconds
abbrev pub nanos : Timespec → ℕ
nanos t = t.tv_sec * 1000000000 + t.tv_nsec

-- `total` is a sum of the value `n`, with nanoseconds up to a full second.
pub record IsTotal (n : ℕ) (total : Timespec) : Type 0 where
  pub value : nanos total ≡ n
  pub bound : total.tv_nsec ≤ 1000000000

-- Where the nanoseconds of both times are at most a full second, those of the sum are too, and the sum
-- has the value of both together.
pub lws_add_timespec-IsTotal :
    (base inc : Timespec)
    → base.tv_nsec ≤ 1000000000
    → inc.tv_nsec ≤ 1000000000
    → IsTotal (nanos base + nanos inc) (lws_add_timespec base inc)
unfolding lws_add_timespec
lws_add_timespec-IsTotal base inc a b =
    if-split (IsTotal (nanos base + nanos inc)) (ltb 1000000000 (base.tv_nsec + inc.tv_nsec))
      (λ h. record { value = ground arith; bound = ground arith })
      (λ h. record { value = omega arith; bound = ground arith })

-- Where the clock does not go back from one reading to the next, their difference is added to a total
-- exactly, and its nanoseconds stay at most a full second.
pub lws_add_timespec_delta-IsTotal :
    (base from to : Timespec)
    → base.tv_nsec ≤ 1000000000
    → from.tv_nsec < 1000000000
    → to.tv_nsec < 1000000000
    → nanos from ≤ nanos to
    → IsTotal (nanos base + nanos to - nanos from) (lws_add_timespec_delta base from to)
unfolding lws_add_timespec_delta
lws_add_timespec_delta-IsTotal base from to a b c d =
    let P = IsTotal (nanos base + nanos to - nanos from) in
    if-split P (ltb (base.tv_nsec + to.tv_nsec) from.tv_nsec)
      (λ h. record { value = ground arith; bound = ground arith })
      (λ h.
        if-split P (ltb 1000000000 (base.tv_nsec + to.tv_nsec - from.tv_nsec))
          (λ k. record { value = ground arith; bound = ground arith })
          (λ k. record { value = ground arith; bound = ground arith }))
