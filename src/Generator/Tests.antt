-- ===== src/Generator/Tests.antt =====
-- The functions of gen/table.c at concrete inputs.
use nginx_lws.Base.{ℕ, ◌+◌, ◌*◌, ◌≤◌, ◌<◌, ◌≡◌, some, arith}
use nginx_lws.Generator.Primes.{isqrt, isqrt-root}

isqrt-root_example : (r : ℕ) × (isqrt 90 ≡ some r) × (r * r ≤ 90) × (90 < (r + 1) * (r + 1))
isqrt-root_example = isqrt-root 90 (omega arith)
