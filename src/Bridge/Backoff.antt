-- ===== src/Bridge/Backoff.antt =====
-- internal/cftunnel/runtime/runner.go: the delay before a retry.
use cf_tunnel.Prelude.{
  ℕ, zero, suc, ◌*◌, ◌^◌, ◌≤◌, ◌<◌, ◌≡◌, ℤ, pos, leb, arith, if◌then◌else◌, Bool-cases, inl, inr,
}
use cf_tunnel.Bridge.{double, backoff_loop, backoff_duration}

abbrev pub min : ℕ → ℕ → ℕ
min a b = if leb a b then a else b

double-pos : (d : ℕ) → d < 2 ^ 62 → double (pos d) ≡ pos (d * 2)
double-pos d h = ground arith

pub pow-pos : (n : ℕ) → 0 < 2 ^ n
pow-pos zero = omega arith
pow-pos (suc n) = let h = pow-pos n in grind arith

pub pow-past : (a m : ℕ) → 0 < m → a ≤ a * m
pow-past a zero h = omega arith
pow-past a (suc m) h = grind arith

regroup : (d n : ℕ) → d * 2 ^ suc n ≡ d * 2 * 2 ^ n
regroup d n = grind arith

min-past : (c d n : ℕ) → c ≤ d * 2 → min (d * 2 ^ suc n) c ≡ c
min-past c d n h = let p = pow-pos n in ground (arith, pow-past (d * 2) (2 ^ n) p, regroup d n)

backoff_loop-min :
    (c n d : ℕ)
    → 0 < c
    → c < 2 ^ 62
    → d < 2 ^ 62
    → backoff_loop (pos c) n (pos d) ≡ pos (min (d * 2 ^ n) c)
unfolding backoff_loop
backoff_loop-min c zero d c0 ch dh = ground arith
backoff_loop-min c (suc n) d c0 ch dh = elim (Bool-cases (leb c (d * 2))) [
  | inl past ↦ rw (double-pos d dh) ground (arith, min-past c d n (ground arith))
  | inr below ↦
      rw (double-pos d dh) ground
        (arith, regroup d n, backoff_loop-min c n (d * 2) c0 ch (ground arith))
]

-- With a positive base and a positive cap below 2^62 nanoseconds, the delay before retry n + 1 is
-- base * 2^n, or the cap where that is more: no doubling overflows, whatever the attempt.
pub backoff_duration-min :
    (retries : ℤ) (b c n : ℕ)
    → 0 < b
    → b < 2 ^ 62
    → 0 < c
    → c < 2 ^ 62
    → backoff_duration
        (record { max_conn_retries = retries; backoff_base = pos b; backoff_cap = pos c })
        (pos (suc n))
      ≡ pos (min (b * 2 ^ n) c)
unfolding backoff_duration
backoff_duration-min retries b c n b0 bh c0 ch = ground (arith, backoff_loop-min c n b c0 ch bh)
