-- ===== src/Registration/Retries.antt =====
-- internal/cftunnel/runtime/capnp_transport.go: reading through temporary errors.
use cf_tunnel.Prelude.{
  ℕ, zero, suc, ◌+◌, ◌≤◌, ◌≡◌, Bool, true, false, List, [], ◌∷◌, All, leb, if◌then◌else◌, arith,
  if_cases,
}

-- What a Read of the stream gives: bytes, with or without an error that is temporary or not.
pub data Read : Type 0 where
  got : ℕ → Read
  failed_temporary : ℕ → Read
  failed_other : ℕ → Read

-- What the caller is told, and whether Read slept before.
pub data Told : Type 0 where
  passed : Bool → Told
  gave_up : Told

-- readWriterSafeTemporaryErrorCloser.Read, on the number of retries and the most that there may be.
unfoldable pub read : ℕ → ℕ → Read → ℕ × Told
read max retries (got n) = (0, passed false)
read max retries (failed_temporary zero) =
    if leb max retries then (retries, gave_up) else (suc retries, passed true)
read max retries (failed_temporary (suc n)) = (retries, passed false)
read max retries (failed_other n) = (retries, passed false)

unfoldable pub sleeps : Told → ℕ
sleeps (passed true) = 1
sleeps (passed false) = 0
sleeps gave_up = 0

-- The sleeps of a run of reads.
unfoldable pub total_sleeps : ℕ → ℕ → List Read → ℕ
total_sleeps max retries [] = 0
total_sleeps max retries (r ∷ reads) =
    sleeps (read max retries r).1 + total_sleeps max (read max retries r).0 reads

unfoldable pub is_failure : Read → Bool
is_failure (got n) = false
is_failure (failed_temporary n) = true
is_failure (failed_other n) = true

abbrev IsBounded : ℕ → ℕ → List Read → ℕ × Told → Type 0
IsBounded max retries reads out = sleeps out.1 + total_sleeps max out.0 reads + retries ≤ max

sleeps_from :
    (max retries : ℕ) (reads : List Read)
    → retries ≤ max
    → All (λ r. is_failure r ≡ true) reads
    → total_sleeps max retries reads + retries ≤ max
unfolding total_sleeps read sleeps is_failure
sleeps_from max retries [] low h = omega arith
sleeps_from max retries (got n ∷ reads) low (f, h) = ground arith
sleeps_from max retries (failed_temporary zero ∷ reads) low (f, h) =
    if_cases (IsBounded max retries reads) (leb max retries)
      (λ y. omega (arith, sleeps_from max retries reads low h))
      (λ n. omega (arith, sleeps_from max (suc retries) reads (ground arith) h))
sleeps_from max retries (failed_temporary (suc n) ∷ reads) low (f, h) =
    omega (arith, sleeps_from max retries reads low h)
sleeps_from max retries (failed_other n ∷ reads) low (f, h) =
    omega (arith, sleeps_from max retries reads low h)

-- In reads that all give an error, the transport of the registration sleeps at most as often as
-- its bound allows, whatever errors come, and a temporary error that comes with no bytes when the
-- retries are used up is given up.
pub sleeps_bounded :
    (max : ℕ) (reads : List Read)
    → All (λ r. is_failure r ≡ true) reads
    → (total_sleeps max 0 reads ≤ max) × ((read max max (failed_temporary 0)).1 ≡ gave_up)
unfolding read
sleeps_bounded max reads h = (omega (arith, sleeps_from max 0 reads (omega arith) h), ground arith)
