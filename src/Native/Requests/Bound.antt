-- ===== src/Native/Requests/Bound.antt =====
-- How many closed requests are kept (`ExcessClosed` and `trim` of lib/native/requests.go).
use agentapi.Prelude.{
  ℕ, ◌+◌, ◌-◌, ◌≤◌, ◌≡◌, ◌∙◌, List, arith, length, keep, take, count, nat_eq, min,
}
use agentapi.Native.Requests.{
  RequestState, is_pending, max_closed_requests, closed_from, sort_by_time, sort, excess_closed,
  trim,
}
use agentapi.Native.Requests.Drop.{Rising, ClosedAt, delete_all-counts}
use agentapi.Native.Requests.Excess.{
  indexes, count-sort, length-sort, count-sort_by_time, length-sort_by_time, count-take,
  length-take, sort-Rising, count-closed_from, length-closed_from, closed_from-IsClosed,
  ClosedAt-all,
}

-- The indexes to drop: that many, rising, each that of a closed request.
excess_closed-drops :
    (rs : List RequestState)
    → Rising 0 (excess_closed rs)
      × ClosedAt 0 (excess_closed rs) rs
      × (length (excess_closed rs) ≡ length (closed_from 0 rs) - max_closed_requests)
unfolding excess_closed
excess_closed-drops rs =
    let closed = closed_from 0 rs in
    let k = length closed - max_closed_requests in
    let first = indexes (take k (sort_by_time closed)) in
    let of_closed : (a : ℕ) → count a first ≤ count a (indexes closed) =
      λ a. omega (arith, count-take a k (sort_by_time closed), count-sort_by_time a closed) in
    (
      sort-Rising first (λ a. omega (arith, of_closed a, (count-closed_from a 0 rs).0)),
      ClosedAt-all (sort first) rs (λ a h. closed_from-IsClosed a 0 rs (
          let same : a + 0 ≡ a = omega arith in
          rw same (omega (arith, h, count-sort a first, of_closed a)))),
      length-sort first
          ∙ length-take k (sort_by_time closed) (omega (arith, length-sort_by_time closed)),
    )

-- Trimming keeps every pending request, in order, and of the closed ones all if they are at most
-- 50, and 50 otherwise.
pub trim_bounded :
    (rs : List RequestState)
    → let pending = keep is_pending rs in
      (keep is_pending (trim rs) ≡ pending)
      × (length (trim rs) ≡ length pending + min max_closed_requests (length rs - length pending))
unfolding trim
trim_bounded rs =
    let (rise, closed, n) = excess_closed-drops rs in
    let (pending, total) = delete_all-counts 0 (excess_closed rs) rs rise closed in
    (pending, omega (arith, total, n, length-closed_from 0 rs))
