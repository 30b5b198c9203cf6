-- ===== src/Commands/Scale.antt =====
-- cmd/fireactions/pools.go: what `pools scale` prints against what the server keeps.
use fireactions.Prelude.{
  Text, ℕ, ◌≡◌, ap, ◌∙◌, some, ok, ℤ, pos, negsuc, ◌≤ℤ◌, signed32, to_int32, lookup, arith, Result,
}
use fireactions.Pool.{Pool}
use fireactions.Server.{Server, Status, get_pool, convert_pool_to_proto, scale_pool}
use fireactions.Server.Pools.{scale_pool-get_pool}
use fireactions.Commands.{Printed, replicas_set, report, run_pools_scale_cmd}

signed32_bounds : (w : ℕ) → (signed32 w ≤ℤ pos 2147483647) × (negsuc 2147483647 ≤ℤ signed32 w)
unfolding signed32
signed32_bounds w = ground arith

report-ok :
    (p : Printed) (r : Result Status (Unit {0}) × Server) → r.0 ≡ ok tt → report p r ≡ (ok p, r.1)
report-ok p r h = ap (λ x. report p (x, r.1)) h

-- For a pool that is there, `pools scale` prints the number that it was given, while GetPool then shows
-- what is left of the number in an int32: a number out of that range is wrapped around.
pub run_pools_scale_cmd-get_pool :
    (name : Text) (n : ℤ) (s : Server) (p : Pool)
    → lookup name s.pools ≡ some p
    → ((run_pools_scale_cmd name n s).0 ≡ ok (replicas_set name n))
      × (get_pool name (run_pools_scale_cmd name n s).1
          ≡ ok (record (convert_pool_to_proto p) {
            replicas = signed32 (to_int32 n);
            desired_replicas = signed32 (to_int32 n);
          }))
unfolding run_pools_scale_cmd
run_pools_scale_cmd-get_pool name n s p h =
    let kept = signed32 (to_int32 n) in
    let bounds = signed32_bounds (to_int32 n) in
    let done = scale_pool-get_pool name kept s p h bounds.0 bounds.1 in
    let reported = report-ok (replicas_set name n) (scale_pool name kept s) done.0 in
    (ap (λ x. x.0) reported, ap (λ x. get_pool name x.1) reported ∙ done.1)
