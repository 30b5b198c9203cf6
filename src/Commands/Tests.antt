-- ===== src/Commands/Tests.antt =====
-- `pools scale` at a server with one pool.
use fireactions.Prelude.{
  codes, ◌≡◌, refl, [], ◌∷◌, some, ok, pos, lookup, length, text_eq, signed32, to_int32, arith,
}
use fireactions.Pool.{Pool}
use fireactions.Pool.Events.{Reach, here}
use fireactions.Pool.Converge.{Running, AtRest}
use fireactions.Pool.Tests.{config, machine, fresh, new_fresh}
use fireactions.Server.{Server, get_pool, convert_pool_to_proto}
use fireactions.Commands.{replicas_set, run_pools_scale_cmd}
use fireactions.Commands.Reaches.{Shows, run_pools_scale_cmd-AtRest}
use fireactions.Commands.Scale.{run_pools_scale_cmd-get_pool}

abbrev one_pool : Server
one_pool = record {
  pools = (codes "a", fresh) ∷ [];
  version = codes "2.0.0";
  commit = codes "c0ffee";
  date = codes "now";
}

-- 2 ^ 32 + 1 replicas: the pool gets one.
run_pools_scale_cmd-get_pool_example :
    ((run_pools_scale_cmd (codes "a") (pos 4294967297) one_pool).0
      ≡ ok (replicas_set (codes "a") (pos 4294967297)))
    × (get_pool (codes "a") (run_pools_scale_cmd (codes "a") (pos 4294967297) one_pool).1
        ≡ ok (record (convert_pool_to_proto fresh) { replicas = pos 1; desired_replicas = pos 1 }))
unfolding lookup text_eq signed32 to_int32
run_pools_scale_cmd-get_pool_example =
    run_pools_scale_cmd-get_pool (codes "a") (pos 4294967297) one_pool fresh refl

fresh-Running : Running fresh
fresh-Running = record { active = refl; live = refl; looping = refl; unsignalled = refl }

run_pools_scale_cmd-AtRest_example :
    ((run_pools_scale_cmd (codes "a") (pos 7) one_pool).0 ≡ ok (replicas_set (codes "a") (pos 7)))
    × (q : Pool) × (lookup (codes "a") (run_pools_scale_cmd (codes "a") (pos 7) one_pool).1.pools
        ≡ some q)
    × (u : Pool) × Reach q u
    × AtRest u
    × (length u.machines ≡ 7)
    × Shows 7 u
unfolding lookup text_eq
run_pools_scale_cmd-AtRest_example =
    run_pools_scale_cmd-AtRest config fresh fresh machine (codes "a") 7 one_pool new_fresh here
      fresh-Running refl (omega arith)
