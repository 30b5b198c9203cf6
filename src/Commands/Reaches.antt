-- ===== src/Commands/Reaches.antt =====
-- cmd/fireactions/pools.go, server/rpc.go and server/pool.go: what `pools scale` brings about.
use fireactions.Prelude.{
  Text, ℕ, ◌<◌, ◌≡◌, refl, ap, ◌∙◌, true, some, ok, ℤ, pos, pos_part, signed32, to_int32,
  signed32-to_int32, signed32-wrap32, insert, lookup, lookup-insert, length, text_eq_refl, arith,
}
use fireactions.Config.{PoolConfig}
use fireactions.Pool.{Pool, Machine, new_pool, set_replicas, get_replicas, get_current_size}
use fireactions.Pool.Events.{Reach, next, exec, sets_replicas}
use fireactions.Pool.Converge.{Running, AtRest, Reach-AtRest}
use fireactions.Server.{Server, active, scale_pool, find_pool, convert_pool_to_proto}
use fireactions.Commands.{replicas_set, run_pools_scale_cmd}
use fireactions.Commands.Scale.{run_pools_scale_cmd-get_pool}

set_replicas-event : (n : ℤ) (p : Pool) → exec (sets_replicas n) p ≡ some (set_replicas n p)
unfolding exec
set_replicas-event n p = refl

set_replicas-Running : (n : ℤ) (p : Pool) → Running p → Running (set_replicas n p)
unfolding set_replicas
set_replicas-Running n p r = ground (arith, r)

get_replicas-set_replicas :
    (n : ℕ) (p : Pool) → n < 2147483648 → get_replicas (set_replicas (pos n) p) ≡ pos n
unfolding get_replicas set_replicas
get_replicas-set_replicas n p h = signed32-wrap32 n h

scaled_pool :
    (name : Text) (n : ℕ) (s : Server) (p : Pool)
    → n < 2147483648
    → lookup name s.pools ≡ some p
    → lookup name (run_pools_scale_cmd name (pos n) s).1.pools ≡ some (set_replicas (pos n) p)
unfolding run_pools_scale_cmd scale_pool find_pool
scaled_pool name n s p h e =
    let kept : signed32 (to_int32 (pos n)) ≡ pos n =
      signed32-to_int32 (pos n) (omega arith) (omega arith) in
    let there : lookup name (insert name (set_replicas (pos n) p) s.pools)
        ≡ some (set_replicas (pos n) p) =
      ground (arith, lookup-insert name name (set_replicas (pos n) p) s.pools, text_eq_refl name) in
    ground (arith, kept, there)

-- What GetPool and ListPools show of a pool.
abbrev pub Shows : ℕ → Pool → Type 0
Shows n u =
    ((convert_pool_to_proto u).current_replicas ≡ pos n)
    × ((convert_pool_to_proto u).desired_replicas ≡ pos n)
    × ((convert_pool_to_proto u).state ≡ active)

Shows-Running :
    (n : ℕ) (u : Pool)
    → n < 2147483648
    → length u.machines ≡ n
    → get_replicas u ≡ pos n
    → Running u
    → Shows n u
unfolding convert_pool_to_proto get_current_size
Shows-Running n u h size wanted r = (rw size (signed32-wrap32 n h), wanted, ground (arith, r))

-- `pools scale NAME --replicas n`, for a number below 2 ^ 31 and a pool that is there, active, and whose loop
-- goes on, whatever has happened to it: the command succeeds and prints the number; and the pool that
-- the server then has under the name can be brought, by the steps of its goroutines and its timer, to rest
-- with n machines, which GetPool then shows as its current and its desired number.
pub run_pools_scale_cmd-AtRest :
    (c : PoolConfig) (z p : Pool) (m : Machine) (name : Text) (n : ℕ) (s : Server)
    → new_pool c true ≡ ok z
    → Reach z p
    → Running p
    → lookup name s.pools ≡ some p
    → n < 2147483648
    → ((run_pools_scale_cmd name (pos n) s).0 ≡ ok (replicas_set name (pos n)))
      × (q : Pool) × (lookup name (run_pools_scale_cmd name (pos n) s).1.pools ≡ some q)
      × (u : Pool) × Reach q u
      × AtRest u
      × (length u.machines ≡ n)
      × Shows n u
run_pools_scale_cmd-AtRest c z p m name n s new r run there small =
    let q = set_replicas (pos n) p in
    let reached = next (sets_replicas (pos n)) r (set_replicas-event (pos n) p) in
    let (u, path, rest, same, still) =
      Reach-AtRest c z q m new reached (set_replicas-Running (pos n) p run) in
    let wanted = same ∙ get_replicas-set_replicas n p small in
    let size = rest.1 ∙ ap pos_part wanted in
    (
      (run_pools_scale_cmd-get_pool name (pos n) s p there).0,
      q,
      scaled_pool name n s p small there,
      u,
      path,
      rest,
      size,
      Shows-Running n u small size wanted still,
    )
