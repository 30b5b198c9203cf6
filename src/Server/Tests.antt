-- ===== src/Server/Tests.antt =====
-- The theorems about the gRPC handlers at a server with two pools, of which one has a machine.
use mathlib.Core.List.{Permᴰ}
use mathlib.Core.List.Permᴰ
use fireactions.Prelude.{
  Text, codes, ◌≡◌, refl, true, List, [], ◌∷◌, map, none, ok, err, fault, pos, arith, lookup,
  text_eq,
}
use fireactions.Prelude.Sort.{Ordered}
use fireactions.Pool.{Pool, Machine, set_replicas}
use fireactions.Pool.Tests.{fresh, one_settled, machine}
use fireactions.Server.{
  Server, Guest, list_pools, scale_pool, get_pool, select_machines, machine_less,
  convert_machine_to_proto, convert_pool_to_proto,
}
use fireactions.Server.Gather.{list_machines}
use fireactions.Server.Proxy.{line, eof, proxy, Recv}
use fireactions.Server.Lists.{IsNamed, list_pools-eq_of_perm}
use fireactions.Server.Pools.{Changes, scale_pool-get_pool}
use fireactions.Server.Machines.{somes, list_machines_lem}
use fireactions.Server.Logs.{Ran, AllSent, proxy-Ran}

abbrev named : Text → Pool → Pool
named n p = record p { config = record (p.config) { name = n } }

abbrev pools : List (Text × Pool)
pools = (codes "b", named (codes "b") one_settled) ∷ (codes "a", named (codes "a") fresh) ∷ []

abbrev pub server : Server
server = record {
  pools = pools;
  version = codes "2.0.0";
  commit = codes "c0ffee";
  date = codes "now";
}

abbrev other_order : Server
other_order = record server {
  pools = (codes "a", named (codes "a") fresh) ∷ (codes "b", named (codes "b") one_settled) ∷ [];
}

server-IsNamed : IsNamed server
unfolding lookup text_eq
server-IsNamed = record { distinct = (refl, (refl, tt)); named = (refl, (refl, tt)) }

list_pools-eq_of_perm_example : list_pools server ≡ list_pools other_order
list_pools-eq_of_perm_example =
    list_pools-eq_of_perm server other_order server-IsNamed (Permᴰ.swap refl refl)

scale_pool-get_pool_example :
    ((scale_pool (codes "a") (pos 5) server).0 ≡ ok tt)
    × (get_pool (codes "a") (scale_pool (codes "a") (pos 5) server).1
        ≡ ok (record (convert_pool_to_proto (named (codes "a") fresh)) {
          replicas = pos 5;
          desired_replicas = pos 5;
        }))
    × Changes (codes "a") (set_replicas (pos 5)) server (scale_pool (codes "a") (pos 5) server).1
    × ((set_replicas (pos 5) (named (codes "a") fresh)).scale_trigger ≡ true)
unfolding lookup text_eq
scale_pool-get_pool_example =
    scale_pool-get_pool (codes "a") (pos 5) server (named (codes "a") fresh) refl (omega arith)
      (omega arith)

-- An agent that cannot be reached.
abbrev pub silent : Guest
silent = record {
  connect = λ m. err (fault 1);
  get_runner_state = λ m. err (fault 1);
  get_runner_version = λ m. err (fault 1);
}

list_machines_lem_example :
    (ms : List Machine) × (list_machines silent (λ rs. rs) [] server
      ≡ ok (somes (map (convert_machine_to_proto silent) ms)))
    × Permᴰ ms (machine ∷ [])
    × Ordered machine_less ms
unfolding select_machines
list_machines_lem_example = list_machines_lem silent (λ rs. rs) [] server (λ rs. Permᴰ.refl rs) refl

abbrev two_lines : List Recv
two_lines = line (codes "one") ∷ line (codes "two") ∷ eof ∷ []

proxy-Ran_example :
    Ran (λ n. none) 0 two_lines (proxy (λ n. none) 0 two_lines)
    × AllSent (λ n. none) 0 (proxy (λ n. none) 0 two_lines).sent
proxy-Ran_example = proxy-Ran (λ n. none) 0 two_lines
