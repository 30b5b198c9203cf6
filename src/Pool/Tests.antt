-- ===== src/Pool/Tests.antt =====
-- The theorems about a pool at concrete pools: a target of two machines that is reached from an empty
-- map, and a surplus machine whose deletion is still inside StopVMM.
use fireactions.Prelude.{
  Text, codes, ◌+◌, ◌≡◌, refl, ◌≢◌, true, false, [], ◌∷◌, none, some, ok, pos, arith, length,
  lookup, text_eq,
}
use fireactions.Config.{PoolConfig}
use fireactions.Deepcopy.{no_entries}
use fireactions.Pool.{Pool, Machine, new_pool, scale, effective_size, get_replicas}
use fireactions.Pool.Events.{
  exec, Reach, here, next, creator_starts, creator_returns, creator_stores, deleter_returns,
  cleanup_removes, timer, rounds,
}
use fireactions.Pool.Counters.{CountersAgree, Reach-CountersAgree}
use fireactions.Pool.Target.{Meets, scale-Meets}
use fireactions.Pool.Settle.{Work, done, step, scale-settles}
use fireactions.Pool.Converge.{Running, AtRest, Reach-AtRest}
use fireactions.Pool.Overshoot.{scale_drift}
use fireactions.Pool.Watched.{Owned, Reach-Owned}
use fireactions.Pool.Loop.{Alone, rests, steps, at, scaling, waiting, go}

abbrev pub config : PoolConfig
config = record {
  name = codes "default";
  shutdown_on_exit = some true;
  replicas = pos 2;
  runner = record {
    name = codes "runner";
    image_pull_policy = codes "IfNotPresent";
    image = codes "ghcr.io/runner";
    organization = codes "hostinger";
    group_id = pos 1;
    labels = [];
  };
  firecracker = record {
    binary_path = codes "firecracker";
    kernel_image_path = codes "/var/lib/fireactions/vmlinux";
    kernel_args = [];
    machine_config = record { vcpu_count = pos 2; mem_size_mib = pos 2048 };
    metadata = no_entries;
  };
}

abbrev pub machine : Machine
machine = record {
  vmid = codes "a";
  name = codes "a";
  runner_id = 7;
  pool = codes "default";
  created_at = 0;
  vsock_cid = 3;
  vsock_path = codes "/var/lib/fireactions/pools/default/a.vsock";
  lease_cancel = codes "fireactions/pools/default/a";
  interfaces = codes "172.16.0.2" ∷ [];
}

abbrev pub fresh : Pool
fresh = record {
  config = config;
  pending_creates = 0;
  pending_deletes = 0;
  machines = [];
  installation_id = 0;
  replicas = 2;
  is_active = true;
  scale_trigger = false;
  stop_ch = false;
  cancelled = false;
  exited = false;
  creators_spawned = 0;
  creators_creating = 0;
  creators_returning = 0;
  deleters_spawned = 0;
  deleters_deleting = 0;
  stopping = [];
  cleanups = [];
  closing = [];
}

pub new_fresh : new_pool config true ≡ ok fresh
unfolding new_pool
new_fresh = refl

-- The first round of the loop launches two creations.
abbrev pub launched : Pool
launched = record fresh { pending_creates = 2; creators_spawned = 2 }

first_round : exec (rounds timer) fresh ≡ some launched
unfolding exec
first_round = refl

pub launched-Reach : Reach fresh launched
launched-Reach = next (rounds timer) here first_round

Reach-CountersAgree_example : CountersAgree launched
Reach-CountersAgree_example = Reach-CountersAgree config fresh launched new_fresh launched-Reach

fresh-CountersAgree : CountersAgree fresh
fresh-CountersAgree = omega arith

scale-Meets_example : (q : Pool) × (scale (pos 2) fresh ≡ ok q) × Meets (pos 2) fresh q
unfolding effective_size
scale-Meets_example = scale-Meets (pos 2) fresh refl fresh-CountersAgree (omega arith) (omega arith)

-- One machine wanted: the goroutine starts, stores its machine and returns.
abbrev one_launched : Pool
one_launched = record fresh { pending_creates = 1; creators_spawned = 1 }

abbrev pub one_settled : Pool
one_settled = record fresh { machines = (codes "a", machine) ∷ []; cleanups = codes "a" ∷ [] }

one_scaled : scale (pos 1) fresh ≡ ok one_launched
unfolding scale
one_scaled = refl

one_works : Work one_launched one_settled
unfolding exec lookup
one_works =
    step creator_returns
      (step {u = record one_settled { pending_creates = 1; creators_returning = 1 }}
        (creator_stores (codes "a") machine)
        (step {u = record fresh { pending_creates = 1; creators_creating = 1 }} creator_starts done
          tt refl)
        refl refl)
      tt refl

scale-settles_example : length one_settled.machines ≡ 1
scale-settles_example =
    scale-settles (pos 1) fresh refl fresh-CountersAgree refl one_scaled one_works refl

launched-Running : Running launched
launched-Running = record { active = refl; live = refl; looping = refl; unsignalled = refl }

Reach-AtRest_example :
    (u : Pool) × Reach launched u × AtRest u × (get_replicas u ≡ get_replicas launched) × Running u
Reach-AtRest_example =
    Reach-AtRest config fresh launched machine new_fresh launched-Reach launched-Running

-- One machine is in the map and one is wanted, but StopVMM of another has not returned.
abbrev stopping_one : Pool
stopping_one = record one_settled {
  pending_deletes = 1;
  stopping = codes "b" ∷ [];
  cleanups = codes "b" ∷ codes "a" ∷ [];
}

abbrev scaled_again : Pool
scaled_again = record stopping_one { pending_creates = 1; creators_spawned = 1 }

again : Alone (at (scaling (pos 1)) stopping_one) (at waiting scaled_again)
unfolding go
again = steps (steps (steps (steps (steps (steps rests)))))

abbrev above_target : Pool
above_target = record fresh {
  machines = (codes "a", machine) ∷ (codes "c", machine) ∷ [];
  cleanups = codes "c" ∷ codes "b" ∷ codes "a" ∷ [];
}

again_works : Work scaled_again above_target
unfolding exec lookup text_eq
again_works =
    step creator_returns
      (step {u = record above_target { pending_creates = 1; creators_returning = 1 }}
        (creator_stores (codes "c") machine)
        (step
          {u = record one_settled {
            pending_creates = 1;
            creators_creating = 1;
            cleanups = codes "b" ∷ codes "a" ∷ [];
          }}
          creator_starts
          (step
            {u = record one_settled {
              pending_creates = 1;
              creators_spawned = 1;
              cleanups = codes "b" ∷ codes "a" ∷ [];
            }}
            (deleter_returns (codes "b")) done tt refl)
          tt refl)
        refl refl)
      tt refl

stopping-CountersAgree : CountersAgree stopping_one
stopping-CountersAgree = omega arith

scale_drift_example : length above_target.machines + 0 ≡ 1 + 1
unfolding effective_size
scale_drift_example =
    scale_drift 1 stopping_one refl stopping-CountersAgree
      (record { creates_fit = omega arith; deletes_fit = omega arith }) (omega arith) (omega arith)
      again again_works refl

Reach-Owned_example :
    Owned launched
    × ((k : Text) → lookup k launched.machines ≢ none → exec (cleanup_removes k) launched ≢ none)
Reach-Owned_example = Reach-Owned config fresh launched new_fresh launched-Reach
