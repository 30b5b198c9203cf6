-- ===== src/Create/Tests.antt =====
-- The theorems about createMachine at a host where everything succeeds, and at one whose Firecracker
-- cannot start a machine.
use fireactions.Prelude.{
  Text, codes, ℕ, ◌≡◌, refl, ◌≢◌, ◌≤◌, ◌<◌, false, [], ◌∷◌, ok, err, fault, arith, Post, text_eq,
  inr, lookup, some,
}
use fireactions.Image.{Containerd, ImageInfo}
use fireactions.Pool.{Machine}
use fireactions.Pool.Tests.{fresh}
use fireactions.Create.{
  Host, Making, create_machine, runner_name, lease_id, cancels_lease, cancels_vmm, starting_machine,
  first_cid,
}
use fireactions.Create.Lease.{Released, Kept, create_machine_lem}
use fireactions.Create.Cleanup.{retire}
use fireactions.Create.Idle.{held}
use fireactions.Create.Lifecycle.{removal, create_machine-retire}
use fireactions.Create.Event.{Refines, create_machine-Refines}
use fireactions.Create.Leak.{Leaks, create_machine-Leaks}
use fireactions.Create.Paths.{machine_file-distinct}
use fireactions.Prelude.Paths.{join}
use fireactions.Pool.Spec.{log_file, socket, firecracker_log, machine_file}
use fireactions.StringId.Tests.{draws, draws-Filled, second}
use fireactions.Create.Cids.{nth_cid, nth_cid-distinct}

abbrev image : ImageInfo
image = record { name = codes "ghcr.io/runner"; size = ok 1; created_at = 0 }

-- The world of these hosts has nothing in it.
abbrev containerd : Containerd (Unit {0})
containerd = record {
  get_image = λ ref w. (ok image, w);
  parse_docker_ref = λ ref. ok ref;
  new_resolver = λ domain w. (ok tt, w);
  pull = λ ref w. (ok image, w);
  list_images = λ w. (ok (image ∷ []), w);
  delete = λ name w. (ok tt, w);
}

abbrev pub willing : Host (Unit {0})
willing = record {
  containerd = containerd;
  with_lease = λ id w. (ok tt, w);
  cancel_lease = λ id w. (ok tt, w);
  stat_snapshot = λ id w. (ok tt, w);
  root_fs = λ w. (ok (codes "chain"), w);
  prepare = λ id parent w. (ok tt, w);
  mounts = λ id w. (ok (codes "/dev/mapper/a" ∷ []), w);
  create_log = λ name w. (ok tt, w);
  new_machine = λ spec w. (ok tt, w);
  find_installation = λ organization w. (ok 99, w);
  generate_jit =
      λ i r w. (ok (record { encoded = codes "jit"; runner_name = r.name; runner_id = 5 }), w);
  remove_runner = λ i id w. (ok tt, w);
  start = λ name metadata w. (ok (codes "172.16.0.2" ∷ []), w);
  now = λ w. 0;
}

abbrev not_starting : Host (Unit {0})
not_starting = record willing { start = λ name metadata w. (err (fault 1), w) }

abbrev pub making : Making (Unit {0})
making = record {
  pool = fresh;
  next_cid = first_cid;
  world = tt;
  calls = [];
  machine_created = false;
  lease_cancel = [];
}

abbrev pub an_id : Text
an_id = codes "0a1b"

create_machine_lem_example :
    Post
      (Released making)
      (λ u. Kept (runner_name (codes "runner") an_id) making)
      (create_machine willing an_id making)
create_machine_lem_example = create_machine_lem willing an_id making

-- The run of `willing` succeeds.
pub created : (create_machine willing an_id making).0 ≡ ok tt
unfolding create_machine text_eq
created = refl

not_started : (create_machine not_starting an_id making).0 ≡ err (starting_machine (fault 1))
unfolding create_machine text_eq
not_started = refl

create_machine-Leaks_example : Leaks making (create_machine not_starting an_id making).1
create_machine-Leaks_example = create_machine-Leaks not_starting an_id making (fault 1) not_started

nth_cid-distinct_example :
    (a b : ℕ) × (nth_cid willing 0 making ≡ ok a)
    × (nth_cid willing 1 making ≡ ok b)
    × (a ≢ b)
    × (0 < 4294967293 → 3 ≤ a)
nth_cid-distinct_example = nth_cid-distinct willing 0 1 making refl (omega arith) (omega arith)

create_machine-retire_example :
    (m : Machine) × (lookup
        (runner_name (codes "runner") an_id)
        (create_machine willing an_id making).1.pool.machines
      ≡ some m)
    × (m.lease_cancel ≡ lease_id (codes "default") (runner_name (codes "runner") an_id))
    × (held (create_machine willing an_id making).1.calls ≡ m.lease_cancel ∷ [])
    × ((retire willing m (create_machine willing an_id making).1).1.calls
        ≡ cancels_lease m.lease_cancel
          ∷ removal willing m (create_machine willing an_id making).1 (
              cancels_vmm (runner_name (codes "runner") an_id)
              ∷ (create_machine willing an_id making).1.calls))
    × (held (retire willing m (create_machine willing an_id making).1).1.calls ≡ [])
create_machine-retire_example =
    create_machine-retire willing an_id making (create_machine willing an_id making).1 created

-- One creation is under way.
abbrev busy : Making (Unit {0})
busy = record making { pool = record fresh { pending_creates = 1; creators_creating = 1 } }

create_machine-Refines_example :
    Refines
      (runner_name (codes "runner") an_id)
      busy.pool
      (create_machine willing an_id busy).1.pool
      0
      (create_machine willing an_id busy).0
create_machine-Refines_example = create_machine-Refines willing an_id busy 0 refl

the_socket :
    machine_file fresh (runner_name (codes "runner") an_id) socket
    ≡ codes "/var/lib/fireactions/pools/default/runner-0a1b.sock"
unfolding machine_file text_eq
the_socket = refl

-- Join drops what leads out of the directory.
cleaned : join (codes "/var//lib/./pools/../x") (codes "../a/b.sock") ≡ codes "/var/lib/a/b.sock"
unfolding join text_eq
cleaned = refl

machine_file-distinct_example :
    machine_file fresh (runner_name (codes "runner") (codes "12af000000000000000000ff")) log_file
    ≢ machine_file fresh
        (runner_name (codes "runner") (codes "12af000000000000000000ff"))
        firecracker_log
machine_file-distinct_example =
    machine_file-distinct fresh draws draws (codes "12af000000000000000000ff")
      (codes "12af000000000000000000ff") log_file firecracker_log draws-Filled draws-Filled second
      second (inr (λ e. cc))
