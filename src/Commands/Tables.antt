-- ===== src/Commands/Tables.antt =====
-- cmd/fireactions: what the commands that list pools and machines print, from the server's state on.
use mathlib.Core.List.{Permᴰ}
use fireactions.Prelude.{
  join_by, sym, Text, codes, ℕ, ◌≡◌, refl, ap, ◌∙◌, List, [], ◌∷◌, map, some, Result, ok, arith,
  All-map_of, nil_of_length, lookup, itoa, text_eq,
}
use fireactions.Prelude.Sort.{Ordered, length-perm}
use fireactions.Pool.{Machine, values}
use fireactions.Server.{
  Server, Guest, Status, PoolProto, convert_pool_to_proto, MachineProto, list_pools,
  select_machines, all_machines, machine_less, convert_machine_to_proto,
}
use fireactions.Server.Lists.{name_less, list_pools_lem}
use fireactions.Server.Machines.{somes, list_machines_lem}
use fireactions.Server.Images.{ImageProto}
use fireactions.Printer.{table, print_text, row_of, cell_at}
use fireactions.Printer.Columns.{IsComplete, print_text-known}
use fireactions.Commands.Listing.{
  printable_pool, printable_machine, printable_image, pool_cols, pool_kv, machine_cols, machine_kv,
  image_kv, state_name, or_unknown, run_pools_list_cmd, run_ps_cmd, pointed_to, Listed,
  nothing_found, printed, list_or_none, print_machines,
}

-- Each of the three tables knows the columns that it shows, and has a value for each of them in each row,
-- whatever the pools, the machines and the images are.
pub printables-IsComplete :
    (age human_size : ℕ → Text) (pools : List PoolProto) (machines : List MachineProto)
    (images : List ImageProto)
    → IsComplete (printable_pool pools)
      × IsComplete (printable_machine age machines)
      × IsComplete (printable_image age human_size images)
unfolding printable_pool printable_machine printable_image lookup cell_at text_eq
printables-IsComplete age human_size pools machines images = (
  record { known = ground arith; filled = All-map_of _ pool_kv pools (λ p. ground arith) },
  record {
    known = ground arith;
    filled = All-map_of _ (machine_kv age) machines (λ m. ground arith);
  },
  record {
    known = ground arith;
    filled = All-map_of _ (image_kv age human_size) images (λ i. ground arith);
  },
)

-- A row of `pools list`, by the columns.
abbrev pub pool_row : PoolProto → List Text
pool_row p =
    p.name
    ∷ itoa p.current_replicas
    ∷ itoa p.desired_replicas
    ∷ p.organization
    ∷ itoa p.group_id
    ∷ join_by (codes ", ") p.labels
    ∷ p.image
    ∷ state_name p.state
    ∷ []

map-pool_row : (ps : List PoolProto) → map (row_of pool_cols) (map pool_kv ps) ≡ map pool_row ps
unfolding row_of cell_at lookup text_eq
map-pool_row [] = refl
map-pool_row (p ∷ ps) = ap (◌∷◌ (pool_row p)) (map-pool_row ps)

pool_table :
    (ps : List PoolProto) → print_text (printable_pool ps) [] ≡ table pool_cols (map pool_row ps)
unfolding printable_pool
pool_table ps = print_text-known (printable_pool ps) [] tt ∙ ap (table pool_cols) (map-pool_row ps)

-- `pools list` prints one row for each pool of the server, in the order of their names, with the size of
-- its map of machines, its wanted size, and the rest of what convertPoolToProto gives.
pub run_pools_list_cmd-rows :
    (s : Server)
    → (ps : List PoolProto) × (run_pools_list_cmd s ≡ table pool_cols (map pool_row ps))
      × Permᴰ ps (map convert_pool_to_proto (values s.pools))
      × Ordered name_less ps
unfolding run_pools_list_cmd
run_pools_list_cmd-rows s =
    let (perm, ordered) = list_pools_lem s in
    (list_pools s, pool_table (list_pools s), perm, ordered)

-- A row of `ps`, by the columns.
abbrev pub machine_row : (ℕ → Text) → MachineProto → List Text
machine_row age m =
    m.pool
    ∷ m.id
    ∷ m.addr
    ∷ or_unknown m.runner_state
    ∷ or_unknown m.runner_version
    ∷ age m.created_at
    ∷ []

map-machine_row :
    (age : ℕ → Text) (ms : List MachineProto)
    → map (row_of machine_cols) (map (machine_kv age) ms) ≡ map (machine_row age) ms
unfolding row_of cell_at lookup text_eq
map-machine_row age [] = refl
map-machine_row age (m ∷ ms) = ap (◌∷◌ (machine_row age m)) (map-machine_row age ms)

machine_table :
    (age : ℕ → Text) (ms : List MachineProto)
    → print_text (printable_machine age ms) [] ≡ table machine_cols (map (machine_row age) ms)
unfolding printable_machine
machine_table age ms =
    print_text-known (printable_machine age ms) [] tt
    ∙ ap (table machine_cols) (map-machine_row age ms)

pointed_to-somes : (age : ℕ → Text) (ms : List MachineProto) → pointed_to age (somes ms) ≡ some ms
unfolding pointed_to somes
pointed_to-somes age [] = refl
pointed_to-somes age (m ∷ ms) = rw (pointed_to-somes age ms, pointed_to) refl

-- What `ps` ends with.
pub data Shown (age : ℕ → Text) (guest : Guest) (s : Server) (r : Result Status Listed)
    : Type 0 where
  no_machine_shown : all_machines s.pools ≡ [] → r ≡ ok nothing_found → Shown age guest s r
  machines_shown :
      (m : Machine) (ms : List Machine)
      → Permᴰ (m ∷ ms) (all_machines s.pools)
      → Ordered machine_less (m ∷ ms)
      → r
        ≡ ok (
            printed (
              table machine_cols
                (map (machine_row age) (map (convert_machine_to_proto guest) (m ∷ ms)))))
      → Shown age guest s r

no_more :
    (age : ℕ → Text) (guest : Guest) (s : Server) (ms : List Machine) (r : Result Status Listed)
    → Permᴰ ms (all_machines s.pools)
    → Ordered machine_less ms
    → r ≡ ok (list_or_none age (somes (map (convert_machine_to_proto guest) ms)))
    → Shown age guest s r
unfolding somes
no_more age guest s [] r perm ordered e =
    no_machine_shown (nil_of_length _ (sym (length-perm perm))) e
no_more age guest s (m ∷ ms) r perm ordered e =
    let protos = map (convert_machine_to_proto guest) (m ∷ ms) in
    machines_shown m ms perm ordered (
      e
      ∙ ap (λ x. ok (print_machines age x)) (pointed_to-somes age protos)
      ∙ ap (λ x. ok (printed x)) (machine_table age protos))

every_machine : (s : Server) → select_machines [] s ≡ ok (all_machines s.pools)
unfolding select_machines text_eq
every_machine s = refl

-- Whatever the order in which ListMachines gets its messages: `ps` says that there is no machine if no
-- pool has one, and else prints one row for each machine, by pool and by name within a pool. It never
-- fails, and never meets a nil message.
pub run_ps_cmd-Shown :
    (age : ℕ → Text) (guest : Guest) (arrive : List (ℕ × MachineProto) → List (ℕ × MachineProto))
    (s : Server)
    → ((rs : List (ℕ × MachineProto)) → Permᴰ rs (arrive rs))
    → Shown age guest s (run_ps_cmd age guest arrive s)
unfolding run_ps_cmd somes
run_ps_cmd-Shown age guest arrive s any =
    let (ms, answer, perm, ordered) = list_machines_lem guest arrive [] s any (every_machine s) in
    no_more age guest s ms (run_ps_cmd age guest arrive s) perm ordered
      (rw (answer, run_ps_cmd) refl)
