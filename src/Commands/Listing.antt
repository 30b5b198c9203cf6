-- ===== src/Commands/Listing.antt =====
-- cmd/fireactions/printables.go, and the commands of cmd/fireactions that print a table: `pools list`,
-- `ps` and `image list`, with `image remove`. The age of a machine or an image, units.HumanDuration(time.Since(t)), and
-- units.HumanSize are parameters; making the client is left out.
use fireactions.Prelude.{
  join_by, Text, codes, ℕ, List, [], ◌∷◌, map, Option, none, some, Result, ok, err, Act, ◌>>=◌,
  ◌>>◌, pure, text_eq, if◌then◌else◌,
}
use fireactions.Image.{Containerd, Outside}
use fireactions.Server.{
  Server, Guest, Status, PoolProto, PoolState, active, paused, MachineProto, list_pools,
}
use fireactions.Server.Gather.{list_machines}
use fireactions.Server.Images.{ImageProto, list_images, remove_image}
use fireactions.Printer.{Cell, integer, string, Printable, Output, print_text}

-- ColsMap of each printable maps every column to itself.
abbrev pub to_itself : List Text → List (Text × Text)
to_itself = map (λ c. (c, c))

abbrev pub state_name : PoolState → Text
state_name active = codes "Active"
state_name paused = codes "Paused"

abbrev pub pool_cols : List Text
pool_cols =
    codes "Name"
    ∷ codes "Current"
    ∷ codes "Desired"
    ∷ codes "Organization"
    ∷ codes "Group ID"
    ∷ codes "Labels"
    ∷ codes "Image"
    ∷ codes "State"
    ∷ []

abbrev pub pool_kv : PoolProto → List (Text × Cell)
pool_kv p =
    (codes "Name", string p.name)
    ∷ (codes "Current", integer p.current_replicas)
    ∷ (codes "Desired", integer p.desired_replicas)
    ∷ (codes "Organization", string p.organization)
    ∷ (codes "Group ID", integer p.group_id)
    ∷ (codes "Labels", string (join_by (codes ", ") p.labels))
    ∷ (codes "Image", string p.image)
    ∷ (codes "State", string (state_name p.state))
    ∷ []

unfoldable pub printable_pool : List PoolProto → Printable
printable_pool pools = record {
  cols = pool_cols;
  cols_map = to_itself pool_cols;
  kv = map pool_kv pools;
}

unfoldable pub run_pools_list_cmd : Server → Output
unfolding list_pools print_text printable_pool
run_pools_list_cmd s = print_text (printable_pool (list_pools s)) []

abbrev pub or_unknown : Text → Text
or_unknown t = if text_eq t [] then codes "Unknown" else t

abbrev pub machine_cols : List Text
machine_cols =
    codes "Pool"
    ∷ codes "ID"
    ∷ codes "ADDR"
    ∷ codes "Runner State"
    ∷ codes "Runner Version"
    ∷ codes "Created"
    ∷ []

-- What a command that lists ends with: `nil_pointer` is the run-time panic at a field of a nil message.
pub data Listed : Type 0 where
  nothing_found nil_pointer : Listed
  printed : Output → Listed

module _ (age : ℕ → Text) where
  abbrev pub machine_kv : MachineProto → List (Text × Cell)
  machine_kv vm =
      (codes "Pool", string vm.pool)
      ∷ (codes "ID", string vm.id)
      ∷ (codes "ADDR", string vm.addr)
      ∷ (codes "Runner State", string (or_unknown vm.runner_state))
      ∷ (codes "Runner Version", string (or_unknown vm.runner_version))
      ∷ (codes "Created", string (age vm.created_at))
      ∷ []

  unfoldable pub printable_machine : List MachineProto → Printable
  printable_machine machines = record {
    cols = machine_cols;
    cols_map = to_itself machine_cols;
    kv = map machine_kv machines;
  }

  -- The loop of KV goes through pointers, and the messages that it reads are those it has not failed at.
  unfoldable pub pointed_to : List (Option MachineProto) → Option (List MachineProto)
  pointed_to [] = some []
  pointed_to (none ∷ ms) = none
  pointed_to (some m ∷ ms) = elim (pointed_to ms) [ none ↦ none | some rest ↦ some (m ∷ rest) ]

  abbrev pub print_machines : Option (List MachineProto) → Listed
  print_machines none = nil_pointer
  print_machines (some ms) = printed (print_text (printable_machine ms) [])

  abbrev pub list_or_none : List (Option MachineProto) → Listed
  list_or_none [] = nothing_found
  list_or_none (m ∷ ms) = print_machines (pointed_to (m ∷ ms))

  unfoldable pub run_ps_cmd :
      Guest → (List (ℕ × MachineProto) → List (ℕ × MachineProto)) → Server → Result Status Listed
  unfolding print_text printable_machine pointed_to
  run_ps_cmd guest arrive s = elim (list_machines guest arrive [] s) [
    | err e ↦ err e
    | ok ms ↦ ok (list_or_none ms)
  ]

module _ (age human_size : ℕ → Text) where
  abbrev pub image_cols : List Text
  image_cols = codes "Name" ∷ codes "Size" ∷ codes "Created" ∷ []

  abbrev pub image_kv : ImageProto → List (Text × Cell)
  image_kv img =
      (codes "Name", string img.name)
      ∷ (codes "Size", string (human_size img.size))
      ∷ (codes "Created", string (age img.created_at))
      ∷ []

  unfoldable pub printable_image : List ImageProto → Printable
  printable_image images = record {
    cols = image_cols;
    cols_map = to_itself image_cols;
    kv = map image_kv images;
  }

  unfoldable pub run_image_list_cmd : {W : Type 0} → Containerd W → Act (Outside W) Status Output
  unfolding list_images print_text printable_image
  run_image_list_cmd c = do images ← list_images c; pure (print_text (printable_image images) [])

-- `image remove` prints the name of the image.
unfoldable pub run_image_remove_cmd :
    {W : Type 0} → Containerd W → Text → Act (Outside W) Status Text
unfolding remove_image
run_image_remove_cmd c name = do remove_image c name; pure name
