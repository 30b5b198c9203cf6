-- ===== src/Server/Gather.antt =====
-- server/rpc.go: ListMachines, whose goroutines each convert a machine and send it to the one that gathers
-- the messages.
use fireactions.Prelude.{
  Text, ℕ, zero, suc, List, [], ◌∷◌, map, Option, none, some, Result, ok, err,
}
use fireactions.Prelude.Sort.{sort}
use fireactions.Server.{
  Server, Guest, Status, MachineProto, select_machines, machine_less, convert_machine_to_proto,
}

-- One goroutine converts each machine and sends its index with the message.
unfoldable pub index_from : {A : Type 0} → ℕ → List A → List (ℕ × A)
index_from i [] = []
index_from i (x ∷ xs) = (i, x) ∷ index_from (suc i) xs

-- `results[i] = x`, where `i` is an index of the slice.
unfoldable pub store_at : {A : Type 0} → ℕ → A → List (Option A) → List (Option A)
store_at i x [] = []
store_at zero x (y ∷ ys) = some x ∷ ys
store_at (suc i) x (y ∷ ys) = y ∷ store_at i x ys

-- The messages as they come from the channel, each stored at its index.
unfoldable pub collect : {A : Type 0} → List (ℕ × A) → List (Option A) → List (Option A)
unfolding store_at
collect [] slots = slots
collect ((i, x) ∷ rest) slots = collect rest (store_at i x slots)

-- A slice of nil pointers.
unfoldable pub empty_slots : {A B : Type 0} → List A → List (Option B)
empty_slots [] = []
empty_slots (x ∷ xs) = none ∷ empty_slots xs

-- `arrive` is the order in which the goroutines' messages come.
unfoldable pub list_machines :
    Guest
    → (List (ℕ × MachineProto) → List (ℕ × MachineProto))
    → Text
    → Server
    → Result Status (List (Option MachineProto))
unfolding select_machines sort machine_less index_from collect empty_slots convert_machine_to_proto
list_machines guest arrive name s = elim (select_machines name s) [
  | err e ↦ err e
  | ok found ↦
      let machines = sort machine_less found in
      ok (
        collect (arrive (index_from 0 (map (convert_machine_to_proto guest) machines)))
          (empty_slots machines))
]
