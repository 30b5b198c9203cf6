-- ===== src/Github.antt =====
-- helper/github/client.go: the client of the GitHub application, with its clients for the installations.
-- Left out: what the transports and the clients of the libraries do, and the retries. A client is known by
-- a serial number, which stands for its pointer.
pub mod Cache
pub mod Tests
use fireactions.Prelude.{
  Text, ℕ, suc, ◌≡◌, Bool, false, List, [], ◌∷◌, Option, none, some, Result, ok, err, Fault, ℤ, pos,
  negsuc, ◌==◌, if◌then◌else◌,
}

pub record InstallationClient : Type 0 where
  pub serial : ℕ
  pub installation_id : ℤ

-- `installations` is the map, and `made` counts the clients that have been made.
pub record Client : Type 0 where
  pub made : ℕ
  pub installations : ℤ → Option InstallationClient

-- NewClient; `apps_transport` is the error of ghinstallation.NewAppsTransport.
unfoldable pub new_client : (ℤ → Text → Option Fault) → ℤ → Text → Result Fault Client
new_client apps_transport app_id key = elim (apps_transport app_id key) [
  | some e ↦ err e
  | none ↦ ok (record { made = 0; installations = λ id. none })
]

unfoldable pub same_id : ℤ → ℤ → Bool
same_id (pos m) (pos n) = m == n
same_id (negsuc m) (negsuc n) = m == n
same_id (pos m) (negsuc n) = false
same_id (negsuc m) (pos n) = false

-- The lock is held throughout, so that concurrent calls come one after the other.
unfoldable pub installation : ℤ → Client → InstallationClient × Client
unfolding same_id
installation id c = elim (c.installations id) [
  | some client ↦ (client, c)
  | none ↦
      let client : InstallationClient = record { serial = c.made; installation_id = id } in
      (
        client,
        record {
          made = suc c.made;
          installations = λ i. if same_id id i then some client else c.installations i;
        },
      )
]
