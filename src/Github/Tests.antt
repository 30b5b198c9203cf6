-- ===== src/Github/Tests.antt =====
-- Three calls for two installations.
use fireactions.Prelude.{codes, ◌≡◌, ◌↔◌, refl, [], ◌∷◌, none, ok, pos}
use fireactions.Github.{Client, new_client, installation}
use fireactions.Github.Cache.{calls, installation-cached}

abbrev new : Client
new = record { made = 0; installations = λ id. none }

made : new_client (λ id key. none) (pos 1) (codes "key") ≡ ok new
unfolding new_client
made = refl

installation-cached_example :
    ((installation (pos 8) (calls (pos 7 ∷ []) new)).0.installation_id ≡ pos 8)
    × (((installation (pos 7) (calls [] (installation (pos 8) (calls (pos 7 ∷ []) new)).1)).0.serial
          ≡ (installation (pos 8) (calls (pos 7 ∷ []) new)).0.serial)
        ↔ (pos 8 ≡ pos 7))
installation-cached_example =
    installation-cached (λ id key. none) (pos 1) (codes "key") new (pos 7 ∷ []) [] (pos 8) (pos 7)
      made
