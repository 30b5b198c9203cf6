-- ===== src/Image/Tests.antt =====
-- The theorems about pull policies at a containerd that has the image asked for.
use fireactions.Prelude.{codes, ◌+◌, ◌≡◌, ◌⊎◌, [], ◌∷◌, ok, err, not_found}
use fireactions.Image.{Containerd, ImageInfo, Outside, ensure_image}
use fireactions.Image.Policy.{count_pulls, ensure_image_pulls}

abbrev image : ImageInfo
image = record { name = codes "img"; size = ok 1; created_at = 0 }

-- Its world has nothing in it.
abbrev stocked : Containerd (Unit {0})
stocked = record {
  get_image = λ ref w. (ok image, w);
  parse_docker_ref = λ ref. ok ref;
  new_resolver = λ domain w. (ok tt, w);
  pull = λ ref w. (ok image, w);
  list_images = λ w. (ok (image ∷ []), w);
  delete = λ name w. (ok tt, w);
}

abbrev outside : Outside (Unit {0})
outside = record { world = tt; calls = [] }

ensure_image_pulls_example :
    (count_pulls (ensure_image stocked (codes "img") (codes "Always") outside).1.calls ≡ 0)
    ⊎ ((count_pulls (ensure_image stocked (codes "img") (codes "Always") outside).1.calls ≡ 0 + 1)
        × ((codes "Always" ≡ codes "Always")
            ⊎ ((codes "Always" ≡ codes "IfNotPresent")
                × ((stocked.get_image (codes "img") tt).0 ≡ err not_found))))
ensure_image_pulls_example = ensure_image_pulls stocked (codes "img") (codes "Always") outside
