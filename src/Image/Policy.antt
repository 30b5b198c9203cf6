-- ===== src/Image/Policy.antt =====
-- server/image.go: what a pull policy lets the image manager do.
use fireactions.Prelude.{
  Text, codes, ℕ, suc, ◌+◌, ◌≤◌, ◌≡◌, ◌≢◌, ◌⊎◌, inl, inr, Bool, true, false, List, [], ◌∷◌, ok, err,
  not_found, arith, text_eq_iff,
}
use fireactions.Image.{
  Containerd, ImageInfo, ImageCall, gets, pulls, Outside, ensure_image, pull_image, do_pull,
  ensure_if_not_present,
}

abbrev pub count_pulls : List ImageCall → ℕ
count_pulls [] = 0
count_pulls (pulls ref ∷ ks) = suc (count_pulls ks)
count_pulls (_ ∷ ks) = count_pulls ks

module _ {W : Type 0} (c : Containerd W) where
  do_pull_once :
      (ref : Text) (o : Outside W) → count_pulls (do_pull c ref o).1.calls ≤ count_pulls o.calls + 1
  unfolding do_pull
  do_pull_once ref o = ground arith

  pull_image_once :
      (ref : Text) (always : Bool) (o : Outside W)
      → count_pulls (pull_image c ref always o).1.calls ≤ count_pulls o.calls + 1
  unfolding pull_image
  pull_image_once ref true o = do_pull_once ref o
  pull_image_once ref false o = ground arith

  if_not_present_pulls :
      (ref : Text) (o : Outside W)
      → (count_pulls (ensure_if_not_present c ref o).1.calls ≤ count_pulls o.calls + 1)
        × (count_pulls (ensure_if_not_present c ref o).1.calls ≢ count_pulls o.calls
            → (c.get_image ref o.world).0 ≡ err not_found)
  unfolding ensure_if_not_present pull_image do_pull
  if_not_present_pulls ref o = ground arith

  -- ensureImage pulls at most once, and only under the policy Always, or under IfNotPresent after
  -- containerd has answered that it has no such image.
  pub ensure_image_pulls :
      (ref policy : Text) (o : Outside W)
      → (count_pulls (ensure_image c ref policy o).1.calls ≡ count_pulls o.calls)
        ⊎ ((count_pulls (ensure_image c ref policy o).1.calls ≡ count_pulls o.calls + 1)
            × ((policy ≡ codes "Always")
                ⊎ ((policy ≡ codes "IfNotPresent")
                    × ((c.get_image ref o.world).0 ≡ err not_found))))
  unfolding ensure_image
  ensure_image_pulls ref policy o = ground (
    arith,
    text_eq_iff policy (codes "Always"),
    text_eq_iff policy (codes "IfNotPresent"),
    do_pull_once ref o,
    if_not_present_pulls ref o,
  )

  -- An image that containerd has is answered under the policies Never and IfNotPresent with one
  -- lookup and no other call.
  pub ensure_image_present :
      (ref policy : Text) (o : Outside W) (image : ImageInfo)
      → (policy ≡ codes "Never") ⊎ (policy ≡ codes "IfNotPresent")
      → (c.get_image ref o.world).0 ≡ ok image
      → ((ensure_image c ref policy o).0 ≡ ok image)
        × ((ensure_image c ref policy o).1.calls ≡ gets ref ∷ o.calls)
  unfolding ensure_image
  ensure_image_present ref policy o image (inl p) e = rw p (ground arith, ground arith)
  ensure_image_present ref policy o image (inr p) e = rw p (ground arith, ground arith)
