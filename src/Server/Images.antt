-- ===== src/Server/Images.antt =====
-- server/rpc.go and server/convert.go: ListImages and RemoveImage, which hand on the image manager.
use fireactions.Prelude.{Text, ℕ, List, map, ok, err, Result, Fault, Act, ◌>>=◌, pure, wrapping}
use fireactions.Image
use fireactions.Image.{ImageInfo, Containerd, ImageError, Outside}
use fireactions.Server.{Status, Cause, internal, listing_images, removing_image}

-- The message of proto/server/v1.
pub record ImageProto : Type 0 where
  pub name : Text
  pub size : ℕ
  pub created_at : ℕ

-- `size, _ := img.Size(ctx)`, which is 0 beside an error.
abbrev size_of : Result Fault ℕ → ℕ
size_of (ok n) = n
size_of (err e) = 0

unfoldable pub convert_image_to_proto : ImageInfo → ImageProto
convert_image_to_proto img = record {
  name = img.name;
  size = size_of img.size;
  created_at = img.created_at;
}

abbrev internal_error : Cause → Status
internal_error cause = record { code = internal; cause = cause }

module _ {W : Type 0} (c : Containerd W) where
  unfoldable pub list_images : Act (Outside W) Status (List ImageProto)
  unfolding Image.list_images convert_image_to_proto
  list_images = do
    images ← wrapping (λ e. internal_error (listing_images e)) (Image.list_images c)
    pure (map convert_image_to_proto images)

  unfoldable pub remove_image : Text → Act (Outside W) Status (Unit {0})
  unfolding Image.remove_image
  remove_image name = wrapping (λ e. internal_error (removing_image e)) (Image.remove_image c name)
