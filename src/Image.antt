-- ===== src/Image.antt =====
-- server/image.go: the image manager. containerd, the parser of image references and the resolver are
-- external: `Containerd` holds their answers over a world of their own, which calls may change. Every
-- call of containerd is recorded. golang.org/x/sync/singleflight shares one pull among the callers that
-- ask for it at once; one caller is modelled, for whom Do just runs its function.
pub mod Policy
pub mod Tests
use fireactions.Prelude.{
  Text, codes, ℕ, suc, ◌≡◌, Bool, true, false, List, [], ◌∷◌, Result, ok, err, Fault, is_not_found,
  text_eq, Act, ◌>>=◌, ◌>>◌, pure, fail, attempt, wrapping, then_act, rewrap, if◌then◌else◌, map,
}

-- What the program asks of a containerd.Image.
pub record ImageInfo : Type 0 where
  pub name : Text
  pub size : Result Fault ℕ
  pub created_at : ℕ

pub record Containerd (W : Type 0) : Type 0 where
  pub get_image : Text → W → Result Fault ImageInfo × W
  pub parse_docker_ref : Text → Result Fault Text
  pub new_resolver : Text → W → Result Fault (Unit {0}) × W
  pub pull : Text → W → Result Fault ImageInfo × W
  pub list_images : W → Result Fault (List ImageInfo) × W
  pub delete : Text → W → Result Fault (Unit {0}) × W

pub data ImageCall : Type 0 where
  gets pulls deletes : Text → ImageCall
  lists : ImageCall

-- The outside world, and the calls made so far, the latest first.
pub record Outside (W : Type 0) : Type 0 where
  pub world : W
  pub calls : List ImageCall

pub data ImageError : Type 0 where
  plain checking_local_image parsing_image_ref creating_resolver getting_image : Fault → ImageError
  invalid_pull_policy : Text → ImageError

module _ {W : Type 0} (c : Containerd W) where
  abbrev call : {A : Type 0} → ImageCall → (W → Result Fault A × W) → Act (Outside W) Fault A
  call k f o = let (r, w) = f o.world in (r, record { world = w; calls = k ∷ o.calls })

  -- A call that is not recorded.
  abbrev ask : {A : Type 0} → (W → Result Fault A × W) → Act (Outside W) Fault A
  ask f o = let (r, w) = f o.world in (r, record { world = w; calls = o.calls })

  abbrev from_result : {A : Type 0} → Result Fault A → Act (Outside W) Fault A
  from_result r o = (r, o)

  unfoldable pub get_local_image : Text → Act (Outside W) Fault ImageInfo
  get_local_image ref = call (gets ref) (c.get_image ref)

  -- The function that pullImage hands to singleflight.
  do_pull : Text → Act (Outside W) ImageError ImageInfo
  do_pull ref = do
    domain ← wrapping parsing_image_ref (from_result (c.parse_docker_ref ref))
    wrapping creating_resolver (ask (c.new_resolver domain))
    wrapping plain (call (pulls ref) (c.pull ref))

  -- With `is_always` false the image may have come meanwhile: it is looked up again.
  unfoldable pub pull_image : Text → Bool → Act (Outside W) ImageError ImageInfo
  unfolding do_pull
  pull_image ref true = do_pull ref
  pull_image ref false = do
    local ← attempt (call (gets ref) (c.get_image ref))
    elim local [
      | ok image ↦ pure image
      | err e ↦ if is_not_found e then do_pull ref else fail (plain e)
    ]

  ensure_if_not_present : Text → Act (Outside W) ImageError ImageInfo
  unfolding get_local_image pull_image
  ensure_if_not_present ref = do
    local ← attempt (get_local_image ref)
    elim local [
      | ok image ↦ pure image
      | err e ↦ if is_not_found e then pull_image ref false else fail (checking_local_image e)
    ]

  -- The switch on the pull policy.
  unfoldable pub ensure_image : Text → Text → Act (Outside W) ImageError ImageInfo
  unfolding get_local_image pull_image ensure_if_not_present text_eq
  ensure_image ref policy =
      if text_eq policy (codes "Always")
      then pull_image ref true
      else if text_eq policy (codes "Never")
      then wrapping plain (get_local_image ref)
      else if text_eq policy (codes "IfNotPresent")
      then ensure_if_not_present ref
      else fail (invalid_pull_policy policy)

  unfoldable pub list_images : Act (Outside W) Fault (List ImageInfo)
  list_images = call lists c.list_images

  unfoldable pub remove_image : Text → Act (Outside W) ImageError (Unit {0})
  remove_image name = do
    wrapping getting_image (call (gets name) (c.get_image name)) >>= λ image.
        wrapping plain (call (deletes name) (c.delete name))
