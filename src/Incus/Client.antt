-- ===== src/Incus/Client.antt =====
-- internal/incus/client.go: the calls of `realClient` over what Incus answers. The upstream client is
-- a library: its calls are parameters.
pub mod Accepts
mod Tests
use incuse.Base.{
  ℕ, Text, codes, text_eq, ◌==◌, is_empty, contains_text, Bool, true, false, not, ◌&&◌, ◌||◌,
  Option, none, some, Result, ok, err, List, [], ◌∷◌, if◌then◌else◌, first_failed, map,
}
use incuse.Base.Dict.{Dict}
use incuse.Incus.{LaunchRequest, ImageSource, Instance}

pub data LaunchError : Type 0 where
  no_name bad_architecture no_type no_image : LaunchError
  unknown_alias create_failed wait_failed get_failed : Text → LaunchError
  not_found_after_launch : LaunchError

-- An error of Incus: whether its status is 404, and its text.
pub record ServerError : Type 0 where
  pub is_not_found : Bool
  pub message : Text

-- `api.InstanceSource` and `api.InstancesPost`, of an instance that starts at once
pub record Source : Type 0 where
  pub protocol : Text
  pub server : Text
  pub alias : Text
  pub fingerprint : Text

pub record Post : Type 0 where
  pub name : Text
  pub instance_type : Text
  pub source : Source
  pub architecture : Text
  pub description : Text
  pub config : Dict Text Text
  pub devices : Dict Text (Dict Text Text)
  pub profiles : List Text
  pub ephemeral : Bool

unfoldable pub launch_checks : LaunchRequest → List (Bool × LaunchError)
launch_checks r =
    (not (is_empty r.name), no_name)
    ∷ (r.architecture == codes "amd64" || r.architecture == codes "arm64", bad_architecture)
    ∷ (not (is_empty r.instance_type), no_type)
    ∷ (not (is_empty r.image.alias) || not (is_empty r.image.server), no_image)
    ∷ []

unfoldable pub validate_launch : LaunchRequest → Option LaunchError
unfolding launch_checks
validate_launch r = first_failed (launch_checks r)

unfoldable pub req_architecture : Text → Text
req_architecture arch = if arch == codes "arm64" then codes "aarch64" else codes "x86_64"

unfoldable pub remote_source : ImageSource → Source
remote_source i = record {
  protocol = i.protocol;
  server = i.server;
  alias = i.alias;
  fingerprint = [];
}

-- A local image is named by its fingerprint.
unfoldable pub image_source : (Text → Result Text) → ImageSource → Result Source
unfolding remote_source
image_source get_image_alias i =
    if is_empty i.server && not (is_empty i.alias)
    then elim (get_image_alias i.alias) [
      | err e ↦ err e
      | ok target ↦
          ok (record { protocol = []; server = i.server; alias = []; fingerprint = target })
    ]
    else ok (remote_source i)

unfoldable pub launch_post : LaunchRequest → Source → Post
unfolding req_architecture
launch_post r source = record {
  name = r.name;
  instance_type = r.instance_type;
  source = source;
  architecture = req_architecture r.architecture;
  description = r.description;
  config = r.config;
  devices = r.devices;
  profiles = r.profiles;
  ephemeral = r.ephemeral;
}

-- The answer of a call that has no other result than its error.
abbrev pub Answer : Type 0
Answer = Option ServerError

-- Wording of the daemon for an instance that is not up.
unfoldable pub is_already_stopped : Text → Bool
unfolding contains_text
is_already_stopped m =
    contains_text m (codes "already stopped") || contains_text m (codes "is not running")

-- `Stop`, over the answers of the call and of the wait for its operation.
unfoldable pub stop : Answer → Answer → Option Text
unfolding is_already_stopped
stop (some e) waited = if e.is_not_found then none else some e.message
stop none none = none
stop none (some e) = if is_already_stopped e.message then none else some e.message

-- `Delete`, over the answers of the call and of the wait for its operation.
unfoldable pub delete : Answer → Answer → Option Text
delete (some e) waited = if e.is_not_found then none else some e.message
delete none none = none
delete none (some e) = some e.message

-- The answer of `GetInstance`.
pub data GetAnswer : Type 0 where
  got : Instance → GetAnswer
  get_error : ServerError → GetAnswer

-- `Get`: `ok none` for an instance that is absent.
unfoldable pub get_instance : GetAnswer → Result (Option Instance)
get_instance (got i) = ok (some i)
get_instance (get_error e) = if e.is_not_found then ok none else err e.message

pub data Launched : Type 0 where
  launched : Instance → Launched
  launch_failed : LaunchError → Launched

unfoldable pub after_launch : Result (Option Instance) → Launched
after_launch (err e) = launch_failed (get_failed e)
after_launch (ok none) = launch_failed not_found_after_launch
after_launch (ok (some i)) = launched i

-- What Incus answers to the calls of a launch.
pub record LaunchServer : Type 0 where
  pub get_image_alias : Text → Result Text
  pub create_instance : Post → Option Text
  pub wait_launch : Post → Option Text
  pub get : Text → GetAnswer

module _ (s : LaunchServer) where
  unfoldable pub wait_and_get : Post → Option Text → Launched
  unfolding after_launch get_instance
  wait_and_get p (some e) = launch_failed (wait_failed e)
  wait_and_get p none = after_launch (get_instance (s.get p.name))

  unfoldable pub create_and_wait : Post → Option Text → Launched
  unfolding wait_and_get
  create_and_wait p (some e) = launch_failed (create_failed e)
  create_and_wait p none = wait_and_get p (s.wait_launch p)

  unfoldable pub launch_from : LaunchRequest → Result Source → Launched
  unfolding create_and_wait launch_post
  launch_from r (err e) = launch_failed (unknown_alias e)
  launch_from r (ok source) =
      create_and_wait (launch_post r source) (s.create_instance (launch_post r source))

  unfoldable pub launch_valid : LaunchRequest → Option LaunchError → Launched
  unfolding launch_from image_source
  launch_valid r (some e) = launch_failed e
  launch_valid r none = launch_from r (image_source s.get_image_alias r.image)

  -- `Launch`
  unfoldable pub launch : LaunchRequest → Launched
  unfolding launch_valid validate_launch
  launch r = launch_valid r (validate_launch r)
