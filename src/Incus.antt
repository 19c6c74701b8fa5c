-- ===== src/Incus.antt =====
-- internal/incus/types.go: what the orchestrator hands to the Incus client and gets from it.
pub mod Client
pub mod Connect
use incuse.Base.{Text, codes, text_eq, Bool, List}
use incuse.Base.Dict.{Dict}

abbrev pub instance_type_vm : Text
instance_type_vm = codes "virtual-machine"

abbrev pub instance_type_container : Text
instance_type_container = codes "container"

pub record ImageSource : Type 0 where
  pub server : Text
  pub protocol : Text
  pub alias : Text

pub record LaunchRequest : Type 0 where
  pub name : Text
  pub architecture : Text
  pub instance_type : Text
  pub profiles : List Text
  pub image : ImageSource
  pub config : Dict Text Text
  pub devices : Dict Text (Dict Text Text)
  pub ephemeral : Bool
  pub description : Text

pub record Instance : Type 0 where
  pub name : Text
  pub description : Text
  pub instance_type : Text
  pub status : Text
  pub project : Text
  pub config : Dict Text Text
