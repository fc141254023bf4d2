-- ===== src/Alert.antt =====
-- The data that a webhook call carries (internal/internal.go).
use alertsnitch.Base.{String, Bool, Time, Labels, List}

-- One alert.
pub record Alert : Type 0 where
  pub status : String
  pub labels : Labels
  pub annotations : Labels
  pub starts_at : Time
  pub ends_at : Time
  pub generator_url : String
  pub fingerprint : String

-- The alerts of one notification, with what they share.
pub record AlertGroup : Type 0 where
  pub version : String
  pub group_key : String
  pub receiver : String
  pub status : String
  pub alerts : List Alert
  pub group_labels : Labels
  pub common_labels : Labels
  pub common_annotations : Labels
  pub external_url : String

-- The state of a backend as a probe reports it.
pub record Health : Type 0 where
  pub ready : Bool
  pub healthy : Bool
  pub detail : String
