-- ===== src/Redis.antt =====
-- What the services keep in Redis: the access cache and the profiles (`profile:${userId}`). Expiry
-- is left to the environment.
use express_core.Base.{ℕ, String, Bool, Option, List}
use express_core.Rbac.{Cache}

pub record RoleSummary : Type 0 where
  pub title : String
  pub access : List String

-- ProfileResponse; a date as YYYY-MM-DD.
pub record ProfileResponse : Type 0 where
  pub phone : Option String
  pub birth_date : Option String
  pub gender : Option String
  pub locale : Option String

-- UserProfileData
pub record ProfileData : Type 0 where
  pub id : ℕ
  pub slug : Option String
  pub name : Option String
  pub email : Option String
  pub avatar : Option String
  pub is_email_verified : Bool
  pub role_id : Option ℕ
  pub role : Option RoleSummary
  pub profile : Option ProfileResponse
  pub avatar_url : Option String

pub record Redis : Type 0 where
  pub access : Cache
  pub profiles : ℕ → Option ProfileData
