-- ===== src/Auth/Types.antt =====
-- frontend/src/modules/auth/types
use ytshare.Base.{String}

pub record SessionUser : Type 0 where
  pub id : String
  pub email : String
  pub name : String

pub record AuthSession : Type 0 where
  pub user : SessionUser
  pub access_token : String
  pub refresh_token : String
  pub expires_at : String

pub record SignInPayload : Type 0 where
  pub email : String
  pub password : String

pub record SignUpPayload : Type 0 where
  pub email : String
  pub name : String
  pub password : String
