-- ===== src/Auth/Services.antt =====
-- frontend/src/modules/auth/services/auth.ts: the answer of the backend as a session.
use ytshare.Base.{String}
use ytshare.Auth.Types.{SessionUser, AuthSession}

pub record ServerAuthResponse : Type 0 where
  pub user : SessionUser
  pub access_token : String
  pub refresh_token : String
  pub expires_at : String

abbrev pub to_session : ServerAuthResponse → AuthSession
to_session answer = record {
  user = answer.user;
  access_token = answer.access_token;
  refresh_token = answer.refresh_token;
  expires_at = answer.expires_at;
}
