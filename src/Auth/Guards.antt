-- ===== src/Auth/Guards.antt =====
-- frontend/src/modules/auth/utils/auth-guard.utils.ts: what a route asks before it loads.
use ytshare.Base.{String, if◌then◌else◌}
use ytshare.Auth.Store.{AuthState}

-- `throw redirect({ to })`, or nothing.
pub data Guard : Type 0 where
  passes : Guard
  redirect : (to : String) → Guard

unfoldable pub require_auth : AuthState → Guard
require_auth a = if a.is_authenticated then passes else redirect "/signin"

unfoldable pub redirect_if_authenticated : AuthState → Guard
redirect_if_authenticated a = if a.is_authenticated then redirect "/" else passes
