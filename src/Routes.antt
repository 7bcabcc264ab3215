-- ===== src/Routes.antt =====
-- frontend/src/routes: the pages, their guards and layouts. The router calls `beforeLoad` of the
-- routes above a page, and starts again where one of them redirects to; that is bounded by fuel
-- here, of which two are enough.
pub mod Landing
use ytshare.Base.{ℕ, zero, suc, String, Bool, Option, none, some, if◌then◌else◌, ◌==◌}
use ytshare.Auth.Store.{AuthState}
use ytshare.Auth.Guards.{Guard, passes, redirect, require_auth, redirect_if_authenticated}

-- `/`, `/share`, `/signin` and `/signup`
pub data Page : Type 0 where
  home share signin signup : Page

abbrev pub path_of : Page → String
path_of home = "/"
path_of share = "/share"
path_of signin = "/signin"
path_of signup = "/signup"

abbrev pub page_at : String → Option Page
page_at path =
    if path == "/"
    then some home
    else (if path == "/share"
        then some share
        else (if path == "/signin"
            then some signin
            else (if path == "/signup" then some signup else none)))

-- `_private` asks nothing, `_private/_auth` for a session, `_public` for none.
unfoldable pub before_load : Page → AuthState → Guard
before_load home a = passes
before_load share a = require_auth a
before_load signin a = redirect_if_authenticated a
before_load signup a = redirect_if_authenticated a

-- What the browser shows; `lost` is the end of the fuel.
pub data Loaded : Type 0 where
  shown : Page → Loaded
  not_found : Loaded
  lost : Loaded

abbrev pub guarded : Page → Guard → (String → Loaded) → Loaded
guarded page passes next = shown page
guarded page (redirect to) next = next to

unfoldable pub found : AuthState → Option Page → (String → Loaded) → Loaded
found a none next = not_found
found a (some page) next = guarded page (before_load page a) next

unfoldable pub load : ℕ → AuthState → String → Loaded
unfolding found
load zero a path = lost
load (suc n) a path = found a (page_at path) (λ to. load n a to)

-- `AuthLayout` around `/share`: where it navigates to when it renders.
unfoldable pub layout : Page → AuthState → Option String
layout share a = if a.is_authenticated then none else some "/"
layout _ a = none

-- What is shown once the page has rendered with a new state.
unfoldable pub rendered : Page → AuthState → Loaded
rendered page a = elim (layout page a) [ none ↦ shown page | some to ↦ load 2 a to ]
