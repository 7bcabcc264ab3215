-- ===== src/Routes/Landing.antt =====
-- Where a navigation ends.
use ytshare.Base.{
  ℕ, zero, suc, String, ◌≡◌, refl, sym, ap, Bool, true, false, Option, none, some, arith,
}
use ytshare.Auth.Store.{AuthState, Auth, sign_out}
use ytshare.Auth.Guards.{Guard, passes, redirect, require_auth, redirect_if_authenticated}
use ytshare.Routes.{
  guarded, found, Page, home, share, signin, signup, path_of, page_at, before_load, Loaded, shown,
  load, layout, rendered,
}

-- Where a page leads by its guards, said at once.
abbrev pub landing : Page → Bool → Page
landing home _ = home
landing share true = share
landing share false = signin
landing signin true = home
landing signin false = signin
landing signup true = home
landing signup false = signup

-- With fuel for one redirect, or more, every navigation to a page ends: for the share form without
-- a session at the sign-in form, for the forms of signing in and up with a session at the home
-- page, and otherwise at the page itself.
pub load-landing :
    (n : ℕ) (page : Page) (a : AuthState)
    → load (suc (suc n)) a (path_of page) ≡ shown (landing page a.is_authenticated)
unfolding load found before_load require_auth redirect_if_authenticated
load-landing n home a = refl
load-landing n share a = ground arith
load-landing n signin a = ground arith
load-landing n signup a = ground arith

-- The share form is for those who are signed in, the forms of signing in and up for those who are
-- not.
abbrev pub IsAllowed : Page → AuthState → Type 0
IsAllowed home a = Unit
IsAllowed share a = a.is_authenticated ≡ true
IsAllowed signin a = a.is_authenticated ≡ false
IsAllowed signup a = a.is_authenticated ≡ false

page_of : Loaded → Page
page_of (shown page) = page
page_of _ = home

passes-IsAllowed : (page : Page) (a : AuthState) → before_load page a ≡ passes → IsAllowed page a
unfolding before_load require_auth redirect_if_authenticated
passes-IsAllowed home a e = tt
passes-IsAllowed share a e = ground arith
passes-IsAllowed signin a e = ground arith
passes-IsAllowed signup a e = ground arith

guarded-IsAllowed :
    (opened page : Page) (a : AuthState) (guard : Guard) (next : String → Loaded)
    → before_load opened a ≡ guard
    → ((to : String) → next to ≡ shown page → IsAllowed page a)
    → guarded opened guard next ≡ shown page
    → IsAllowed page a
unfolding page_of
guarded-IsAllowed opened page a passes next b ih e =
    rw (ap page_of (sym e)) (passes-IsAllowed opened a b)
guarded-IsAllowed opened page a (redirect to) next b ih e = ih to e

found-IsAllowed :
    (opened : Option Page) (page : Page) (a : AuthState) (next : String → Loaded)
    → ((to : String) → next to ≡ shown page → IsAllowed page a)
    → found a opened next ≡ shown page
    → IsAllowed page a
unfolding found
found-IsAllowed none page a next ih e = cc
found-IsAllowed (some opened) page a next ih e =
    guarded-IsAllowed opened page a (before_load opened a) next refl ih e

-- Whatever the address and the fuel, a page that is shown is one that the user may see.
pub load-IsAllowed :
    (n : ℕ) (path : String) (page : Page) (a : AuthState)
    → load n a path ≡ shown page
    → IsAllowed page a
unfolding load
load-IsAllowed zero path page a e = cc
load-IsAllowed (suc n) path page a e =
    found-IsAllowed (page_at path) page a (λ to. load n a to) (λ to. load-IsAllowed n to page a) e

-- Signing out leaves no page that asks for a session: a user who is signed in, and sees a page that
-- is allowed, sees the home page behind it.
pub rendered-sign_out :
    (opened : Page) (a : Auth)
    → IsAllowed opened a.state
    → a.state.is_authenticated ≡ true
    → rendered opened (sign_out a).state ≡ shown home
unfolding rendered layout load found before_load sign_out
rendered-sign_out home a h e = refl
rendered-sign_out share a h e = refl
rendered-sign_out signin a h e = absurd (ground arith)
rendered-sign_out signup a h e = absurd (ground arith)
