-- ===== src/Tests/Pages.antt =====
-- Navigation, the forms, and their submission.
use ytshare.Base.{String, ◌≡◌, refl, Bool, true, false, none, some, []}
use ytshare.Shared.Text.{text_length}
use ytshare.Shared.Storage.{Storage}
use ytshare.Auth.Session.{with_session}
use ytshare.Auth.Types.{SignInPayload, SignUpPayload}
use ytshare.Auth.Store.{Auth, AuthState}
use ytshare.Auth.Services.{ServerAuthResponse}
use ytshare.Routes.{share, load, shown}
use ytshare.Routes.Landing.{landing, load-landing}
use ytshare.Videos.Types.{Video, ShareVideoPayload}
use ytshare.Pages.{Browser, axios_error, Result, ok, failed, submit_sign_in, submit_sign_up}
use ytshare.Pages.Outcomes.{IsEntered, IsRefused, submit-IsEntered, submit-IsRefused}
use ytshare.Forms.{share_issues}
use ytshare.Forms.Fields.{FormLibrary, FormLibraryLaws, is_reported, is_none}
use ytshare.Forms.Views.{FormContext, sign_in_form, sign_up_form, share_video_form}
use ytshare.Forms.Views.Marked.{any_marked, IsMarked, forms-IsMarked}
use ytshare.Tests.Samples.{alice, alice_session, empty_storage, no_queries}
use ytshare.Tests.Codec.{codec}

abbrev nobody : AuthState
nobody = record { session = none; is_authenticated = false }

abbrev pub alice_state : AuthState
alice_state = record { session = some alice_session; is_authenticated = true }

load-landing_example : load 2 nobody "/share" ≡ shown (landing share false)
load-landing_example = load-landing 0 share nobody

abbrev alice_in : Auth
alice_in = record { state = alice_state; window = some empty_storage }

abbrev pub visitor : Browser
visitor = record {
  auth = record { state = nobody; window = some empty_storage };
  queries = no_queries;
  toasts = [];
  path = "/signin";
}

abbrev welcome : ServerAuthResponse
welcome = record {
  user = alice;
  access_token = "a";
  refresh_token = "r";
  expires_at = "2099-01-01";
}

submit-IsEntered_example :
    IsEntered codec welcome visitor (submit_sign_in codec (ok welcome) visitor)
    × IsEntered codec welcome visitor (submit_sign_up codec (ok welcome) visitor)
submit-IsEntered_example = submit-IsEntered codec welcome empty_storage visitor refl refl

abbrev bad_password : Result ServerAuthResponse
bad_password = failed (axios_error (some 401))

-- Alice has signed in in another tab, after this one was loaded.
abbrev alice_storage : Storage
alice_storage = with_session codec alice_session empty_storage

abbrev stale : Browser
stale = record visitor { auth = record { state = nobody; window = some alice_storage } }

submit-IsRefused_example :
    IsRefused codec bad_password stale (submit_sign_in codec bad_password stale)
    × IsRefused codec bad_password stale (submit_sign_up codec bad_password stale)
submit-IsRefused_example = submit-IsRefused codec bad_password alice_storage stale refl refl tt

abbrev twice : Result Video
twice = failed (axios_error (some 409))

-- Stand-ins for zod's tests.
abbrev pub any_text : String → Bool
any_text text = true

abbrev pub alice_password : SignInPayload
alice_password = record { email = "a@b.c"; password = "secret" }

abbrev pub alice_new : SignUpPayload
alice_new = record { email = "a@b.c"; name = "Alice"; password = "secret" }

abbrev pub a_share : ShareVideoPayload
a_share = record { url = "https://youtu.be/y"; title = none; description = some "" }

-- A library of forms as react-hook-form documents it.
abbrev pub form_library : FormLibrary
form_library = record {
  field_state = λ issues name value. record {
    value = value;
    invalid = is_reported name issues;
    message = none;
  };
  submits = is_none;
}

form_library_laws : FormLibraryLaws form_library
form_library_laws = record { invalid_iff = λ issues name value. refl; submits_iff = λ issues. refl }

abbrev form_context : FormContext
form_context = record {
  t = λ key. key;
  is_email = any_text;
  is_url = any_text;
  lib = form_library;
  is_loading = false;
}

abbrev no_url : ShareVideoPayload
no_url = record { url = ""; title = none; description = none }

no_url_marked : any_marked (share_video_form form_context no_url).fields ≡ true
unfolding share_video_form share_issues text_length
no_url_marked = refl

forms-IsMarked_example :
    IsMarked alice_password (sign_in_form form_context alice_password)
    × IsMarked alice_new (sign_up_form form_context alice_new)
    × IsMarked no_url (share_video_form form_context no_url)
forms-IsMarked_example =
    forms-IsMarked form_context form_library_laws alice_password alice_new no_url
