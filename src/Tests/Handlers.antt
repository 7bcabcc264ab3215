-- ===== src/Tests/Handlers.antt =====
-- The handlers at concrete requests.
use ytshare.Base.{◌≡◌, refl, false, ◌&&◌, [], ◌∷◌, leb, ltb}
use ytshare.Pages.{error, submit_share, submit_sign_in, submit_sign_up}
use ytshare.Backend.Accounts.{sign_up, sign_in}
use ytshare.Backend.Videos.Service.{new_service, share}
use ytshare.Backend.Handlers.{SignInRequest, post_share, post_sign_up, post_sign_in}
use ytshare.Backend.Handlers.Told.{
  Axios, AxiosLaws, received, valid, share_told, sign_up_told, sign_in_told, posts-told,
}
use ytshare.Tests.Codec.{codec}
use ytshare.Tests.Pages.{visitor}
use ytshare.Tests.Videos.{go, req}
use ytshare.Tests.Videos as Shares
use ytshare.Tests.Accounts.{lib, cfg, alice_new, calls}

abbrev axios : Axios
axios = record {
  accepts = λ status. leb 200 status && ltb status 300;
  session_of = λ response. record {
    user = record { id = response.user_id; email = response.user_email; name = response.user_name };
    access_token = response.access_token;
    refresh_token = response.refresh_token;
    expires_at = "2026-01-01";
  };
  video_of = λ view. record {
    id = view.id;
    youtube_id = view.youtube_id;
    url = view.url;
    title = view.title;
    description = view.description;
    thumbnail_url = view.thumbnail_url;
    shared_at = "2026-01-01";
    shared_by = record {
      id = view.shared_by.id;
      name = view.shared_by.name;
      email = view.shared_by.email;
    };
  };
}

laws : AxiosLaws axios
laws = λ status. refl

abbrev wrong : SignInRequest
wrong = record { email = "a@b.c"; password = "wrong" }

-- Nobody has signed up yet.
refused_login :
    (submit_sign_in codec
      (received axios axios.session_of (post_sign_in lib cfg false 1 (valid wrong) []).1)
      visitor).toasts
    ≡ error "toast.invalidCredentials" ∷ []
unfolding post_sign_in sign_in submit_sign_in
refused_login = refl

posts-told_example :
    let shared_now = post_share go Shares.calls (valid req) new_service in
    let signed_up = post_sign_up lib cfg calls (valid alice_new) [] in
    let signed_in = post_sign_in lib cfg false 1 (valid wrong) [] in
    (shared_now.0 ≡ (share go Shares.calls req new_service).0)
    × (submit_share (received axios axios.video_of shared_now.1) visitor
        ≡ share_told axios (share go Shares.calls req new_service).1 visitor)
    × (signed_up.0 ≡ (sign_up lib cfg calls alice_new []).0)
    × (submit_sign_up codec (received axios axios.session_of signed_up.1) visitor
        ≡ sign_up_told axios codec (sign_up lib cfg calls alice_new []).1 visitor)
    × (signed_in.0 ≡ [])
    × (submit_sign_in codec (received axios axios.session_of signed_in.1) visitor
        ≡ sign_in_told axios codec (sign_in lib cfg false 1 wrong.email wrong.password []) visitor)
posts-told_example =
    posts-told axios laws codec go lib cfg Shares.calls req new_service calls alice_new false 1
      wrong [] visitor
