-- ===== src/Tests/Screens.antt =====
-- The screens of a visitor and of a user.
use ytshare.Base.{◌≡◌, refl, false, true, some, none, [], All}
use ytshare.Routes.{share}
use ytshare.Screens.{Desk, screen_of}
use ytshare.Screens.Locale.{vi, look_up, by_default}
use ytshare.Screens.Texts.{texts_of, shared_ago}
use ytshare.Screens.Worded.{IsWorded}
use ytshare.Screens.Translated.{screens-IsWorded}
use ytshare.Screens.Links.{IsLive, links_of, links-IsLive}
use ytshare.Tests.Codec.{codec}
use ytshare.Tests.Samples.{alice_session}
use ytshare.Tests.Pages.{alice_state, any_text, alice_password, alice_new, a_share, form_library}

abbrev desk : Desk
desk = record {
  codec = codec;
  upper = λ s. s;
  parse_date = λ s. some 0;
  now = 0;
  session = some alice_session;
  unread = 3;
  bar = record { notif_open = true; marked = 0 };
  feed = record { is_loading = false; is_fetching = true; pages = [] };
  expanded = true;
  listed = none;
  is_loading = false;
  is_email = any_text;
  is_url = any_text;
  lib = form_library;
  is_pending = false;
  sign_in_values = alice_password;
  sign_up_values = alice_new;
  share_values = a_share;
}

links-IsLive_example : All (IsLive alice_state) (links_of (screen_of desk share))
links-IsLive_example = links-IsLive desk share alice_state refl refl

screens-IsWorded_example : All (IsWorded vi) (texts_of (screen_of desk share))
screens-IsWorded_example = screens-IsWorded vi desk share

-- The age of a video is not translated.
ago_untranslated : look_up vi shared_ago ≡ by_default
ago_untranslated = refl
