-- ===== src/Notifications/Toast.antt =====
-- NotificationToast.tsx: what a toast shows. Class names and translated texts are left out.
use Prim.Native.String
use ytshare.Base.{String, if◌then◌else◌, truthy}
use ytshare.Shared.Initial.{initial}
use ytshare.Notifications.Types.{VideoSharedPayload}

pub record ToastView : Type 0 where
  pub href : String
  pub initial_letter : String
  pub name : String
  pub title : String
  pub thumbnail : String

abbrev pub toast_view : (String → String) → VideoSharedPayload → ToastView
toast_view upper payload = record {
  href =
      if truthy payload.youtube_id
      then String.◌++◌ "https://www.youtube.com/watch?v=" payload.youtube_id
      else "#";
  initial_letter = initial upper payload.shared_by_name;
  name = payload.shared_by_name;
  title = payload.title;
  thumbnail = payload.thumbnail_url;
}
