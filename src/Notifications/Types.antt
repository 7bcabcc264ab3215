-- ===== src/Notifications/Types.antt =====
-- frontend/src/modules/notifications/types: what the server sends.
use ytshare.Base.{String, Option, List}

pub record VideoSharedPayload : Type 0 where
  pub video_id : String
  pub youtube_id : String
  pub title : String
  pub thumbnail_url : String
  pub shared_by_id : String
  pub shared_by_name : String

-- `type` is declared as the one literal 'video_shared', but comes off the wire and is tested.
pub record NotificationEvent : Type 0 where
  pub id : String
  pub type : String
  pub timestamp : String
  pub recipient_id : Option String
  pub payload : VideoSharedPayload

pub record NotificationsSinceResponse : Type 0 where
  pub events : List NotificationEvent
