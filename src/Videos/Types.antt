-- ===== src/Videos/Types.antt =====
-- frontend/src/modules/videos/types: the videos that the backend lists.
use ytshare.Base.{ℕ, String, Option, List}

pub record SharedBy : Type 0 where
  pub id : String
  pub name : String
  pub email : String

-- `shared_at` is the text of a date.
pub record Video : Type 0 where
  pub id : String
  pub youtube_id : String
  pub url : String
  pub title : String
  pub description : String
  pub thumbnail_url : String
  pub shared_at : String
  pub shared_by : SharedBy

pub record ShareVideoPayload : Type 0 where
  pub url : String
  pub title : Option String
  pub description : Option String

pub record VideoListResponse : Type 0 where
  pub items : List Video
  pub total : ℕ
