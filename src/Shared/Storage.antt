-- ===== src/Shared/Storage.antt =====
-- `window.localStorage`: a map from keys to texts. Writing may throw (quota, private mode), which
-- the flag `writable` stands for; reading and removing do not.
use ytshare.Base.{String, ◌≡◌, refl, Bool, true, Option, none, some, if◌then◌else◌, ◌==◌, arith}

pub record Storage : Type 0 where
  pub entries : String → Option String
  pub writable : Bool

abbrev pub get_item : Storage → String → Option String
get_item st key = st.entries key

abbrev pub update : (String → Option String) → String → Option String → String → Option String
update f key v k = if k == key then v else f k

-- `none` is the exception that `setItem` throws.
unfoldable pub set_item : Storage → String → String → Option Storage
set_item st key v =
    if st.writable then some (record st { entries = update st.entries key (some v) }) else none

unfoldable pub remove_item : Storage → String → Storage
remove_item st key = record st { entries = update st.entries key none }

pub get_item-set_item :
    (st st' : Storage) (key v k : String)
    → set_item st key v ≡ some st'
    → get_item st' k ≡ (if k == key then some v else get_item st k)
unfolding set_item
get_item-set_item st st' key v k e = ground arith

pub set_item-writable :
    (st : Storage) (key v : String)
    → st.writable ≡ true
    → set_item st key v ≡ some (record st { entries = update st.entries key (some v) })
unfolding set_item
set_item-writable st key v w = rw w

pub get_item-remove_item :
    (st : Storage) (key k : String)
    → get_item (remove_item st key) k ≡ (if k == key then none else get_item st k)
unfolding remove_item
get_item-remove_item st key k = refl
