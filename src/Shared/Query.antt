-- ===== src/Shared/Query.antt =====
-- The part of the TanStack query cache that the modules touch: the cached unread count, and which
-- queries were invalidated. How a filter key selects queries is the library's: it is an interface.
pub mod Selects
use ytshare.Base.{ℕ, String, ◌≡◌, ◌↔◌, Bool, true, Option, List, [], ◌∷◌, ◌++◌, map, ◌||◌, false}

-- A part of a query key: a text, or an object of numbers such as `{ limit, offset }`.
pub data KeyPart : Type 0 where
  text : String → KeyPart
  params : List (String × ℕ) → KeyPart

abbrev pub QueryKey : Type 0
QueryKey = List KeyPart

pub record QueryClient : Type 0 where
  -- the data cached under the unread-count key
  pub unread : Option ℕ
  -- the filters given to `invalidateQueries`, oldest first
  pub invalidated : List QueryKey

abbrev pub invalidate_queries : QueryKey → QueryClient → QueryClient
invalidate_queries key q = record q { invalidated = q.invalidated ++ key ∷ [] }

abbrev pub texts : List String → QueryKey
texts = map text

-- The documented rule of `invalidateQueries`: a filter of texts selects the keys that begin with it.
pub record KeyMatch : Type 0 where
  pub covers : QueryKey → QueryKey → Bool
  pub covers_iff :
      (filter : List String) (key : QueryKey)
      → (covers (texts filter) key ≡ true) ↔ ((rest : QueryKey) × (key ≡ texts filter ++ rest))

-- Whether one of the filters selects the key.
unfoldable pub selects : KeyMatch → List QueryKey → QueryKey → Bool
selects m [] key = false
selects m (filter ∷ filters) key = m.covers filter key || selects m filters key
