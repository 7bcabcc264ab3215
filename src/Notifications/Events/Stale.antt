-- ===== src/Notifications/Events/Stale.antt =====
-- Which cached queries the events mark as stale.
use ytshare.Base.{
  ℕ, String, ◌≡◌, refl, ◌∙◌, Bool, true, false, ◌||◌, Option, List, [], ◌∷◌, ◌++◌, ◌==◌, truthy,
  arith, Bool-cases, inl, inr,
}
use ytshare.Shared.Query.{QueryKey, KeyMatch, selects}
use ytshare.Shared.Query.Selects.{
  selects-append, selects-append_covering, covers_not, covers_prefix,
}
use ytshare.Videos.Keys.{videos_all, videos_list}
use ytshare.Notifications.Types.{NotificationEvent}
use ytshare.Notifications.Dedup.{remember_seen}
use ytshare.Notifications.Events.{
  Client, is_own, announce, save_last_event_id, handle_new, handle_event, handle_all,
  unread_query_key, feed_filter, feed_query_key,
}
use ytshare.Notifications.Events.Rule.{handle_event_rule}
use ytshare.Notifications.Events.Ideal.{is_shown}

invalidated_by_event :
    (me : Option String) (evt : NotificationEvent) (c : Client)
    → truthy evt.id ≡ true
    → (remember_seen c.seen evt.id).1 ≡ true
    → is_shown me evt ≡ true
    → (handle_event me evt c).queries.invalidated
      ≡ (c.queries.invalidated ++ videos_all ∷ []) ++ feed_filter ∷ []
unfolding handle_event handle_new announce save_last_event_id
invalidated_by_event me evt c named new shown = elim (Bool-cases (evt.type == "video_shared")) [
  | inr other ↦ absurd (ground arith)
  | inl video ↦ elim (Bool-cases (is_own me evt.payload)) [
    | inl own ↦ absurd (ground arith)
    | inr foreign ↦ rw (named, new, video, foreign) refl
  ]
]

module _ (m : KeyMatch) where
  or_false : (b : Bool) → (b || false || false) ≡ b
  or_false b = ground arith

  videos_skip_unread : m.covers videos_all unread_query_key ≡ false
  videos_skip_unread = covers_not m ("videos" ∷ []) unread_query_key (λ rest e. cc)

  feed_skips_unread : m.covers feed_filter unread_query_key ≡ false
  feed_skips_unread = covers_not m ("notifications" ∷ "feed" ∷ []) unread_query_key (λ rest e. cc)

  announce_skips_unread :
      (old : List QueryKey)
      → selects m ((old ++ videos_all ∷ []) ++ feed_filter ∷ []) unread_query_key
        ≡ selects m old unread_query_key
  unfolding selects
  announce_skips_unread old =
      rw (selects-append m (old ++ videos_all ∷ []) (feed_filter ∷ []) unread_query_key) (
        rw (selects-append m old (videos_all ∷ []) unread_query_key)
          (rw (videos_skip_unread, feed_skips_unread) (or_false _)))

  handle_event-unread_fresh :
      (me : Option String) (evt : NotificationEvent) (c : Client)
      → selects m (handle_event me evt c).queries.invalidated unread_query_key
        ≡ selects m c.queries.invalidated unread_query_key
  unfolding announce save_last_event_id
  handle_event-unread_fresh me evt c =
      handle_event_rule
        (λ d.
          selects m d.queries.invalidated unread_query_key
          ≡ selects m c.queries.invalidated unread_query_key)
        me evt c (λ s. refl) (λ s. refl) (λ s foreign. announce_skips_unread c.queries.invalidated)

  -- No events mark the unread count as stale: its query is selected for a new fetch after them
  -- exactly if it was before.
  pub handle_all-unread_fresh :
      (me : Option String) (events : List NotificationEvent) (c : Client)
      → selects m (handle_all me events c).queries.invalidated unread_query_key
        ≡ selects m c.queries.invalidated unread_query_key
  unfolding handle_all
  handle_all-unread_fresh me [] c = refl
  handle_all-unread_fresh me (evt ∷ events) c =
      handle_all-unread_fresh me events (handle_event me evt c) ∙ handle_event-unread_fresh me evt c

  selects-append_videos :
      (old : List QueryKey) (key : QueryKey)
      → m.covers videos_all key ≡ true
      → selects m ((old ++ videos_all ∷ []) ++ feed_filter ∷ []) key ≡ true
  unfolding selects
  selects-append_videos old key h = ground (
    arith,
    selects-append m (old ++ videos_all ∷ []) (feed_filter ∷ []) key,
    selects-append m old (videos_all ∷ []) key,
  )

  -- A new event that is announced marks every page of the video list, and the feed, as stale.
  pub handle_event-lists_stale :
      (me : Option String) (evt : NotificationEvent) (c : Client) (limit offset : ℕ)
      → truthy evt.id ≡ true
      → (remember_seen c.seen evt.id).1 ≡ true
      → is_shown me evt ≡ true
      → (selects m (handle_event me evt c).queries.invalidated (videos_list limit offset) ≡ true)
        × (selects m (handle_event me evt c).queries.invalidated (feed_query_key limit) ≡ true)
  handle_event-lists_stale me evt c limit offset named new shown =
      rw (invalidated_by_event me evt c named new shown) (
        selects-append_videos _ (videos_list limit offset) (covers_prefix m ("videos" ∷ []) _),
        selects-append_covering m _ feed_filter (feed_query_key limit)
            (covers_prefix m ("notifications" ∷ "feed" ∷ []) _),
      )
