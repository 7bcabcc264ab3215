-- ===== src/Backend/Stream/Told.antt =====
-- What the subscriber has handed on from its first answer on.
use ytshare.Base.{◌≡◌, refl, sym, ap, ◌∙◌, none, ◌⊎◌, inl, inr, List, [], ◌∷◌, ◌++◌, append-nil}
use ytshare.Backend.Stream.{
  Entry, Json, Redis, Phase, ready, backing_off, returned, blocked, Subscriber, World, start,
  receive, Happening, published, asks, answers, fails, cancels, answered, failed, step, run,
}
use ytshare.Backend.Stream.Placed.{RedisLaws, IsSorted, dispatch_all, receive-IsFrom, append-moved}
use ytshare.Backend.Stream.Sound.{
  IsSound, IsGrown, IsReading, publish-cases, step-IsSound, step-IsReading,
}

module _ (json : Json) (redis : Redis) (laws : RedisLaws redis) where
  -- The subscriber has received nothing, or stands somewhere in the stream.
  abbrev pub IsTold : World → Type 0
  IsTold w =
      ((w.subscriber.last_id ≡ none) × (w.subscriber.calls ≡ []))
      ⊎ ((before : List Entry) × (rest : List Entry) × IsReading json before rest w)

  first-IsTold :
      (held new entries msgs more : List Entry) (s : Subscriber)
      → entries ≡ held ++ new
      → msgs ++ more ≡ new
      → s.last_id ≡ none
      → s.calls ≡ []
      → IsTold (record {
        entries = entries;
        subscriber = record (receive json msgs s) { phase = ready };
      })
  first-IsTold held new entries [] more s whole e last calls = inl (last, calls)
  first-IsTold held new entries (first ∷ msgs) more s whole e last calls = inr (
    held,
    more,
    receive-IsFrom json held [] more first msgs entries s
        (whole
          ∙ ap (λ l. held ++ l) (sym e)
          ∙ ap (λ l. l ++ first ∷ (msgs ++ more)) (sym (append-nil held)))
        calls,
  )

  answered-IsTold :
      (phase : Phase) (entries : List Entry) (s : Subscriber)
      → IsGrown entries phase
      → s.last_id ≡ none
      → s.calls ≡ []
      → IsTold (record { entries = entries; subscriber = answered json redis phase entries s })
  answered-IsTold ready entries s grown last calls = inl (last, calls)
  answered-IsTold backing_off entries s grown last calls = inl (last, calls)
  answered-IsTold returned entries s grown last calls = inl (last, calls)
  answered-IsTold (blocked held) entries s (new, whole) last calls =
      let (more, e) = laws.from_new held new in
      simp last (
        first-IsTold held new entries (redis.xread none held entries) more s whole (rw whole e) last
          calls)

  failed-IsTold :
      (phase : Phase) (entries : List Entry) (s : Subscriber)
      → s.last_id ≡ none
      → s.calls ≡ []
      → IsTold (record { entries = entries; subscriber = failed phase s })
  failed-IsTold ready entries s last calls = inl (last, calls)
  failed-IsTold backing_off entries s last calls = inl (last, calls)
  failed-IsTold returned entries s last calls = inl (last, calls)
  failed-IsTold (blocked held) entries s last calls = inl (last, calls)

  fresh-IsTold :
      (h : Happening) (w : World)
      → IsSound w
      → w.subscriber.last_id ≡ none
      → w.subscriber.calls ≡ []
      → IsTold (step json redis h w)
  unfolding step
  fresh-IsTold (published id new_id now evt) w sound last calls =
      elim (publish-cases json id new_id now evt w) [
        | inl same ↦ inl (rw same (last, calls))
        | inr (entry, (next, more)) ↦ inl (rw more (last, calls))
      ]
  fresh-IsTold asks w sound last calls = inl (last, calls)
  fresh-IsTold answers w sound last calls =
      answered-IsTold w.subscriber.phase w.entries w.subscriber sound.1 last calls
  fresh-IsTold fails w sound last calls =
      failed-IsTold w.subscriber.phase w.entries w.subscriber last calls
  fresh-IsTold cancels w sound last calls = inl (last, calls)

  pub run-IsTold :
      (hs : List Happening) (w : World) → IsSound w → IsTold w → IsTold (run json redis hs w)
  unfolding run
  run-IsTold [] w sound told = told
  run-IsTold (h ∷ hs) w sound told =
      run-IsTold hs (step json redis h w) (step-IsSound json redis h w sound) (elim told [
        | inl (last, calls) ↦ fresh-IsTold h w sound last calls
        | inr (before, rest, f) ↦
            let (rest', g) = step-IsReading json redis laws before rest h w sound f in
            inr (before, rest', g)
      ])

  -- Whatever happens at a subscriber that starts at a sorted stream: what it has called the hub for is
  -- the entries from some place of the stream on up to another, each once and in the order of the
  -- stream.
  pub run-hands_on :
      (entries : List Entry) (hs : List Happening)
      → IsSorted entries
      → (before : List Entry) × (got : List Entry) × (rest : List Entry) × ((run json redis hs
            (start entries)).entries
          ≡ (before ++ got) ++ rest)
        × ((run json redis hs (start entries)).subscriber.calls ≡ dispatch_all json got)
  run-hands_on entries hs sorted =
      elim (run-IsTold hs (start entries) (sorted, tt) (inl (refl, refl))) [
        | inl (last, calls) ↦ ([], [], (run json redis hs (start entries)).entries, refl, calls)
        | inr (before, rest, f) ↦ (
          before,
          f.got ++ f.latest ∷ [],
          rest,
          f.whole ∙ append-moved before f.got f.latest rest,
          f.handed,
        )
      ]
