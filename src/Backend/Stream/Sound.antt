-- ===== src/Backend/Stream/Sound.antt =====
-- Whatever happens, the subscriber goes on where it stands.
use mathlib.Core.List.{append_assoc}
use ytshare.Base.{
  ℕ, ◌<◌, ◌≤◌, ◌+◌, ◌-◌, String, ◌≡◌, refl, sym, ap, ◌∙◌, true, Bool-cases, Option, none, some, ◌⊎◌,
  inl, inr, List, [], ◌∷◌, ◌++◌, append-nil, length, length-append, arith,
}
use ytshare.Backend.Stream.{
  Event, Entry, Json, Redis, Phase, ready, backing_off, returned, blocked, Subscriber, World,
  is_next, entry_of, publish, receive, Happening, published, asks, answers, fails, cancels, asked,
  answered, failed, step, run,
}
use ytshare.Backend.Stream.Placed.{
  RedisLaws, IsSorted, append-IsSorted, behind-latest, IsFrom, grown-IsFrom, read-IsFrom,
}

-- Since a call that is not answered began, the stream has only grown.
abbrev pub IsGrown : List Entry → Phase → Type 0
IsGrown entries (blocked before) = (new : List Entry) × (entries ≡ before ++ new)
IsGrown entries ready = Unit
IsGrown entries backing_off = Unit
IsGrown entries returned = Unit

abbrev pub IsSound : World → Type 0
IsSound w = IsSorted w.entries × IsGrown w.entries w.subscriber.phase

append-IsGrown :
    (entries : List Entry) (phase : Phase) (entry : Entry)
    → IsGrown entries phase
    → IsGrown (entries ++ entry ∷ []) phase
append-IsGrown entries (blocked before) entry (new, whole) =
    (new ++ entry ∷ [], ap (λ l. l ++ entry ∷ []) whole ∙ append_assoc before new (entry ∷ []))
append-IsGrown entries ready entry h = tt
append-IsGrown entries backing_off entry h = tt
append-IsGrown entries returned entry h = tt

asked-IsGrown :
    (entries : List Entry) (phase : Phase)
    → IsGrown entries phase
    → IsGrown entries (asked entries phase)
asked-IsGrown entries (blocked before) h = h
asked-IsGrown entries ready h = ([], sym (append-nil entries))
asked-IsGrown entries backing_off h = ([], sym (append-nil entries))
asked-IsGrown entries returned h = tt

module _ (json : Json) where
  -- Publishing adds an entry, behind all others, or nothing.
  pub publish-cases :
      (id : Option ℕ) (new_id now : String) (evt : Event) (w : World)
      → (publish json id new_id now evt w ≡ w)
        ⊎ ((entry : Entry) × ((is_next entry.id w.entries ≡ true)
              × (publish json id new_id now evt w
                  ≡ record w { entries = w.entries ++ entry ∷ [] })))
  unfolding publish
  publish-cases none new_id now evt w = inl refl
  publish-cases (some id) new_id now evt w = elim (Bool-cases (is_next id w.entries)) [
    | inl next ↦ inr (entry_of json id new_id now evt, (next, rw next refl))
    | inr old ↦ inl (rw old refl)
  ]

  -- What a subscriber stands at, whatever its phase.
  abbrev pub IsReading : List Entry → List Entry → World → Type 0
  IsReading before rest w =
      IsFrom json before rest w.entries w.subscriber.last_id w.subscriber.calls

  module _ (redis : Redis) where
    answered-phase :
        (phase : Phase) (entries : List Entry) (s : Subscriber)
        → s.phase ≡ phase
        → IsGrown entries phase
        → IsGrown entries (answered json redis phase entries s).phase
    answered-phase (blocked before) entries s e h = tt
    answered-phase ready entries s e h = rw e tt
    answered-phase backing_off entries s e h = rw e tt
    answered-phase returned entries s e h = rw e tt

    failed-phase :
        (phase : Phase) (entries : List Entry) (s : Subscriber)
        → s.phase ≡ phase
        → IsGrown entries phase
        → IsGrown entries (failed phase s).phase
    failed-phase (blocked before) entries s e h = tt
    failed-phase ready entries s e h = rw e tt
    failed-phase backing_off entries s e h = rw e tt
    failed-phase returned entries s e h = rw e tt

    pub step-IsSound : (h : Happening) (w : World) → IsSound w → IsSound (step json redis h w)
    unfolding step
    step-IsSound (published id new_id now evt) w (sorted, grown) =
        elim (publish-cases id new_id now evt w) [
          | inl same ↦ rw same (sorted, grown)
          | inr (entry, (next, more)) ↦ rw more (
            append-IsSorted w.entries entry sorted next,
            append-IsGrown w.entries w.subscriber.phase entry grown,
          )
        ]
    step-IsSound asks w (sorted, grown) = (sorted, asked-IsGrown w.entries w.subscriber.phase grown)
    step-IsSound answers w (sorted, grown) =
        (sorted, answered-phase w.subscriber.phase w.entries w.subscriber refl grown)
    step-IsSound fails w (sorted, grown) =
        (sorted, failed-phase w.subscriber.phase w.entries w.subscriber refl grown)
    step-IsSound cancels w (sorted, grown) = (sorted, tt)

    pub run-IsSound : (hs : List Happening) (w : World) → IsSound w → IsSound (run json redis hs w)
    unfolding run
    run-IsSound [] w sound = sound
    run-IsSound (h ∷ hs) w sound = run-IsSound hs (step json redis h w) (step-IsSound h w sound)

    -- An answer to a subscriber that has received before: it reads on, if anything is left.
    pub read_on :
        (laws : RedisLaws redis) (held before rest entries : List Entry) (s : Subscriber)
        → IsSorted entries
        → IsFrom json before rest entries s.last_id s.calls
        → (more : List Entry) × IsFrom json before more entries
            (receive json (redis.xread s.last_id held entries) s).last_id
            (receive json (redis.xread s.last_id held entries) s).calls
          × (length more ≤ length rest - 1)
    read_on laws held before rest entries s sorted f =
        let (more, e) = laws.from_id f.latest.id held entries in
        let left = behind-latest json before rest entries s.last_id s.calls sorted f in
        let msgs : List Entry = redis.xread (some f.latest.id) held entries in
        let whole : msgs ++ more ≡ rest = e ∙ left in
        let lengths : length rest ≡ length msgs + length more =
          ap length (sym whole) ∙ length-append msgs more in
        let moves : 0 < length rest → 0 < length msgs =
          λ h. laws.some_left f.latest.id held entries (rw left h) in
        (
          more,
          simp f.at (read-IsFrom json before rest entries msgs more s f whole),
          less lengths moves,
        )
      where
        less : {a b c : ℕ} → a ≡ b + c → (0 < a → 0 < b) → c ≤ a - 1
        less lengths moves = ground arith

    answered-IsReading :
        (laws : RedisLaws redis) (phase : Phase) (before rest entries : List Entry) (s : Subscriber)
        → IsSorted entries
        → IsFrom json before rest entries s.last_id s.calls
        → (rest' : List Entry) × IsFrom json before rest' entries
            (answered json redis phase entries s).last_id
            (answered json redis phase entries s).calls
    answered-IsReading laws ready before rest entries s sorted f = (rest, f)
    answered-IsReading laws backing_off before rest entries s sorted f = (rest, f)
    answered-IsReading laws returned before rest entries s sorted f = (rest, f)
    answered-IsReading laws (blocked held) before rest entries s sorted f =
        let (more, g, less) = read_on laws held before rest entries s sorted f in (more, g)

    failed-IsReading :
        (phase : Phase) (before rest entries : List Entry) (s : Subscriber)
        → IsFrom json before rest entries s.last_id s.calls
        → IsFrom json before rest entries (failed phase s).last_id (failed phase s).calls
    failed-IsReading ready before rest entries s f = f
    failed-IsReading backing_off before rest entries s f = f
    failed-IsReading returned before rest entries s f = f
    failed-IsReading (blocked held) before rest entries s f = f

    pub step-IsReading :
        (laws : RedisLaws redis) (before rest : List Entry) (h : Happening) (w : World)
        → IsSound w
        → IsReading before rest w
        → (rest' : List Entry) × IsReading before rest' (step json redis h w)
    unfolding step
    step-IsReading laws before rest (published id new_id now evt) w sound f =
        elim (publish-cases id new_id now evt w) [
          | inl same ↦ (rest, rw same f)
          | inr (entry, (next, more)) ↦
              (rest ++ entry ∷ [], rw more (grown-IsFrom json before rest w.entries _ _ entry f))
        ]
    step-IsReading laws before rest asks w sound f = (rest, f)
    step-IsReading laws before rest answers w sound f =
        answered-IsReading laws w.subscriber.phase before rest w.entries w.subscriber sound.0 f
    step-IsReading laws before rest fails w sound f =
        (rest, failed-IsReading w.subscriber.phase before rest w.entries w.subscriber f)
    step-IsReading laws before rest cancels w sound f = (rest, f)

    pub run-IsReading :
        (laws : RedisLaws redis) (before rest : List Entry) (hs : List Happening) (w : World)
        → IsSound w
        → IsReading before rest w
        → (rest' : List Entry) × IsReading before rest' (run json redis hs w)
    unfolding run
    run-IsReading laws before rest [] w sound f = (rest, f)
    run-IsReading laws before rest (h ∷ hs) w sound f =
        let (rest', g) = step-IsReading laws before rest h w sound f in
        run-IsReading laws before rest' hs (step json redis h w) (step-IsSound h w sound) g
