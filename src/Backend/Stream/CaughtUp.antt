-- ===== src/Backend/Stream/CaughtUp.antt =====
-- From the first answer on, the hub is handed every event of the stream, once and in order.
use mathlib.Core.List.{append_assoc}
use ytshare.Base.{
  ℕ, zero, suc, ◌-◌, ◌≤◌, ◌≡◌, refl, sym, ap, ◌∙◌, Bool, true, false, none, is_some, inl, inr, List,
  [], ◌∷◌, ◌++◌, length, length-append, drop, arith,
}
use ytshare.Backend.Stream.{
  Entry, Json, Redis, Phase, ready, backing_off, returned, blocked, World, start, Happening, asks,
  answers, asked, step, run,
}
use ytshare.Backend.Stream.Placed.{RedisLaws, IsSorted, dispatch_all, append-moved}
use ytshare.Backend.Stream.Sound.{IsSound, IsReading, run-IsSound, run-IsReading, read_on}
use ytshare.Backend.Stream.Told.{run-IsTold}

drop-front {ℓ} : {A : Type ℓ} (front rest : List A) → drop (length front) (front ++ rest) ≡ rest
drop-front [] rest = refl
drop-front (x ∷ front) rest = drop-front front rest

-- Enough calls that are answered, one behind the other.
abbrev pub rounds : ℕ → List Happening
rounds zero = []
rounds (suc n) = asks ∷ answers ∷ rounds n

abbrev pub is_running : Phase → Bool
is_running returned = false
is_running ready = true
is_running backing_off = true
is_running (blocked held) = true

module _ (json : Json) (redis : Redis) (laws : RedisLaws redis) where
  asked-blocked :
      (entries : List Entry) (phase : Phase)
      → is_running phase ≡ true
      → (held : List Entry) × (asked entries phase ≡ blocked held)
  asked-blocked entries ready running = (entries, refl)
  asked-blocked entries backing_off running = (entries, refl)
  asked-blocked entries (blocked held) running = (held, refl)
  asked-blocked entries returned running = cc

  -- A world that has caught up to `more`, without a change of the stream.
  abbrev IsFurther : List Entry → ℕ → World → World → Type 0
  IsFurther before n w w' =
      (more : List Entry) × IsReading json before more w'
      × (length more ≤ n)
      × (w'.entries ≡ w.entries)

  round-IsFurther :
      (before rest : List Entry) (w : World)
      → IsSound w
      → is_running w.subscriber.phase ≡ true
      → IsReading json before rest w
      → IsFurther before (length rest - 1) w (run json redis (rounds 1) w)
        × (is_running (run json redis (rounds 1) w).subscriber.phase ≡ true)
  unfolding run step
  round-IsFurther before rest w sound running f =
      let (held, e) = asked-blocked w.entries w.subscriber.phase running in
      let (more, g, less) =
        read_on json redis laws held before rest w.entries
          (record w.subscriber { phase = blocked held }) sound.0 f in
      rw e ((more, g, less, refl), refl)

  rounds-IsFurther :
      (n : ℕ) (before rest : List Entry) (w : World)
      → IsSound w
      → is_running w.subscriber.phase ≡ true
      → IsReading json before rest w
      → IsFurther before (length rest - n) w (run json redis (rounds n) w)
  unfolding run
  rounds-IsFurther zero before rest w sound running f = (rest, f, omega arith, refl)
  rounds-IsFurther (suc n) before rest w sound running f =
      let ((more, g, less, same), runs) = round-IsFurther before rest w sound running f in
      let w' : World = run json redis (rounds 1) w in
      let (last, k, left, same') =
        rounds-IsFurther n before more w' (run-IsSound json redis (rounds 1) w sound) runs g in
      (last, k, omega (arith, less, left), same' ∙ same)

  -- What an IsReading with nothing left has handed on.
  whole-calls :
      (before : List Entry) (w : World)
      → IsReading json before [] w
      → w.subscriber.calls ≡ dispatch_all json (drop (length before) w.entries)
  whole-calls before w f =
      f.handed
      ∙ ap (dispatch_all json) (
          sym (
            ap (drop (length before)) (f.whole ∙ append_assoc before f.got (f.latest ∷ []))
            ∙ drop-front before (f.got ++ f.latest ∷ [])))

  caught_up :
      (before rest : List Entry) (w : World)
      → IsSound w
      → is_running w.subscriber.phase ≡ true
      → IsReading json before rest w
      → (run json redis (rounds (length w.entries)) w).subscriber.calls
        ≡ dispatch_all json (drop (length before) w.entries)
  caught_up before rest w sound running f =
      let (more, g, less, same) =
        rounds-IsFurther (length w.entries) before rest w sound running f in
      let w' : World = run json redis (rounds (length w.entries)) w in
      let nothing : more ≡ [] = empty more (omega (arith, less, rest-short f)) in
      whole-calls before w' (rw nothing at g)
      ∙ ap (λ l. dispatch_all json (drop (length before) l)) same
    where
      empty : (l : List Entry) → length l ≡ 0 → l ≡ []
      empty [] e = refl
      empty (x ∷ l) e = absurd (omega (arith, e))

      rest-short : IsReading json before rest w → length rest ≤ length w.entries
      rest-short f =
          let whole : length w.entries ≡ length ((before ++ f.got) ++ f.latest ∷ rest) =
            ap length f.whole in
          omega (arith, whole, length-append (before ++ f.got) (f.latest ∷ rest))

  -- Let a subscriber that started at a sorted stream have received anything, and then anything else
  -- happen: events are published, calls fail or time out. If it still runs, then when as many of its
  -- calls are answered as the stream has entries, it has called the hub for what it had called it
  -- for before, and for every entry of the stream behind that, each once and in order.
  pub run-catches_up :
      (entries : List Entry) (past future : List Happening)
      → IsSorted entries
      → is_some (run json redis past (start entries)).subscriber.last_id ≡ true
      → is_running (run json redis future (run json redis past (start entries))).subscriber.phase
        ≡ true
      → let w = run json redis past (start entries) in
        let w' = run json redis future w in
        (before : List Entry) × (got : List Entry) × (rest : List Entry) × (w.entries
          ≡ (before ++ got) ++ rest)
        × (w.subscriber.calls ≡ dispatch_all json got)
        × ((run json redis (rounds (length w'.entries)) w').subscriber.calls
            ≡ dispatch_all json (drop (length before) w'.entries))
  run-catches_up entries past future sorted received running =
      let w : World = run json redis past (start entries) in
      let sound : IsSound w = run-IsSound json redis past (start entries) (sorted, tt) in
      elim (run-IsTold json redis laws past (start entries) (sorted, tt) (inl (refl, refl))) [
        | inl (last, calls) ↦ absurd (cc (nothing_received w last received))
        | inr (before, rest, f) ↦
            let (rest', g) = run-IsReading json redis laws before rest future w sound f in
            (
              before,
              f.got ++ f.latest ∷ [],
              rest,
              f.whole ∙ append-moved before f.got f.latest rest,
              f.handed,
              caught_up before rest' (run json redis future w)
                  (run-IsSound json redis future w sound) running g,
            )
      ]
    where
      nothing_received :
          (w : World)
          → w.subscriber.last_id ≡ none
          → is_some w.subscriber.last_id ≡ true
          → true ≡ false
      nothing_received w last received = cc (ap is_some last, received)
