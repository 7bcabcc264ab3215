-- ===== src/Backend/Hub/Inbox.antt =====
-- What the hub keeps, whatever happens: no channel is closed twice, none is sent to behind that, and
-- what a client is given is what is addressed to it.
use ytshare.Base.{
  ℕ, zero, suc, ◌+◌, ◌≤◌, String, ◌≡◌, refl, sym, ap, ◌∙◌, Bool, true, false, Bool-cases, inl, inr,
  some, List, [], ◌∷◌, ◌++◌, append-nil, append_assoc, if◌then◌else◌, ltb, length, drop-append,
  length-append, drop, get_elem?, arith,
}
use ytshare.Backend.Hub.Clients.{Client, Registry, DispatchMsg, dispatch}
use ytshare.Backend.Hub.Index.{held}
use ytshare.Backend.Hub.Sound.{bit, IsSound}
use ytshare.Backend.Hub.Loop.{sent, offer, Effect}
use ytshare.Backend.Hub.Dispatch.{addressed, times, times-addressed, dispatch-Outcome}

-- The payloads of the messages that are addressed to a user.
abbrev pub due : String → List DispatchMsg → List String
due user [] = []
due user (msg ∷ log) = if addressed msg user then msg.payload ∷ due user log else due user log

due-append :
    (user : String) (xs ys : List DispatchMsg) → due user (xs ++ ys) ≡ due user xs ++ due user ys
due-append user [] ys = refl
due-append user (msg ∷ xs) ys = elim (Bool-cases (addressed msg user)) [
  | inl to_it ↦ rw to_it (ap (λ l. msg.payload ∷ l) (due-append user xs ys))
  | inr not_to_it ↦ rw not_to_it (due-append user xs ys)
]

-- What was given to a client, and the part of the messages for it that was not.
pub record Inbox (r : Registry) (stopped : Bool) (log : List DispatchMsg) (c : Client)
    : Type 0 where
  pub gap : List String
  pub told : sent (r.chans c.id) ++ gap ≡ due c.user_id (drop (r.chans c.id).joined log)
  pub since : (r.chans c.id).joined ≤ length log
  pub up_to_date : stopped ≡ false → 1 ≤ held c.id r.by_user → gap ≡ []
  pub live : stopped ≡ false → held c.id r.by_user + bit (r.chans c.id).closed ≡ 1
  pub over : stopped ≡ true → (r.chans c.id).closed ≡ true

-- A change of the registry that gives nothing, and lets nobody in.
pub Inbox-quiet :
    (r r' : Registry) (stopped : Bool) (log : List DispatchMsg) (c : Client)
    → sent (r'.chans c.id) ≡ sent (r.chans c.id)
    → (r'.chans c.id).joined ≡ (r.chans c.id).joined
    → held c.id r'.by_user ≤ held c.id r.by_user
    → (stopped ≡ false
        → held c.id r'.by_user + bit (r'.chans c.id).closed
          ≡ held c.id r.by_user + bit (r.chans c.id).closed)
    → (stopped ≡ true → (r'.chans c.id).closed ≡ (r.chans c.id).closed)
    → Inbox r stopped log c
    → Inbox r' stopped log c
Inbox-quiet r r' stopped log c given joined fewer balance over i = record {
  gap = i.gap;
  told = rw (given, joined) i.told;
  since = rw joined i.since;
  up_to_date = λ running h. i.up_to_date running (omega (arith, h, fewer));
  live = λ running. balance running ∙ i.live running;
  over = λ ended. over ended ∙ i.over ended;
}

nothing_offered :
    (k : ℕ) (payload : String) (extra : List String) → k ≡ 0 → extra ≡ offer k payload → extra ≡ []
nothing_offered k payload extra z p = p ∙ ap (λ n. offer n payload) z

something_offered :
    (k : ℕ) (payload : String) (extra : List String)
    → 1 ≤ k
    → extra ≡ offer k payload
    → extra ≡ payload ∷ []
something_offered zero payload extra h p = absurd (omega (arith, h))
something_offered (suc k) payload extra h p = p

module _ (clients : List Client) (msg : DispatchMsg) (r : Registry) (log : List DispatchMsg)
    (c : Client) (s : IsSound clients r) (known : get_elem? clients c.id ≡ some c)
    (i : Inbox r false log c) where
  abbrev owed : List String
  owed = due c.user_id (drop (r.chans c.id).joined log)

  abbrev news : List String
  news = if addressed msg c.user_id then msg.payload ∷ [] else []

  abbrev behind_effect : Effect msg.payload c.id (times clients msg r c.id) r (dispatch msg r)
  behind_effect = (dispatch-Outcome clients msg r s).effect c.id

  due-news : due c.user_id (drop (r.chans c.id).joined (log ++ msg ∷ [])) ≡ owed ++ news
  due-news =
      ap (due c.user_id) (drop-append (r.chans c.id).joined log (msg ∷ []) i.since)
      ∙ due-append c.user_id (drop (r.chans c.id).joined log) (msg ∷ [])

  behind :
      (gap : List String)
      → (sent (r.chans c.id) ++ behind_effect.extra) ++ gap ≡ owed ++ news
      → (1 ≤ held c.id (dispatch msg r).by_user → gap ≡ [])
      → Inbox (dispatch msg r) false (log ++ msg ∷ []) c
  behind gap told up_to_date =
      let f : Effect msg.payload c.id (times clients msg r c.id) r (dispatch msg r) =
        behind_effect in
      record {
        gap = gap;
        told = rw (f.given, f.same_joined) (told ∙ sym due-news);
        since = omega (arith, i.since, f.same_joined, length-append log (msg ∷ []));
        up_to_date = λ _. up_to_date;
        live = λ running. f.balance ∙ i.live running;
        over = λ ended. absurd (cc (ended));
      }

  pub Inbox-dispatch : Inbox (dispatch msg r) false (log ++ msg ∷ []) c
  Inbox-dispatch =
      let f : Effect msg.payload c.id (times clients msg r c.id) r (dispatch msg r) =
        behind_effect in
      let kept : f.extra ≡ [] → news ≡ [] → sent (r.chans c.id) ++ f.extra ++ i.gap ≡ owed ++ news =
        λ none_given no_news.
          rw (none_given, no_news)
            (ap (λ l. l ++ i.gap) (append-nil (sent (r.chans c.id)))
              ∙ (i.told ∙ sym (append-nil owed))) in
      elim (Bool-cases (addressed msg c.user_id)) [
        | inr not_to_it ↦
            let k : times clients msg r c.id ≡ 0 =
              times-addressed clients msg r c s known ∙ rw not_to_it refl in
            behind i.gap
              (kept (elim f.part [ inl p ↦ p | inr p ↦ nothing_offered _ msg.payload f.extra k p ])
                (rw not_to_it refl))
              (λ h. i.up_to_date refl (omega (arith, h, f.fewer)))
        | inl to_it ↦
            let k : times clients msg r c.id ≡ held c.id r.by_user =
              times-addressed clients msg r c s known ∙ rw to_it refl in
            let has_news : news ≡ msg.payload ∷ [] = rw to_it refl in
            let missed : f.extra ≡ []
                → (1 ≤ held c.id (dispatch msg r).by_user → i.gap ++ msg.payload ∷ [] ≡ [])
                → Inbox (dispatch msg r) false (log ++ msg ∷ []) c =
              λ none_given up_to_date.
                behind (i.gap ++ msg.payload ∷ [])
                  (rw (none_given, has_news)
                    (rw (append-nil (sent (r.chans c.id))) (
                      sym (append_assoc (sent (r.chans c.id)) i.gap (msg.payload ∷ []))
                      ∙ ap (λ l. l ++ msg.payload ∷ []) i.told)))
                  up_to_date in
            elim (Bool-cases (ltb 0 (held c.id r.by_user))) [
              | inl in_set ↦
                  let no_gap : i.gap ≡ [] = i.up_to_date refl (ground arith) in
                  elim f.part [
                    | inl none_given ↦ missed none_given (λ h. absurd (
                        cc (
                          something_offered _ msg.payload f.extra (ground (arith, k)) (f.full h),
                          none_given,
                        )))
                    | inr given ↦
                        behind []
                          (rw
                            (
                              something_offered _ msg.payload f.extra (ground (arith, k)) given,
                              has_news,
                            )
                            (append-nil _
                              ∙ ap (λ l. l ++ msg.payload ∷ [])
                                  (sym (append-nil (sent (r.chans c.id)))
                                    ∙ (ap (λ l. sent (r.chans c.id) ++ l) (sym no_gap) ∙ i.told))))
                          (λ _. refl)
                  ]
              | inr left ↦
                  missed
                    (elim f.part [
                      | inl p ↦ p
                      | inr p ↦ nothing_offered _ msg.payload f.extra (ground (arith, k)) p
                    ])
                    (λ h. absurd (ground (arith, f.fewer)))
            ]
      ]
