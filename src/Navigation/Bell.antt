-- ===== src/Navigation/Bell.antt =====
-- The bell and the popover that it opens.
use ytshare.Base.{ℕ, suc, ◌≡◌, refl, not, Bool-cases, ◌&&◌, if◌then◌else◌, ltb, inl, inr}
use ytshare.Navigation.{Bar, handle_bell_click, on_mouse_down, click_bell}

-- A click on the bell opens the popover or closes it: the press itself, which the popover sees
-- first, does not close it before. Everything is marked as seen exactly if it opens with a count.
pub click_bell-toggles :
    (unread : ℕ) (bar : Bar)
    → (click_bell unread bar).notif_open ≡ not bar.notif_open
      × ((click_bell unread bar).marked
          ≡ (if not bar.notif_open && ltb 0 unread then suc bar.marked else bar.marked))
unfolding click_bell handle_bell_click on_mouse_down
click_bell-toggles unread bar = elim (Bool-cases bar.notif_open) [
  | inl opened ↦ rw opened (refl, refl)
  | inr closed ↦ rw closed (refl, refl)
]
