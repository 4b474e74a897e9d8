-- ===== src/Client/Notifications/Stuck.antt =====
-- A toast that is dismissed while it is leaving: `dismiss` of client/src/app/core/services/notification.service.ts.
use bid_battle.Prelude.{
  find_where-delete_other, [], find-delete_none, List, find_where-other, ◌==◌, find_where-delete,
}
use bid_battle.Client.Notifications.{
  exit_animation_duration, set_leaving, cancel_removal, remove_notification, dismiss, of_id, Timer,
  with_id, Notification, Toasts,
}
use bid_battle.Prelude.{refl, ◌∷◌, arith, true, false, none, ◌≤◌, some, ◌≡◌, find_where, ◌+◌, ℕ}

-- What happens with no call of the service: timers that are due fire, and time passes.
pub data Tick : Toasts → Toasts → Type 0 where
  elapse : (d : ℕ) (s : Toasts) → Tick s (record s { now = s.now + d })
  time_out :
      (t : Timer) (s : Toasts)
      → find_where (of_id t.id) s.timers ≡ some t
      → t.due ≤ s.now
      → Tick s (dismiss t.id s)
  removal :
      (t : Timer) (s : Toasts)
      → find_where (of_id t.id) s.removal_timers ≡ some t
      → t.due ≤ s.now
      → Tick s (remove_notification t.id s)

pub data Ticks : Toasts → Toasts → Type 0 where
  none_yet : (s : Toasts) → Ticks s s
  then : {s t u : Toasts} → Tick s t → Ticks t u → Ticks s u

-- The toast is leaving and no timer is left that would take it away.
pub record IsStuck (id : ℕ) (n : Notification) (s : Toasts) : Type 0 where
  pub shown : find_where (with_id id) s.notifications ≡ some n
  pub no_timer : find_where (of_id id) s.timers ≡ none
  pub no_removal : find_where (of_id id) s.removal_timers ≡ none

dismiss_leaving_sticks :
    (id : ℕ) (n : Notification) (s : Toasts)
    → find_where (with_id id) s.notifications ≡ some n
    → n.is_leaving ≡ true
    → IsStuck id n (dismiss id s)
unfolding dismiss cancel_removal
dismiss_leaving_sticks id n s found leaving = record {
  shown = ground (arith, found, leaving);
  no_timer = ground (arith, found, leaving, find_where-delete (of_id id) s.timers);
  no_removal = ground (arith, found, leaving, find_where-delete (of_id id) s.removal_timers);
}

apart_ids : (i j : ℕ) → (i == j) ≡ false → (k : ℕ) → (k == i) ≡ true → (k == j) ≡ false
apart_ids i j h k e = ground arith

absent_id :
    (i j : ℕ) (ts : List Timer) (t : Timer)
    → find_where (of_id i) ts ≡ some t
    → find_where (of_id j) ts ≡ none
    → (i == j) ≡ false
absent_id i j [] t h g = cc
absent_id i j (u ∷ us) t h g = ground (arith, absent_id i j us t)

Tick-IsStuck :
    (id : ℕ) (n : Notification) (s t : Toasts) → Tick s t → IsStuck id n s → IsStuck id n t
unfolding dismiss cancel_removal remove_notification
Tick-IsStuck id n s _ (Tick.elapse d _) h = record {
  shown = h.shown;
  no_timer = h.no_timer;
  no_removal = h.no_removal;
}
Tick-IsStuck id n s _ (Tick.time_out t _ found due) h =
    let apart = absent_id t.id id s.timers t found h.no_timer in
    let others = apart_ids t.id id apart in
    let same =
      find_where-other (with_id id) (with_id t.id) (set_leaving true) s.notifications
        (λ x e. others x.id e) (λ x e. others x.id e) in
    let timers = find-delete_none (of_id id) (of_id t.id) s.timers h.no_timer in
    let removals = find-delete_none (of_id id) (of_id t.id) s.removal_timers h.no_removal in
    record {
      shown = ground (arith, same, h.shown);
      no_timer = ground (arith, timers);
      no_removal = ground (arith, removals, apart);
    }
Tick-IsStuck id n s _ (Tick.removal t _ found due) h =
    let others = apart_ids t.id id (absent_id t.id id s.removal_timers t found h.no_removal) in
    record {
      shown =
          rw
            (find_where-delete_other (with_id id) (with_id t.id) s.notifications
              (λ x e. others x.id e))
            h.shown;
      no_timer = h.no_timer;
      no_removal = find-delete_none (of_id id) (of_id t.id) s.removal_timers h.no_removal;
    }

Ticks-IsStuck :
    (id : ℕ) (n : Notification) (s t : Toasts) → Ticks s t → IsStuck id n s → IsStuck id n t
Ticks-IsStuck id n s _ (Ticks.none_yet _) h = h
Ticks-IsStuck id n _ _ (Ticks.then {s} {t} {u} tick ticks) h =
    Ticks-IsStuck id n t u ticks (Tick-IsStuck id n s t tick h)

-- A toast that is on the screen and leaving is never removed once it is dismissed again: whatever
-- timers fire after that and however much time passes, it is still there, unchanged.
pub dismiss_leaving_stays :
    (id : ℕ) (n : Notification) (s t : Toasts)
    → find_where (with_id id) s.notifications ≡ some n
    → n.is_leaving ≡ true
    → Ticks (dismiss id s) t
    → find_where (with_id id) t.notifications ≡ some n
dismiss_leaving_stays id n s t found leaving ticks =
    (Ticks-IsStuck id n (dismiss id s) t ticks (dismiss_leaving_sticks id n s found leaving)).shown

-- Dismissed once, it is gone when its removal is due.
pub dismiss_once_goes :
    (id : ℕ) (n : Notification) (s : Toasts)
    → find_where (with_id id) s.notifications ≡ some n
    → n.is_leaving ≡ false
    → (t : Timer) × (find_where (of_id id) (dismiss id s).removal_timers ≡ some t)
      × (t.due ≡ s.now + exit_animation_duration)
      × (find_where (with_id id) (remove_notification id (dismiss id s)).notifications ≡ none)
unfolding dismiss cancel_removal remove_notification
dismiss_once_goes id n s found staying =
    let gone = find_where-delete (with_id id) (dismiss id s).notifications in
    (record { id = id; due = s.now + exit_animation_duration }, ground arith, refl, gone)
