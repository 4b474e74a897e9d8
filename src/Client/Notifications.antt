-- ===== src/Client/Notifications.antt =====
-- client/src/app/core/services/notification.service.ts. A timer is an id and the time when it is due;
-- `clearTimeout` takes it away. The id that `randomUUID` draws is an argument, and `translate` stands
-- for `selectTranslate`, which answers at once.
pub mod Keys
pub mod Shown
pub mod Stuck
use bid_battle.Prelude.{
  [], ◌-◌, ◌∷◌, length, none, ◌++◌, ◌+◌, drop, false, some, true, update_where, ◌&&◌, ◌==◌, Bool,
  List, Option, String, delete_where, find_where, if◌then◌else◌, ℕ,
}
use text.Mathlib.Text.{◌==◌ as str_eq}

pub data NotificationType : Type 0 where
  success error warning info : NotificationType

pub record Notification : Type 0 where
  pub id : ℕ
  pub message : String
  pub kind : NotificationType
  pub duration : ℕ
  pub is_leaving : Bool

pub record Timer : Type 0 where
  pub id : ℕ
  pub due : ℕ

pub record Toasts : Type 0 where
  pub notifications : List Notification
  -- the timers of the automatic dismissals, and those of the removals after the exit animation
  pub timers : List Timer
  pub removal_timers : List Timer
  pub now : ℕ

abbrev pub max_notifications : ℕ
max_notifications = 5

abbrev pub exit_animation_duration : ℕ
exit_animation_duration = 240

abbrev pub same_kind : NotificationType → NotificationType → Bool
same_kind NotificationType.success NotificationType.success = true
same_kind NotificationType.error NotificationType.error = true
same_kind NotificationType.warning NotificationType.warning = true
same_kind NotificationType.info NotificationType.info = true
same_kind _ _ = false

abbrev pub with_id : ℕ → Notification → Bool
with_id id n = n.id == id

abbrev pub of_id : ℕ → Timer → Bool
of_id id t = t.id == id

abbrev pub says : String → NotificationType → Notification → Bool
says message kind n = str_eq n.message message && same_kind n.kind kind

abbrev pub set_leaving : Bool → Notification → Notification
set_leaving leaving n = record n { is_leaving = leaving }

unfoldable pub cancel_removal : ℕ → Toasts → Toasts
cancel_removal id s = record s { removal_timers = delete_where (of_id id) s.removal_timers }

-- `clearTimeout` of the automatic dismissal
abbrev pub clear_timer : ℕ → Toasts → Toasts
clear_timer id s = record s { timers = delete_where (of_id id) s.timers }

abbrev leave : ℕ → Option Notification → Toasts → Toasts
leave id none s = s
leave id (some n) s = if n.is_leaving then s else record s {
  notifications = update_where (with_id id) (set_leaving true) s.notifications;
  removal_timers = record { id = id; due = s.now + exit_animation_duration } ∷ s.removal_timers;
}

unfoldable pub dismiss : ℕ → Toasts → Toasts
dismiss id s =
    leave id (find_where (with_id id) s.notifications) (cancel_removal id (clear_timer id s))

unfoldable pub remove_notification : ℕ → Toasts → Toasts
remove_notification id s = record s {
  notifications = delete_where (with_id id) s.notifications;
  removal_timers = delete_where (of_id id) s.removal_timers;
}

-- a duration that is not positive dismisses nothing
unfoldable pub schedule_auto_dismiss : ℕ → ℕ → Toasts → Toasts
schedule_auto_dismiss id duration s =
    if duration == 0
    then s
    else record s { timers = record { id = id; due = s.now + duration } ∷ s.timers }

unfoldable pub reset_timer : ℕ → ℕ → Toasts → Toasts
reset_timer id duration s = schedule_auto_dismiss id duration (clear_timer id s)

-- `updated.slice(-MAX_NOTIFICATIONS)` where there are more
abbrev pub keep_last : List Notification → List Notification
keep_last ns = drop (length ns - max_notifications) ns

abbrev revive : Notification → Toasts → Toasts
revive n s =
    if n.is_leaving
    then cancel_removal n.id (record s {
      notifications = update_where (with_id n.id) (set_leaving false) s.notifications;
    })
    else s

abbrev show_new : ℕ → String → NotificationType → ℕ → Toasts → Toasts
show_new id message kind duration s =
    let n : Notification = record {
      id = id;
      message = message;
      kind = kind;
      duration = duration;
      is_leaving = false;
    } in
    schedule_auto_dismiss id duration
      (record s { notifications = keep_last (s.notifications ++ n ∷ []) })

abbrev show_or_revive : ℕ → String → NotificationType → ℕ → Option Notification → Toasts → Toasts
show_or_revive id message kind duration none s = show_new id message kind duration s
show_or_revive id message kind duration (some n) s = reset_timer n.id duration (revive n s)

unfoldable pub push_notification : ℕ → String → NotificationType → ℕ → Toasts → Toasts
push_notification id message kind duration s =
    show_or_revive id message kind duration (find_where (says message kind) s.notifications) s
