-- ===== src/Client/Notifications/Shown.antt =====
-- What is on the screen after any pushes, dismissals and timers.
use bid_battle.Client.Notifications.{
  reset_timer, cancel_removal, schedule_auto_dismiss, with_id, remove_notification, of_id,
  max_notifications, dismiss, says, set_leaving, push_notification, same_kind, Notification,
  NotificationType, Toasts,
}
use bid_battle.Prelude.{
  find-append_none, find-delete_none, find-update_none, length-delete, length-drop, length-update,
  Option-cases, ◌+◌, inr, sym, is_some, true, false, if◌then◌else◌, inl, refl, zero, ◌++◌,
  Bool-cases, [], arith, none, suc, ◌-◌, ◌≤◌, delete_where, drop, find_where, length, update_where,
  ◌∷◌, ◌≡◌, Bool, List, String, ℕ,
}
use text.Mathlib.TextEquality.{eq_iff}
use text.Mathlib.Text.{◌==◌ as str_eq}

-- What happens to the toasts: a call of the service, a timer that is due, or time that passes.
pub data Event : Type 0 where
  pushed : ℕ → String → NotificationType → ℕ → Event
  dismissed timed_out removed elapsed : ℕ → Event

abbrev pub occur : Event → Toasts → Toasts
occur (Event.pushed id message kind duration) s = push_notification id message kind duration s
occur (Event.dismissed id) s = dismiss id s
occur (Event.timed_out id) s = if is_some (find_where (of_id id) s.timers) then dismiss id s else s
occur (Event.removed id) s =
    if is_some (find_where (of_id id) s.removal_timers) then remove_notification id s else s
occur (Event.elapsed d) s = record s { now = s.now + d }

unfoldable pub occur_all : List Event → Toasts → Toasts
occur_all [] s = s
occur_all (e ∷ es) s = occur_all es (occur e s)

-- No two say the same, and there are at most five.
unfoldable pub Distinct : List Notification → Type 0
Distinct [] = Unit
Distinct (n ∷ ns) = (find_where (says n.message n.kind) ns ≡ none) × Distinct ns

same_kind_sym : (a b : NotificationType) → same_kind a b ≡ same_kind b a
same_kind_sym NotificationType.success b = ground arith
same_kind_sym NotificationType.error b = ground arith
same_kind_sym NotificationType.warning b = ground arith
same_kind_sym NotificationType.info b = ground arith

str_eq_sym : (a b : String) → str_eq a b ≡ str_eq b a
str_eq_sym a b = elim (Bool-cases (str_eq a b)) [
  | inl equal ↦
      let back : str_eq b a ≡ true = (eq_iff b a).1 (sym ((eq_iff a b).0 equal)) in
      ground (arith, equal, back)
  | inr differs ↦ elim (Bool-cases (str_eq b a)) [
    | inl equal ↦
        let back : str_eq a b ≡ true = (eq_iff a b).1 (sym ((eq_iff b a).0 equal)) in
        ground (arith, differs, back)
    | inr differs2 ↦ ground (arith, differs, differs2)
  ]
]

update_where-Distinct :
    (q : Notification → Bool) (b : Bool) (ns : List Notification)
    → Distinct ns
    → Distinct (update_where q (set_leaving b) ns)
unfolding Distinct
update_where-Distinct q b [] h = tt
update_where-Distinct q b (n ∷ ns) h =
    let rest = find-update_none (says n.message n.kind) q (set_leaving b) ns (λ x. refl) h.0 in
    let tail = update_where-Distinct q b ns h.1 in ground (arith, rest, tail)

delete_where-Distinct :
    (q : Notification → Bool) (ns : List Notification) → Distinct ns → Distinct (delete_where q ns)
unfolding Distinct
delete_where-Distinct q [] h = tt
delete_where-Distinct q (n ∷ ns) h =
    let rest = find-delete_none (says n.message n.kind) q ns h.0 in
    let tail = delete_where-Distinct q ns h.1 in ground (arith, rest, tail)

drop-Distinct : (k : ℕ) (ns : List Notification) → Distinct ns → Distinct (drop k ns)
unfolding Distinct
drop-Distinct zero ns h = h
drop-Distinct (suc k) [] h = tt
drop-Distinct (suc k) (n ∷ ns) h = drop-Distinct k ns h.1

append-Distinct :
    (ns : List Notification) (m : Notification)
    → Distinct ns
    → find_where (says m.message m.kind) ns ≡ none
    → Distinct (ns ++ m ∷ [])
unfolding Distinct
append-Distinct [] m h differs = (refl, tt)
append-Distinct (n ∷ ns) m h differs =
    let other =
      find-append_none (says n.message n.kind) ns m h.0
        (ground (arith, str_eq_sym n.message m.message, same_kind_sym n.kind m.kind)) in
    (other, append-Distinct ns m h.1 (ground arith))

-- At most five notifications, no two of the same kind and text.
pub record IsTidy (s : Toasts) : Type 0 where
  pub few : length s.notifications ≤ max_notifications
  pub no_twins : Distinct s.notifications

dismiss-IsTidy : (id : ℕ) (s : Toasts) → IsTidy s → IsTidy (dismiss id s)
unfolding dismiss cancel_removal
dismiss-IsTidy id s h =
    let left = update_where-Distinct (with_id id) true s.notifications h.no_twins in
    let size = length-update (with_id id) (set_leaving true) s.notifications in
    record { few = ground (arith, h.few, size); no_twins = ground (arith, left, h.no_twins) }

remove-IsTidy : (id : ℕ) (s : Toasts) → IsTidy s → IsTidy (remove_notification id s)
unfolding remove_notification
remove-IsTidy id s h =
    let size = length-delete (with_id id) s.notifications in
    record {
      few = omega (arith, h.few, size);
      no_twins = delete_where-Distinct (with_id id) s.notifications h.no_twins;
    }

push-IsTidy :
    (id : ℕ) (message : String) (kind : NotificationType) (duration : ℕ) (s : Toasts)
    → IsTidy s
    → IsTidy (push_notification id message kind duration s)
unfolding push_notification schedule_auto_dismiss reset_timer cancel_removal
push-IsTidy id message kind duration s h =
    elim (Option-cases (find_where (says message kind) s.notifications)) [
      | inl fresh ↦
          let n : Notification = record {
            id = id;
            message = message;
            kind = kind;
            duration = duration;
            is_leaving = false;
          } in
          let all = s.notifications ++ n ∷ [] in
          let size = length-drop (length all - max_notifications) all in
          let kept =
            drop-Distinct (length all - max_notifications) all
              (append-Distinct s.notifications n h.no_twins fresh) in
          record { few = ground (arith, fresh, size); no_twins = ground (arith, fresh, kept) }
      | inr (old, found) ↦
          let left = update_where-Distinct (with_id old.id) false s.notifications h.no_twins in
          let size = length-update (with_id old.id) (set_leaving false) s.notifications in
          record {
            few = ground (arith, found, h.few, size);
            no_twins = ground (arith, found, left, h.no_twins);
          }
    ]

occur-IsTidy : (e : Event) (s : Toasts) → IsTidy s → IsTidy (occur e s)
occur-IsTidy (Event.pushed id message kind duration) s h = push-IsTidy id message kind duration s h
occur-IsTidy (Event.dismissed id) s h = dismiss-IsTidy id s h
occur-IsTidy (Event.timed_out id) s h =
    let dismissed_ = dismiss-IsTidy id s h in
    elim (Bool-cases (is_some (find_where (of_id id) s.timers))) [
      | inl due ↦ rw due dismissed_
      | inr idle ↦ rw idle h
    ]
occur-IsTidy (Event.removed id) s h =
    let without_ = remove-IsTidy id s h in
    elim (Bool-cases (is_some (find_where (of_id id) s.removal_timers))) [
      | inl due ↦ rw due without_
      | inr idle ↦ rw idle h
    ]
occur-IsTidy (Event.elapsed d) s h = record { few = h.few; no_twins = h.no_twins }

-- Whatever is pushed and dismissed, and whichever timers fire, at most five notifications are there,
-- and no two of them have the same kind and text.
pub occur_all-IsTidy : (es : List Event) (s : Toasts) → IsTidy s → IsTidy (occur_all es s)
unfolding occur_all
occur_all-IsTidy [] s h = h
occur_all-IsTidy (e ∷ es) s h = occur_all-IsTidy es (occur e s) (occur-IsTidy e s h)
