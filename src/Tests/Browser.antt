-- ===== src/Tests/Browser.antt =====
-- The browser at concrete inputs: toasts, requests, sockets, the storage and the pages.
use bid_battle.Client.Pages.Arrivals.{CallbackPage, process_callback}
use bid_battle.Client.Language.{ActiveLanguage, codes, detect_from_accept_language, get_lang}
use bid_battle.Client.Notifications.{
  cancel_removal, schedule_auto_dismiss, set_leaving, with_id, Notification, NotificationType,
  Toasts, dismiss, push_notification,
}
use bid_battle.Client.Forms.{ahead, to_end, touch, change_rule, is_strong}
use bid_battle.Client.Page.Theme.{
  os_change, apply_theme, is_os_change, ThemeEvent, construct, occur_themes, os_changes_ignored,
}
use bid_battle.Client.Page.Storage.{clear_below, Item, clear, get, keyed, value_of, KeepsValues}
use text.Mathlib.TextEquality.{eq_iff}
use bid_battle.Client.Requests.{
  abandon, resolve_refresh, intercept_error, Browser, Phase, RefreshReply, Result, reply_refresh,
  respond,
}
use bid_battle.Client.Requests.Served.{is_queued, is_behind}
use bid_battle.Client.Notifications.Shown.{Distinct, Event, IsTidy, occur_all, occur_all-IsTidy}
use bid_battle.Client.Notifications.Stuck.{Tick, Ticks, dismiss_leaving_stays}
use bid_battle.Client.Page.Storage.Clear.{clear_keeps_others}
use bid_battle.Client.Page.Title.{show_count}
use bid_battle.Client.Pages.{LoginPage, idle_form, submit_login}
use bid_battle.Client.Pages.LockedOut.{plain_password_locks_out}
use bid_battle.Client.Requests.Expiry.{expired_token_logs_out}
use bid_battle.Client.Requests.Waiting.{
  keeps_refreshes, Happening, fresh, happen_all, waiting_is_answered,
}
use bid_battle.Client.Session.{ClientUser, Verdict, auth_guard, guest_guard, loaded, set_session}
use bid_battle.Client.Sockets.{
  emit, new_socket, Connection, SocketEvent, connect, is_connected, new_connection, on,
  socket_event, subscribe, disconnect,
}
use bid_battle.Client.Sockets.Leaked.{connect_twice_leaks}
use bid_battle.Client.Sockets.Single.{IsSingle, Run, Run-IsSingle}
use bid_battle.Prelude.{
  inl, inr, ◌∙◌, Bool-cases, sym, ap, not, ◌++◌, arith, ◌+◌, find_where, [], ◌∷◌, ◌≡◌, false, none,
  refl, some, true, List, String, ℕ, Bool, delete_where,
}

abbrev ann : ClientUser
ann = record {
  id = 1;
  email = "ann@example.org";
  first_name = "Ann";
  last_name = "Lee";
  avatar = none;
}

-- the page is loaded, and two requests come back unauthorized
abbrev both_unauthorized : List Happening
both_unauthorized =
    Happening.send 0
    ∷ Happening.send 1
    ∷ Happening.send 2
    ∷ Happening.unsubscribed 2
    ∷ Happening.answered 0 (Result.failed 401)
    ∷ Happening.answered 1 (Result.failed 401)
    ∷ []

abbrev held_up : Browser
held_up = happen_all both_unauthorized (fresh (some ann))

waiting_is_answered_example :
    (held_up.session.is_refreshing ≡ true)
    × ((i : ℕ) × (is_behind (held_up.phase i) ≡ true)
        × ((r : RefreshReply) → is_queued ((reply_refresh i r held_up).phase 1) ≡ false))
unfolding happen_all respond intercept_error keeps_refreshes
waiting_is_answered_example = waiting_is_answered (some ann) both_unauthorized 1 refl refl

-- When the page of the first goes away, its refresh goes with it: the second still waits, and the
-- refresh stays flagged.
deserted :
    let b = abandon 0 held_up in
    (b.session.is_refreshing ≡ true) × (b.phase 0 ≡ Phase.abandoned) × (b.phase 1 ≡ Phase.waiting)
unfolding happen_all respond intercept_error
deserted = (refl, refl, refl)

second_sent_again :
    (reply_refresh 0 (RefreshReply.renewed "new") held_up).phase 1 ≡ Phase.resent_other "new"
unfolding reply_refresh resolve_refresh happen_all respond intercept_error
second_sent_again = refl

abbrev logged_in_browser : Browser
logged_in_browser = record {
  session = set_session "expired" ann (loaded none);
  phase = λ i. Phase.sent;
}

expired_token_logs_out_example :
    let b' = respond 0 (Result.failed 401) logged_in_browser in
    (b'.session.access_token ≡ none)
    × (b'.session.user ≡ none)
    × (b'.session.is_refreshing ≡ false)
    × (b'.phase 0 ≡ Phase.settled (Result.failed 401))
unfolding set_session
expired_token_logs_out_example = expired_token_logs_out 0 logged_in_browser refl refl

guard_refreshes : auth_guard true (loaded (some ann)) ≡ Verdict.refresh_first
unfolding auth_guard
guard_refreshes = refl

guest_goes_home : guest_guard (set_session "token" ann (loaded none)) ≡ Verdict.redirected_home
unfolding guest_guard set_session
guest_goes_home = refl

abbrev no_toasts : Toasts
no_toasts = record { notifications = []; timers = []; removal_timers = []; now = 0 }

abbrev toast_events : List Event
toast_events =
    Event.pushed 1 "saved" NotificationType.success 4000
    ∷ Event.pushed 2 "saved" NotificationType.success 4000
    ∷ Event.dismissed 1
    ∷ Event.elapsed 240
    ∷ Event.pushed 3 "lost" NotificationType.error 4000
    ∷ []

no_toasts-IsTidy : IsTidy no_toasts
unfolding Distinct
no_toasts-IsTidy = record { few = omega arith; no_twins = tt }

occur_all-IsTidy_example : IsTidy (occur_all toast_events no_toasts)
occur_all-IsTidy_example = occur_all-IsTidy toast_events no_toasts no_toasts-IsTidy

abbrev one_toast : Toasts
one_toast = push_notification 1 "saved" NotificationType.success 4000 no_toasts

abbrev saved_toast : Notification
saved_toast = record {
  id = 1;
  message = "saved";
  kind = NotificationType.success;
  duration = 4000;
  is_leaving = false;
}

-- dismissed, and a hundred milliseconds later
abbrev leaving_toast : Toasts
leaving_toast = record (dismiss 1 one_toast) { now = 100 }

-- dismissed again then, and a minute and more later
abbrev later : Toasts
later = record (dismiss 1 leaving_toast) { now = 100 + 100000 }

dismiss_leaving_stays_example :
    find_where (with_id 1) later.notifications ≡ some (set_leaving true saved_toast)
unfolding push_notification schedule_auto_dismiss dismiss cancel_removal
dismiss_leaving_stays_example =
    dismiss_leaving_stays 1 (set_leaving true saved_toast) leaving_toast later refl refl
      (Ticks.then (Tick.elapse 100000 (dismiss 1 leaving_toast)) (Ticks.none_yet _))

abbrev opened_once : Connection
opened_once = connect new_connection

abbrev listening : Connection
listening = subscribe (on new_connection) 7 "bid:new" new_connection

Run-IsSingle_example : IsSingle (socket_event 0 (SocketEvent.on_connect "s1") (connect listening))
unfolding connect on subscribe
Run-IsSingle_example =
    Run-IsSingle (socket_event 0 (SocketEvent.on_connect "s1") (connect listening)) (
      Run.reported 0 (SocketEvent.on_connect "s1") new_socket
        (Run.connected (Run.subscribed (on new_connection) 7 "bid:new" Run.fresh) refl) refl refl)

connect_twice_leaks_example :
    let up = socket_event 0 (SocketEvent.on_connect "s1") (connect (connect new_connection)) in
    let down = socket_event 0 SocketEvent.on_disconnect (disconnect up) in
    let revived = socket_event 0 (SocketEvent.on_connect "s2") down in
    (is_connected up ≡ true)
    × (emit "bid" up ≡ up)
    × (is_connected (disconnect up) ≡ false)
    × (revived.socket ≡ none)
    × (is_connected revived ≡ true)
connect_twice_leaks_example = connect_twice_leaks new_connection "bid" "s1" "s2" refl

early_listener_hangs :
    (connect (subscribe (on new_connection) 7 "bid:new" new_connection)).listeners
    ≡ record { observer = 7; event = "bid:new"; socket = 0 } ∷ []
unfolding connect subscribe on
early_listener_hangs = refl

late_source_completes :
    (subscribe (on new_connection) 7 "bid:new" (disconnect new_connection)).completed ≡ 7 ∷ []
unfolding subscribe on disconnect
late_source_completes = refl

abbrev stored : List Item
stored =
    record { key = "bb_theme"; value = "dark" }
    ∷ record { key = "bb_language"; value = "pl" }
    ∷ record { key = "other"; value = "1" }
    ∷ []

-- a browser that moves one key behind the others
abbrev theme_last : List Item → List Item
theme_last items =
    delete_where (keyed "bb_theme") items ++ delete_where (λ x. not (keyed "bb_theme" x)) items

find_where-append_other :
    (q : Item → Bool) (xs ys : List Item) (x : Item)
    → q x ≡ false
    → find_where q (xs ++ x ∷ ys) ≡ find_where q (xs ++ ys)
find_where-append_other q [] ys x h = ground (arith, h)
find_where-append_other q (z ∷ xs) ys x h = ground (arith, find_where-append_other q xs ys x h)

find_where-append_none :
    (q : Item → Bool) (xs ys : List Item) (x : Item)
    → find_where q xs ≡ none
    → q x ≡ true
    → find_where q (xs ++ x ∷ ys) ≡ some x
find_where-append_none q [] ys x h e = ground (arith, e)
find_where-append_none q (z ∷ xs) ys x h e = ground (arith, h, find_where-append_none q xs ys x)

find_where-delete_same :
    (q p : Item → Bool) (xs : List Item)
    → ((y : Item) → q y ≡ p y)
    → find_where q (delete_where p xs) ≡ none
find_where-delete_same q p [] h = refl
find_where-delete_same q p (x ∷ xs) h = ground (arith, h x, find_where-delete_same q p xs h)

keyed_both :
    (key other : String) (x y : Item)
    → keyed key x ≡ true
    → keyed other x ≡ true
    → keyed key y ≡ keyed other y
keyed_both key other x y h g =
    let here : x.key ≡ key = (eq_iff x.key key).0 h in
    let there : x.key ≡ other = (eq_iff x.key other).0 g in ap (λ k. keyed k y) (sym here ∙ there)

theme_last_finds :
    (key : String) (xs : List Item)
    → find_where (keyed key) (theme_last xs) ≡ find_where (keyed key) xs
theme_last_finds key [] = refl
theme_last_finds key (x ∷ xs) =
    let rest = theme_last_finds key xs in
    let first = delete_where (keyed "bb_theme") xs in
    let second = delete_where (λ y. not (keyed "bb_theme" y)) xs in
    let other = find_where-append_other (keyed key) first second x in
    elim (Bool-cases (keyed "bb_theme" x)) [
      | inr ahead ↦ ground (arith, rest, ahead)
      | inl moved ↦ elim (Bool-cases (keyed key x)) [
        | inr apart ↦ ground (arith, rest, moved, apart, other)
        | inl same ↦
            let none_left : find_where (keyed key) first ≡ none =
              find_where-delete_same (keyed key) (keyed "bb_theme") xs
                (λ y. keyed_both key "bb_theme" x y same moved) in
            ground
              (arith, moved, same, find_where-append_none (keyed key) first second x none_left same)
      ]
    ]

theme_last-KeepsValues : KeepsValues theme_last
theme_last-KeepsValues items key = ap value_of (theme_last_finds key items)

clear_keeps_others_example :
    get "" "other" (clear theme_last "bb_" (some stored)) ≡ get "" "other" (some stored)
clear_keeps_others_example =
    clear_keeps_others theme_last theme_last-KeepsValues "bb_" "" "other" (some stored) refl

-- `clear` empties its own keys where a removal keeps the order
cleared_in_order :
    clear (λ items. items) "bb_" (some stored) ≡ some (record { key = "other"; value = "1" } ∷ [])
unfolding clear clear_below
cleared_in_order = refl

-- and here it skips one of them
skipped_out_of_order : get "bb_" "theme" (clear theme_last "bb_" (some stored)) ≡ some "dark"
unfolding clear clear_below get
skipped_out_of_order = refl

abbrev theme_events : List ThemeEvent
theme_events = ThemeEvent.os_changed false ∷ ThemeEvent.toggled ∷ ThemeEvent.os_changed true ∷ []

os_changes_ignored_example :
    let s = construct true none true in
    occur_themes theme_events s ≡ occur_themes (delete_where is_os_change theme_events) s
os_changes_ignored_example = os_changes_ignored none true theme_events refl

stays_dark :
    (occur_themes (ThemeEvent.os_changed false ∷ []) (construct true none true)).current ≡ "dark"
unfolding occur_themes os_change construct apply_theme
stays_dark = refl

abbrev plain_page : LoginPage
plain_page = record {
  email = record { value = "ann@example.org"; touched = false };
  password = record { value = "Password1"; touched = false };
  form = idle_form;
}

abbrev any_email : String → Bool
any_email t = true

plain_password_locks_out_example :
    (change_rule "Password1" "Password1" ≡ true)
    × (submit_login any_email plain_page ≡ record plain_page {
      email = touch plain_page.email;
      password = touch plain_page.password;
    })
unfolding ahead to_end
plain_password_locks_out_example =
    plain_password_locks_out any_email plain_page refl refl refl refl refl refl

strong_one : is_strong "Password1!" ≡ true
unfolding is_strong ahead to_end
strong_one = refl

shows_count : show_count 1207 ≡ "1207"
shows_count = refl

polish_header : detect_from_accept_language (codes " PL-pl;q=0.9, en") ≡ some ActiveLanguage.polish
unfolding detect_from_accept_language
polish_header = refl

german_socket : get_lang (some (codes "de-DE,pl")) ≡ codes "de"
unfolding get_lang
german_socket = refl

abbrev arrived : CallbackPage
arrived = record { executed = false; exchanging = []; session = loaded none; screen = [] }

code_exchanged :
    (process_callback true (record { error = none; code = some "c1" }) arrived).exchanging
    ≡ "c1" ∷ []
unfolding process_callback
code_exchanged = refl
