-- ===== src/Notify/Alive.antt =====
-- Histories of the listener: its connections and its wakeups.
use helloplanbuddy_cmd_plan.Base.{
  ℕ, ◌≤◌, ◌≡◌, refl, Bool, true, false, ◌||◌, List, [], ◌∷◌, arith, ltb, power_positive,
}
use helloplanbuddy_cmd_plan.Notify.{
  Listener, reconnect_base_ms, reconnect_max_ms, reconnect_delay, is_set, schedule_reconnect,
  connect, connect_succeeds, connect_fails, reconnect, on_error, on_end, has_key, remove_key,
  on_notification, wake_up, stop,
}

pub data Event : Type 0 where
  connected connection_failed timer_fired failed ended stopped : Event
  notified : ℕ → Event
  debounce_fired : ℕ → Event

unfoldable pub handle : Event → Listener → Listener
handle connected l = connect_succeeds l
handle connection_failed l = connect_fails l
handle timer_fired l = reconnect l
handle failed l = on_error l
handle ended l = on_end l
handle stopped l = stop l
handle (notified key) l = on_notification key l
handle (debounce_fired key) l = wake_up key l

unfoldable pub handle_all : List Event → Listener → Listener
handle_all [] l = l
handle_all (e ∷ es) l = handle_all es (handle e l)

-- It is stopping or connected, or it is connecting, or a timer will make it connect.
abbrev pub is_alive : Listener → Bool
is_alive l = l.stopping || (l.is_connected || (ltb 0 l.connecting || is_set l.reconnects_in))

handle_keeps : (e : Event) (l : Listener) → is_alive l ≡ true → is_alive (handle e l) ≡ true
unfolding handle connect_succeeds connect_fails reconnect on_error on_end stop on_notification
    wake_up schedule_reconnect connect
handle_keeps connected l h = ground (arith, h)
handle_keeps connection_failed l h = ground (arith, h)
handle_keeps timer_fired l h = ground (arith, h)
handle_keeps failed l h = ground (arith, h)
handle_keeps ended l h = ground (arith, h)
handle_keeps stopped l h = refl
handle_keeps (notified key) l h = ground (arith, h)
handle_keeps (debounce_fired key) l h = ground (arith, h)

-- Whatever connects, fails, ends or fires in whatever order, a listener that was started and is not
-- stopping is connected, is connecting, or has a timer that makes it connect.
pub keeps_connecting :
    (es : List Event) (l : Listener) → is_alive l ≡ true → is_alive (handle_all es l) ≡ true
unfolding handle_all
keeps_connecting [] l h = h
keeps_connecting (e ∷ es) l h = keeps_connecting es (handle e l) (handle_keeps e l h)

-- The delay of a reconnection is between half a second and half a minute.
pub delay_bounds :
    (count : ℕ)
    → (reconnect_base_ms ≤ reconnect_delay count) × (reconnect_delay count ≤ reconnect_max_ms)
unfolding reconnect_delay
delay_bounds count = let p = power_positive count in (omega (arith, p), omega arith)

key_removed : (key : ℕ) (ks : List ℕ) → has_key key (remove_key key ks) ≡ false
unfolding has_key remove_key
key_removed key [] = refl
key_removed key (k ∷ ks) = ground (arith, key_removed key ks)

-- A notification, and any further one for the same key before the timer fires, is followed by exactly
-- one wakeup for the key, after which the next notification sets a timer again.
pub notification_wakes :
    (key : ℕ) (l : Listener)
    → let m = wake_up key (on_notification key (on_notification key l)) in
      (m.woken ≡ key ∷ l.woken) × (has_key key m.debounced ≡ false)
unfolding wake_up on_notification has_key remove_key
notification_wakes key l = ground (arith, key_removed key l.debounced)
