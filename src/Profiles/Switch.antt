-- ===== src/Profiles/Switch.antt =====
-- `ensure_profile` of host/listener/mod.rs: the switch of a running host to another profile.
use agent_first_http.Prelude.{
  ℕ, Text, Bool, true, false, not, ◌&&◌, Option, none, some, List, [], ltb, if◌then◌else◌, text_eq,
}
use agent_first_http.Errors.{new, with_retryable, invalid_argument, profile_locked, Result, ok, err}
use agent_first_http.Listener.Handoffs.{UiAccessToken, revoke_takeover_handoffs}
use agent_first_http.Profiles.Names.{validate_name}
use agent_first_http.Profiles.Recent.{push, push_all}

pub data Kind : Type 0 where
  persistent ephemeral : Kind

-- The browser is known by the address of its websocket.
pub record ProfileEntry : Type 0 where
  pub kind : Kind
  pub name : Text
  pub ws_url : Text

-- The part of the host's state that a switch reads and writes: `recent` is the ring of recent
-- requests, of the capacity `recent_cap`, and `follows` the address that its subscriber listens to, if
-- the host has these.
pub record Host : Type 0 where
  pub profile : Option ProfileEntry
  pub handoffs : List UiAccessToken
  pub recent_cap : ℕ
  pub recent : List Text
  pub follows : Option Text

-- What the awaits of a switch find: the profile at the start, the context for a launch, the profile
-- and the clients once the lock is held, the browser that was launched, and the requests that the
-- subscriber, which still listens to the old browser, pushes between the end of the ring's `clear` and
-- `follow`.
pub record Found : Type 0 where
  pub first_profile : Option ProfileEntry
  pub has_launch_ctx : Bool
  pub locked_profile : Option ProfileEntry
  pub connected : ℕ
  pub launched : Result Text
  pub late : List Text

abbrev pub is_persistent : Kind → Bool
is_persistent persistent = true
is_persistent ephemeral = false

unfoldable pub is_current : Text → Option ProfileEntry → Bool
is_current name none = false
is_current name (some p) = text_eq p.name name && is_persistent p.kind

-- `RecentRequestsSubscriber.follow`, which ends the old subscription
abbrev pub follow : Text → Host → Host
follow ws_url s = record s { follows = some ws_url }

-- The await of `ring.clear()`, and what is pushed onto the ring before the next line.
abbrev pub clear_ring : List Text → Host → Host
clear_ring late s = record s { recent = push_all s.recent_cap [] late }

unfoldable pub restart_recent : Option Text → List Text → Text → Host → Host
unfolding push_all push
restart_recent none late ws_url s = s
restart_recent (some _) late ws_url s = follow ws_url (clear_ring late s)

-- The swap and what follows it.
unfoldable pub swap_in : Text → Text → List Text → Host → Host
unfolding revoke_takeover_handoffs restart_recent
swap_in name ws_url late s = restart_recent s.follows late ws_url (record s {
  profile = some (record { kind = persistent; name = name; ws_url = ws_url });
  handoffs = (revoke_takeover_handoffs s.handoffs).0;
})

abbrev pub after_launch : Text → List Text → Host → Result Text → Host × Result (Unit {0})
after_launch name late s (err e) = (s, err e)
after_launch name late s (ok ws_url) = (swap_in name ws_url late s, ok tt)

-- What is done once the lock is held.
unfoldable pub switch_locked : Text → Found → Host → Host × Result (Unit {0})
unfolding is_current
switch_locked name f s =
    if is_current name f.locked_profile
    then (s, ok tt)
    else if ltb 0 f.connected
    then (s, err (with_retryable (new profile_locked) true))
    else after_launch name f.late s f.launched

abbrev pub after_validation : Text → Found → Host → Result (Unit {0}) → Host × Result (Unit {0})
after_validation name f s (err e) = (s, err e)
after_validation name f s (ok _) =
    if not f.has_launch_ctx then (s, err (new invalid_argument)) else switch_locked name f s

-- `s` is the state at the swap, or at the return without one.
unfoldable pub ensure_profile : Text → Found → Host → Host × Result (Unit {0})
ensure_profile name f s =
    if is_current name f.first_profile
    then (s, ok tt)
    else after_validation name f s (validate_name name)
