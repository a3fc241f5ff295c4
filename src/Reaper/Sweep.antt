-- ===== src/Reaper/Sweep.antt =====
-- host/reaper.rs: one sweep over the browser's page targets. What the host and the browser answer in
-- the course of a sweep is its argument.
use agent_first_http.Prelude.{
  ℕ, ◌-◌, ◌/◌, Text, codes, Bool, true, false, not, ◌&&◌, ◌||◌, Option, none, some, List, [], ◌∷◌,
  ltb, leb, if◌then◌else◌, min, max, text_eq, starts_with, member, get, put, remove, retain_keys,
  text_keys,
}

-- A target as `Target.getTargets` reports it: the string fields that are read.
pub record TargetInfo : Type 0 where
  pub type_ : Option Text
  pub target_id : Option Text
  pub url : Option Text

pub record PageTarget : Type 0 where
  pub id : Text
  pub url : Text

abbrev pub or_default : Option Text → Text
or_default none = []
or_default (some s) = s

abbrev pub is_page : Option Text → Bool
is_page none = false
is_page (some t) = text_eq t (codes "page")

unfoldable pub page_targets : List TargetInfo → List PageTarget
page_targets [] = []
page_targets (t ∷ ts) =
    let rest = page_targets ts in
    if is_page t.type_ && not (text_eq (or_default t.target_id) [])
    then record { id = or_default t.target_id; url = or_default t.url } ∷ rest
    else rest

unfoldable pub is_reapable_url : Text → Bool
is_reapable_url url = starts_with (codes "http://") url || starts_with (codes "https://") url

-- Times and durations are in nanoseconds.
unfoldable pub sweep_interval : ℕ → ℕ
sweep_interval idle_timeout = min 60000000000 (max 500000000 (idle_timeout / 3))

pub record Tracker : Type 0 where
  pub ws_url : Text
  pub idle_since : List (Text × ℕ)

-- What the sweep is told: the active browser's address, if there is one; whether a takeover credential
-- is live; how many clients are connected; the orphans; the targets, unless the browser could not be
-- asked; the time; and of each target, whether the browser closes it when asked.
pub record Answers : Type 0 where
  pub profile : Option Text
  pub live_credentials : Bool
  pub cdp_clients : ℕ
  pub orphans : List Text
  pub targets : Option (List TargetInfo)
  pub now : ℕ
  pub closes : Text → Bool

-- What a sweep does: the tracker it leaves, the targets that it asked the browser to close, and the
-- targets it reports to the host as the ones there are, if it got that far.
pub record Outcome : Type 0 where
  pub tracker : Tracker
  pub expired : List Text
  pub seen : Option (List Text)

abbrev pub clear : Tracker → Tracker
clear t = record t { idle_since = [] }

abbrev pub since_or : Option ℕ → ℕ → ℕ
since_or none now = now
since_or (some s) now = s

-- Whether the loop passes over a target, and drops its clock.
unfoldable pub spared : Answers → PageTarget → Bool
unfolding is_reapable_url
spared a t = not (is_reapable_url t.url) || (ltb 0 a.cdp_clients && not (member t.id a.orphans))

-- The loop over the page targets: the clocks after it, and the targets whose time is up.
unfoldable pub visit : ℕ → Answers → List PageTarget → List (Text × ℕ) → List (Text × ℕ) × List Text
visit idle_timeout a [] clocks = (clocks, [])
visit idle_timeout a (t ∷ ts) clocks = elim (spared a t) [
  | true ↦ visit idle_timeout a ts (remove t.id clocks)
  | false ↦
      let since = since_or (get t.id clocks) a.now in
      let (last, expired) = visit idle_timeout a ts (put t.id since clocks) in
      (last, if leb idle_timeout (a.now - since) then t.id ∷ expired else expired)
]

unfoldable pub ids : List PageTarget → List Text
ids [] = []
ids (t ∷ ts) = t.id ∷ ids ts

-- The last loop: the clock of a target that the browser closed is dropped.
unfoldable pub close_all : (Text → Bool) → List Text → List (Text × ℕ) → List (Text × ℕ)
close_all closes [] clocks = clocks
close_all closes (id ∷ rest) clocks =
    close_all closes rest (if closes id then remove id clocks else clocks)

-- The sweep once the browser has answered.
unfoldable pub sweep_targets : ℕ → Answers → List TargetInfo → Tracker → Outcome
unfolding page_targets ids close_all
sweep_targets idle_timeout a targets tracker =
    let pages = page_targets targets in
    let (clocks, expired) = visit idle_timeout a pages tracker.idle_since in
    let kept = retain_keys (λ id. member id (ids pages)) clocks in
    record {
      tracker = record tracker { idle_since = close_all a.closes expired kept };
      expired = expired;
      seen = some (ids pages);
    }

abbrev pub stop : Tracker → Outcome
stop tracker = record { tracker = tracker; expired = []; seen = none }

-- The clocks are those of the browser that is served now.
unfoldable pub follow : Text → Tracker → Tracker
follow ws_url tracker =
    if text_eq tracker.ws_url ws_url then tracker else record { ws_url = ws_url; idle_since = [] }

abbrev pub no_orphans : List Text → Bool
no_orphans [] = true
no_orphans _ = false

abbrev pub ask : ℕ → Answers → Option (List TargetInfo) → Tracker → Outcome
ask idle_timeout a none tracker = stop tracker
ask idle_timeout a (some targets) tracker = sweep_targets idle_timeout a targets tracker

abbrev pub sweep_browser : ℕ → Answers → Option Text → Tracker → Outcome
sweep_browser idle_timeout a none tracker = stop (clear tracker)
sweep_browser idle_timeout a (some ws_url) tracker =
    if a.live_credentials
    then stop (clear tracker)
    else if ltb 0 a.cdp_clients && no_orphans a.orphans
    then stop (clear (follow ws_url tracker))
    else ask idle_timeout a a.targets (follow ws_url tracker)

unfoldable pub sweep : ℕ → Answers → Tracker → Outcome
unfolding follow sweep_targets
sweep idle_timeout a tracker = sweep_browser idle_timeout a a.profile tracker
