-- ===== src/Profiles/Outcomes.antt =====
-- What a switch of profiles leaves behind, on each of its paths.
use agent_first_http.Profiles.Recent.{last_items}
use agent_first_http.Prelude.{◌≡◌, ◌⊎◌, Text, List, true, Option, none, some}
use agent_first_http.Errors.{Result, ok, err}
use agent_first_http.Listener.Requests.{Parsers, Request}
use agent_first_http.Listener.Handoffs.{takeover_handoff_auth}
use agent_first_http.Profiles.Names.{validate_name}
use agent_first_http.Profiles.Switch.{persistent, Host, Found, is_current}

abbrev pub IsRefusal : Result (Unit {0}) → Type 0
IsRefusal (ok _) = ⊥
IsRefusal (err _) = Unit

-- A host that remembers requests listens to the browser at an address, and of all requests it
-- remembers the last of those that the old subscription added after the ring was cleared.
abbrev pub StartsOver : Option Text → List Text → Host → Text → Type 0
StartsOver none late s ws_url = Unit
StartsOver (some _) late s ws_url =
    (s.recent ≡ last_items s.recent_cap late) × (s.follows ≡ some ws_url)

pub data Outcome (name : Text) (f : Found) (s : Host) (r : Host × Result (Unit {0})) : Type 0 where
  already :
      (is_current name f.first_profile ≡ true) ⊎ (is_current name f.locked_profile ≡ true)
      → r ≡ (s, ok tt)
      → Outcome name f s r
  switched :
      (ws_url : Text)
      → validate_name name ≡ ok tt
      → f.connected ≡ 0
      → f.launched ≡ ok ws_url
      → r.1 ≡ ok tt
      → r.0.profile ≡ some (record { kind = persistent; name = name; ws_url = ws_url })
      → ((p : Parsers) (req : Request) → (takeover_handoff_auth p req r.0.handoffs).1 ≡ none)
      → StartsOver s.follows f.late r.0 ws_url
      → Outcome name f s r
  refused : IsRefusal r.1 → r.0 ≡ s → Outcome name f s r
