-- ===== src/Readiness/Wait.antt =====
-- sdk/fetch/wait.rs: the conditions for which a fetch can wait; and the budgets of
-- sdk/fetch/pipeline/browser/wait.rs, in milliseconds.
use agent_first_http.Prelude.{
  ℕ, ◌-◌, ◌/◌, min, Text, codes, Bool, true, false, Option, none, some, leb, if◌then◌else◌, text_eq,
  strip_prefix, parse_u64,
}
use agent_first_http.Errors.{new, invalid_argument, Result, ok, err}
use agent_first_http.Pages.Classification.{trim_start}
use agent_first_http.Request.Values.{trim_end, is_empty}

pub data Wait : Type 0 where
  auto load idle : Wait
  selector selector_visible selector_stable : Text → Wait
  ms : ℕ → Wait

abbrev pub if_filled : Bool → Wait → Result Wait
if_filled true w = err (new invalid_argument)
if_filled false w = ok w

abbrev pub of_ms : Option ℕ → Result Wait
of_ms none = err (new invalid_argument)
of_ms (some n) = ok (ms n)

-- The prefixes, in the order in which they are tried.
unfoldable pub parse_ms : Text → Result Wait
unfolding parse_u64
parse_ms s = elim (strip_prefix (codes "ms:") s) [
  | some n ↦ of_ms (parse_u64 n)
  | none ↦ err (new invalid_argument)
]

unfoldable pub parse_selector : Text → Result Wait
unfolding parse_ms
parse_selector s = elim (strip_prefix (codes "selector:") s) [
  | some sel ↦ if_filled (is_empty sel) (selector sel)
  | none ↦ parse_ms s
]

unfoldable pub parse_visible : Text → Result Wait
unfolding parse_selector
parse_visible s = elim (strip_prefix (codes "selector-visible:") s) [
  | some sel ↦ if_filled (is_empty sel) (selector_visible sel)
  | none ↦ parse_selector s
]

unfoldable pub parse_stable : Text → Result Wait
unfolding parse_visible
parse_stable s = elim (strip_prefix (codes "selector-stable:") s) [
  | some sel ↦ if_filled (is_empty (trim_end (trim_start sel))) (selector_stable sel)
  | none ↦ parse_visible s
]

-- `Wait::parse`
unfoldable pub parse : Text → Result Wait
unfolding parse_stable
parse s =
    if text_eq s (codes "auto")
    then ok auto
    else if text_eq s (codes "load")
    then ok load
    else if text_eq s (codes "idle")
    then ok idle
    else parse_stable s

unfoldable pub mode_name : Wait → Text
mode_name auto = codes "auto"
mode_name load = codes "load"
mode_name idle = codes "idle"
mode_name (selector _) = codes "selector"
mode_name (selector_visible _) = codes "selector_visible"
mode_name (selector_stable _) = codes "selector_stable"
mode_name (ms _) = codes "ms"

-- `a.checked_sub(b).unwrap_or(c)`
abbrev pub sub_or : ℕ → ℕ → ℕ → ℕ
sub_or a b c = if leb b a then a - b else c

unfoldable pub explicit_wait_budget : ℕ → ℕ → ℕ
explicit_wait_budget remaining requested =
    sub_or (min remaining requested) 100 (min remaining requested)

unfoldable pub auto_readiness_budget : ℕ → ℕ → ℕ
auto_readiness_budget remaining timeout =
    sub_or remaining (min 750 (timeout / 3)) (min remaining 100)
