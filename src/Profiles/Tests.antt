-- ===== src/Profiles/Tests.antt =====
-- Profiles at concrete inputs.
use agent_first_http.Prelude.{
  ℕ, ◌≡◌, refl, codes, true, false, some, [], ◌∷◌, ◌++◌, arith, text_eq, member, text_keys,
  ends_with_char, any, to_ascii_lowercase,
}
use agent_first_http.Errors.{ok, err, new, profile_invalid_name}
use agent_first_http.Listener.Requests.{until_char}
use agent_first_http.Profiles.Names.{
  is_name_char, validate_name, validate_backend_key, join, join_root_backend_name,
}
use agent_first_http.Profiles.Places.{components, walk, join_root_backend_name-place}
use agent_first_http.Profiles.Recent.{push_all, last_items, push_all_lem}
use agent_first_http.Profiles.Switch.{
  ephemeral, Host, Found, ensure_profile, is_current, switch_locked, swap_in,
}

names_tried :
    (validate_name (codes "work-2.a") ≡ ok tt)
    × (validate_name (codes "../x") ≡ err (new profile_invalid_name))
    × (validate_name (codes "Con.log") ≡ err (new profile_invalid_name))
    × (validate_name (codes "work.") ≡ err (new profile_invalid_name))
unfolding validate_name ends_with_char is_name_char any text_eq to_ascii_lowercase until_char
names_tried = (refl, refl, refl, refl)

work_path :
    join_root_backend_name (codes "/r/p") (codes "chrome") (codes "work")
    ≡ ok (codes "/r/p/chrome/work")
unfolding join_root_backend_name validate_backend_key validate_name join ends_with_char is_name_char
    any text_eq to_ascii_lowercase until_char member
work_path = refl

no_slash : ends_with_char (codes "/r/p") b'/' ≡ false
unfolding ends_with_char
no_slash = refl

join_root_backend_name-place_example :
    walk [] (components (codes "/r/p/chrome/work"))
    ≡ (walk [] (components (codes "/r/p")) ++ codes "chrome" ∷ []) ++ codes "work" ∷ []
join_root_backend_name-place_example =
    join_root_backend_name-place (codes "/r/p") (codes "chrome") (codes "work")
      (codes "/r/p/chrome/work") (omega arith) no_slash work_path

push_all_lem_example : push_all {R = ℕ} 2 [] (1 ∷ 2 ∷ 3 ∷ []) ≡ last_items 2 (1 ∷ 2 ∷ 3 ∷ [])
push_all_lem_example = push_all_lem 2 (1 ∷ 2 ∷ 3 ∷ [])

abbrev host : Host
host = record {
  profile = some (record { kind = ephemeral; name = codes "default"; ws_url = codes "ws://a" });
  handoffs =
      record {
        authorize = text_eq (codes "p");
        is_expired = false;
        is_revoked = false;
        remaining_ttl = some 9;
      }
      ∷ [];
  recent_cap = 2;
  recent = codes "GET /old" ∷ [];
  follows = some (codes "ws://a");
}

abbrev idle : Found
idle = record {
  first_profile = host.profile;
  has_launch_ctx = true;
  locked_profile = host.profile;
  connected = 0;
  launched = ok (codes "ws://b");
  late = codes "GET /a" ∷ codes "GET /b" ∷ codes "GET /c" ∷ [];
}

switches :
    let r = ensure_profile (codes "work") idle host in
    (r.1 ≡ ok tt)
    × (r.0.follows ≡ some (codes "ws://b"))
    × (r.0.recent ≡ codes "GET /b" ∷ codes "GET /c" ∷ [])
unfolding ensure_profile is_current switch_locked swap_in validate_name ends_with_char is_name_char
    any text_eq to_ascii_lowercase until_char
switches = (refl, refl, refl)
