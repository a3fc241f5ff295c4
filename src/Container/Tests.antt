-- ===== src/Container/Tests.antt =====
-- An install for Chrome, given no backend.
use agent_first_http.Prelude.{
  codes, ◌≡◌, refl, none, some, List, [], ◌∷◌, inr, text_eq, any, find_first, keep, starts_with,
  strip_prefix,
}
use agent_first_http.Errors.{ok}
use agent_first_http.Container.Backends.{
  Backend, brave, kasmvnc, chrome_takeover, takeover_backend, has_named, image_tag,
}
use agent_first_http.Container.HostArgs.{host_arg_present, host_arg_value_from}
use agent_first_http.Container.Install.{kasm_vnc, InstallArgs, prepare_install}
use agent_first_http.Container.Chosen.{IsComplete}
use agent_first_http.Container.Accepted.{prepare_install-IsComplete}

abbrev for_chrome : InstallArgs
for_chrome = record {
  profile = some (codes "work");
  shm_size = none;
  takeover_provider = kasm_vnc;
  with_ = [];
  host_args = codes "--browser" ∷ codes "chrome" ∷ [];
}

tag_sorted : image_tag (codes "1.0") (kasmvnc ∷ brave ∷ []) ≡ codes "afhttp-host:1.0-brave-kasmvnc"
unfolding image_tag has_named any text_eq keep
tag_sorted = refl

prepare_install-IsComplete_example :
    (full : InstallArgs) × (backends : List Backend) × (prepare_install for_chrome
      ≡ ok (full, backends))
    × IsComplete full backends chrome_takeover
unfolding host_arg_present host_arg_value_from takeover_backend find_first any text_eq starts_with
    strip_prefix
prepare_install-IsComplete_example =
    prepare_install-IsComplete for_chrome chrome_takeover refl (inr (codes "chrome", (refl, refl)))
      refl refl
