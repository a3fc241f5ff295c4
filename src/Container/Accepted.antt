-- ===== src/Container/Accepted.antt =====
-- An install that a person can take over is accepted.
use agent_first_http.Prelude.{
  Text, codes, true, false, ◌||◌, ◌≡◌, refl, sym, ap, ◌∙◌, Option, none, some, List, [], ◌∷◌, ◌++◌,
  inl, inr, text_eq, any, member, text_keys, find_first, starts_with, strip_prefix, Bool-cases,
}
use agent_first_http.Errors.{Result, ok}
use agent_first_http.Container.Backends.{
  Backend, kasmvnc, backend_name, has_named, find_backend, resolve_backends, TakeoverBackend,
  takeover_backend, push_backend_if_missing,
}
use agent_first_http.Container.HostArgs.{
  eq_prefix, host_arg_present, host_arg_value_from, host_arg_value, push_host_arg_default,
}
use agent_first_http.Container.Install.{
  kasm_vnc, InstallArgs, browser_arg, provider_arg, apply_hard_site_defaults, prepare_install,
  checked,
}
use agent_first_http.Container.Defaults.{
  resolve_from-named, push_backend_if_missing-member, push_backend_if_missing-keeps,
  host_arg_value_from-absent, dangles, host_arg_value_from-append, any-append,
}
use agent_first_http.Container.Chosen.{
  IsComplete, IsTakeover, for_takeover, takeover_backend-cases, IsChosen, IsChosen-IsTakeover,
  IsChosen-selected, IsReady, dangles-append, absent-dangles, pushed_browser, validate_complete,
}

present-append :
    (name x y : Text) (xs : List Text)
    → host_arg_present xs name ≡ false
    → host_arg_present (x ∷ y ∷ []) name ≡ false
    → host_arg_present (xs ++ (x ∷ y ∷ [])) name ≡ false
unfolding host_arg_present
present-append name x y xs h k =
    rw
      (any-append (λ (arg : Text). text_eq arg name || starts_with (eq_prefix name) arg) xs
        (x ∷ y ∷ []))
      (rw (h, k) refl)

given_browser :
    (host_args : List Text) (b : TakeoverBackend)
    → IsChosen host_args b
    → dangles browser_arg host_args ≡ false
    → host_arg_present host_args provider_arg ≡ false
    → host_arg_present host_args browser_arg ≡ true
    → IsReady host_args b
given_browser host_args b (inl (absent, e)) whole free there =
    let bad : true ≡ false = sym there ∙ absent in cc
given_browser host_args b (inr (name, (value, known))) whole free there = record {
  browser = value ∙ ap (λ (t : Text). some t) (takeover_backend-cases name b known).0;
  whole = whole;
  no_provider = free;
}

not_an_option : (b : TakeoverBackend) → IsTakeover b → text_eq b.browser browser_arg ≡ false
unfolding text_eq
not_an_option b is = for_takeover (λ x. text_eq x.browser browser_arg ≡ false) b refl refl is

not_provider :
    (b : TakeoverBackend)
    → IsTakeover b
    → host_arg_present (browser_arg ∷ b.browser ∷ []) provider_arg ≡ false
unfolding host_arg_present any text_eq starts_with
not_provider b is =
    for_takeover (λ x. host_arg_present (browser_arg ∷ x.browser ∷ []) provider_arg ≡ false) b refl
      refl is

IsChosen-IsReady :
    (host_args : List Text) (b : TakeoverBackend)
    → IsChosen host_args b
    → dangles browser_arg host_args ≡ false
    → host_arg_present host_args provider_arg ≡ false
    → IsReady (push_host_arg_default host_args browser_arg b.browser) b
unfolding push_host_arg_default
IsChosen-IsReady host_args b choice whole free =
    let is = IsChosen-IsTakeover host_args b choice in
    elim (Bool-cases (host_arg_present host_args browser_arg)) [
      | inl there ↦ rw there (given_browser host_args b choice whole free there)
      | inr absent ↦ rw absent (record {
        browser =
            host_arg_value_from-append browser_arg host_args (browser_arg ∷ b.browser ∷ []) none
              whole
            ∙ ap
                (λ (o : Option Text).
                  host_arg_value_from browser_arg o (browser_arg ∷ b.browser ∷ []))
                (host_arg_value_from-absent browser_arg none host_args absent)
            ∙ pushed_browser host_args b is;
        whole = dangles-append browser_arg browser_arg b.browser host_args ∙ not_an_option b is;
        no_provider =
            present-append provider_arg browser_arg b.browser host_args free (not_provider b is);
      })
    ]

ready-provider :
    (args : List Text) (b : TakeoverBackend)
    → IsReady args b
    → IsTakeover b
    → let full = push_host_arg_default args provider_arg (codes "kasmvnc") in
      (host_arg_value full browser_arg ≡ some b.browser)
      × (host_arg_value full provider_arg ≡ some (codes "kasmvnc"))
unfolding push_host_arg_default host_arg_value_from text_eq strip_prefix
ready-provider args b ready is = rw (ready.no_provider) (
  host_arg_value_from-append browser_arg args (provider_arg ∷ codes "kasmvnc" ∷ []) none ready.whole
      ∙ ready.browser,
  host_arg_value_from-append provider_arg args (provider_arg ∷ codes "kasmvnc" ∷ []) none
      (absent-dangles provider_arg args ready.no_provider),
)

pushed-named :
    (b : Backend) (names : List Text)
    → find_backend (backend_name b) ≡ some b
    → member (backend_name b) names ≡ true
    → has_named (backend_name b) (resolve_backends names) ≡ true
pushed-named b names known h = resolve_from-named b names [] known h

find_component :
    (b : TakeoverBackend)
    → IsTakeover b
    → find_backend (backend_name b.component) ≡ some b.component
unfolding find_backend find_first text_eq
find_component b is =
    for_takeover (λ x. find_backend (backend_name x.component) ≡ some x.component) b refl refl is

takeover_known :
    (b : TakeoverBackend)
    → IsTakeover b
    → (takeover_backend b.browser ≡ some b) × (text_eq b.browser (codes "camoufox") ≡ false)
unfolding takeover_backend find_first text_eq
takeover_known b is =
    for_takeover
      (λ x. (takeover_backend x.browser ≡ some x) × (text_eq x.browser (codes "camoufox") ≡ false))
      b (refl, refl) (refl, refl) is

defaults-IsComplete :
    (args : InstallArgs) (b : TakeoverBackend)
    → args.takeover_provider ≡ kasm_vnc
    → IsChosen args.host_args b
    → dangles browser_arg args.host_args ≡ false
    → host_arg_present args.host_args provider_arg ≡ false
    → IsComplete
        (apply_hard_site_defaults args)
        (resolve_backends (apply_hard_site_defaults args).with_)
        b
unfolding apply_hard_site_defaults find_backend find_first text_eq
defaults-IsComplete args b on choice whole free =
    let is = IsChosen-IsTakeover args.host_args b choice in
    let ready = IsChosen-IsReady args.host_args b choice whole free in
    let (browser, provider) = ready-provider _ b ready is in
    let with_browser = push_backend_if_missing args.with_ (backend_name b.component) in
    rw (on, apply_hard_site_defaults)
      (rw (IsChosen-selected args.host_args b choice) (record {
        browser = browser;
        known = (takeover_known b is).0;
        provider = provider;
        component =
            pushed-named b.component (push_backend_if_missing with_browser (codes "kasmvnc"))
              (find_component b is)
              (push_backend_if_missing-keeps with_browser (codes "kasmvnc") _
                (push_backend_if_missing-member args.with_ (backend_name b.component)));
        display =
            pushed-named kasmvnc (push_backend_if_missing with_browser (codes "kasmvnc")) refl
              (push_backend_if_missing-member with_browser (codes "kasmvnc"));
        no_camoufox = (takeover_known b is).1;
      }))

defaults-provider :
    (args : InstallArgs)
    → args.takeover_provider ≡ kasm_vnc
    → (apply_hard_site_defaults args).takeover_provider ≡ kasm_vnc
unfolding apply_hard_site_defaults
defaults-provider args on = rw (on, apply_hard_site_defaults) on

-- An install with takeover on, whose arguments for the host do not name the provider and name no browser, or
-- one that can be taken over, is accepted, whatever its profile and its other backends: the host is
-- started with that browser (Brave if none was named) and the provider, and the image has the browser and
-- the display. An argument `--browser` without a value at the end is excluded.
pub prepare_install-IsComplete :
    (args : InstallArgs) (b : TakeoverBackend)
    → args.takeover_provider ≡ kasm_vnc
    → IsChosen args.host_args b
    → dangles browser_arg args.host_args ≡ false
    → host_arg_present args.host_args provider_arg ≡ false
    → (full : InstallArgs) × (backends : List Backend) × (prepare_install args
        ≡ ok (full, backends))
      × IsComplete full backends b
unfolding prepare_install
prepare_install-IsComplete args b on choice whole free =
    let full = apply_hard_site_defaults args in
    let complete = defaults-IsComplete args b on choice whole free in
    (
      full,
      resolve_backends full.with_,
      ap (λ (v : Result (Unit {0})). checked v (full, resolve_backends full.with_))
          (validate_complete full (resolve_backends full.with_) b (defaults-provider args on)
            complete),
      complete,
    )
