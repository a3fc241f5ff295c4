-- ===== src/Container/Chosen.antt =====
-- The browser that an install chooses, and arguments that are complete.
use agent_first_http.Prelude.{
  Text, codes, Bool, true, false, not, ◌&&◌, ◌||◌, ◌≡◌, refl, sym, ap, ◌∙◌, Option, none, some,
  List, [], ◌∷◌, ◌++◌, inl, inr, ◌⊎◌, if◌then◌else◌, text_eq, text_eq_iff, any, text_keys,
  find_first, starts_with, strip_prefix, Bool-cases, arith, subst,
}
use agent_first_http.Errors.{ok}
use agent_first_http.Container.Backends.{
  Backend, backend_name, has_named, TakeoverBackend, brave_takeover, chrome_takeover,
  takeover_backend,
}
use agent_first_http.Container.HostArgs.{
  eq_prefix, host_arg_present, host_arg_value_from, host_arg_value,
}
use agent_first_http.Container.Install.{
  kasm_vnc, InstallArgs, backend_of, backend_or_default, browser_arg, provider_arg,
  selected_takeover_backend, effective_profile, refused, require_hard_site_host_arg,
  validate_hard_site_install_args, selects_camoufox, validate_profile, validate_install_args,
}
use agent_first_http.Container.Defaults.{host_arg_value_from-absent, dangles}

-- What the validation reads of the full arguments.
pub record IsComplete (args : InstallArgs) (backends : List Backend) (b : TakeoverBackend)
    : Type 0 where
  pub browser : host_arg_value args.host_args browser_arg ≡ some b.browser
  pub known : takeover_backend b.browser ≡ some b
  pub provider : host_arg_value args.host_args provider_arg ≡ some (codes "kasmvnc")
  pub component : has_named (backend_name b.component) backends ≡ true
  pub display : has_named (codes "kasmvnc") backends ≡ true
  pub no_camoufox : text_eq b.browser (codes "camoufox") ≡ false

-- A browser that can be taken over is Brave or Chrome.
abbrev pub IsTakeover : TakeoverBackend → Type 0
IsTakeover b = (b ≡ brave_takeover) ⊎ (b ≡ chrome_takeover)

pub for_takeover :
    (P : TakeoverBackend → Type 0) (b : TakeoverBackend)
    → P brave_takeover
    → P chrome_takeover
    → IsTakeover b
    → P b
for_takeover P b p q (inl e) = subst P (sym e) p
for_takeover P b p q (inr e) = subst P (sym e) q

pub takeover_backend-cases :
    (name : Text) (b : TakeoverBackend)
    → takeover_backend name ≡ some b
    → (name ≡ b.browser) × IsTakeover b
unfolding takeover_backend find_first
takeover_backend-cases name b e = elim (Bool-cases (text_eq (codes "brave") name)) [
  | inl hit ↦
      let same : some brave_takeover ≡ some b = rw hit at e in
      let equal : brave_takeover ≡ b = cc in
      (
        sym ((text_eq_iff (codes "brave") name).0 hit)
            ∙ ap (λ (x : TakeoverBackend). x.browser) equal,
        inl (sym equal),
      )
  | inr miss ↦ elim (Bool-cases (text_eq (codes "chrome") name)) [
    | inl hit ↦
        let same : some chrome_takeover ≡ some b = rw (miss, hit) at e in
        let equal : chrome_takeover ≡ b = cc in
        (
          sym ((text_eq_iff (codes "chrome") name).0 hit)
              ∙ ap (λ (x : TakeoverBackend). x.browser) equal,
          inr (sym equal),
        )
    | inr none_ ↦ let bad : none ≡ some b = rw (miss, none_) at e in cc
  ]
]

-- The arguments of the host name no browser, or one that can be taken over.
abbrev pub IsChosen : List Text → TakeoverBackend → Type 0
IsChosen host_args b =
    ((host_arg_present host_args browser_arg ≡ false) × (b ≡ brave_takeover))
    ⊎ ((name : Text) × ((host_arg_value host_args browser_arg ≡ some name)
          × (takeover_backend name ≡ some b)))

pub IsChosen-IsTakeover :
    (host_args : List Text) (b : TakeoverBackend) → IsChosen host_args b → IsTakeover b
IsChosen-IsTakeover host_args b (inl (absent, e)) = inl e
IsChosen-IsTakeover host_args b (inr (name, (value, known))) =
    (takeover_backend-cases name b known).1

pub IsChosen-selected :
    (host_args : List Text) (b : TakeoverBackend)
    → IsChosen host_args b
    → selected_takeover_backend host_args ≡ b
unfolding selected_takeover_backend
IsChosen-selected host_args b (inl (absent, e)) =
    ap (λ (o : Option Text). backend_or_default (backend_of o))
      (host_arg_value_from-absent browser_arg none host_args absent)
    ∙ sym e
IsChosen-selected host_args b (inr (name, (value, known))) =
    ap (λ (o : Option Text). backend_or_default (backend_of o)) value ∙ ap backend_or_default known

-- The arguments with the browser, before those of the provider.
pub record IsReady (args : List Text) (b : TakeoverBackend) : Type 0 where
  pub browser : host_arg_value args browser_arg ≡ some b.browser
  pub whole : dangles browser_arg args ≡ false
  pub no_provider : host_arg_present args provider_arg ≡ false

pub dangles-append :
    (name x y : Text) (xs : List Text) → dangles name (xs ++ (x ∷ y ∷ [])) ≡ text_eq y name
dangles-append name x y [] = refl
dangles-append name x y (a ∷ []) = refl
dangles-append name x y (a ∷ b ∷ rest) = dangles-append name x y (b ∷ rest)

pub right_false : (a b : Bool) → (a || b) ≡ false → b ≡ false
right_false true b h = cc
right_false false b h = h

pub absent-dangles :
    (name : Text) (xs : List Text) → host_arg_present xs name ≡ false → dangles name xs ≡ false
unfolding host_arg_present any
absent-dangles name [] h = refl
absent-dangles name (x ∷ []) h = ground arith
absent-dangles name (x ∷ y ∷ rest) h =
    absent-dangles name (y ∷ rest)
      (right_false (text_eq x name || starts_with (eq_prefix name) x) _ h)

pub pushed_browser :
    (host_args : List Text) (b : TakeoverBackend)
    → IsTakeover b
    → host_arg_value_from browser_arg none (browser_arg ∷ b.browser ∷ []) ≡ some b.browser
unfolding host_arg_value_from text_eq strip_prefix
pushed_browser host_args b is =
    for_takeover
      (λ x. host_arg_value_from browser_arg none (browser_arg ∷ x.browser ∷ []) ≡ some x.browser) b
      refl refl is

pub validate_hard_site_install_args_complete :
    (args : InstallArgs) (backends : List Backend) (b : TakeoverBackend)
    → IsComplete args backends b
    → validate_hard_site_install_args args backends (codes "kasmvnc") ≡ ok tt
unfolding validate_hard_site_install_args require_hard_site_host_arg text_eq
validate_hard_site_install_args_complete args backends b h =
    rw (h.browser, validate_hard_site_install_args)
      (rw (h.known)
        (rw (h.component, h.display) (rw (h.provider, require_hard_site_host_arg) refl)))

pub validate_profile_complete :
    (args : InstallArgs) (backends : List Backend) (b : TakeoverBackend)
    → IsComplete args backends b
    → validate_profile args backends ≡ ok tt
unfolding validate_profile
validate_profile_complete args backends b h =
    let no_camoufox : selects_camoufox (host_arg_value args.host_args browser_arg) ≡ false =
      ap selects_camoufox h.browser ∙ h.no_camoufox in
    never (not (text_eq (effective_profile args) (codes "-")))
      (has_named (codes "camoufox") backends)
      (selects_camoufox (host_arg_value args.host_args browser_arg)) no_camoufox
  where
    never : (a c d : Bool) → d ≡ false → (if a && (c && d) then refused else ok tt) ≡ ok tt
    never true true true e = cc
    never true true false e = refl
    never true false d e = refl
    never false c d e = refl

pub validate_complete :
    (args : InstallArgs) (backends : List Backend) (b : TakeoverBackend)
    → args.takeover_provider ≡ kasm_vnc
    → IsComplete args backends b
    → validate_install_args args backends ≡ ok tt
unfolding validate_install_args
validate_complete args backends b on h =
    rw (on, validate_install_args)
      (rw (validate_hard_site_install_args_complete args backends b h)
        (validate_profile_complete args backends b h))
