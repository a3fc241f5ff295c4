-- ===== src/Container/Install.antt =====
-- cli/cmd/container.rs: the options of `container install`, the defaults of an install that a person can
-- take over, and what is refused.
use agent_first_http.Prelude.{
  Text, codes, Bool, false, not, ◌&&◌, Option, none, some, List, ◌∷◌, ◌++◌, if◌then◌else◌, text_eq,
}
use agent_first_http.Errors.{new, invalid_argument, Result, ok, err}
use agent_first_http.Container.Backends.{
  Backend, backend_name, has_named, resolve_backends, TakeoverBackend, brave_takeover,
  takeover_backend, push_backend_if_missing,
}
use agent_first_http.Container.HostArgs.{host_arg_value, push_host_arg_default}

-- `Takeover` of host/bootstrap.rs; there is one provider.
pub data Takeover : Type 0 where
  off kasm_vnc : Takeover

-- The options that are read here.
pub record InstallArgs : Type 0 where
  pub profile : Option Text
  pub shm_size : Option Text
  pub takeover_provider : Takeover
  pub with_ : List Text
  pub host_args : List Text

abbrev pub install_takeover_provider : Takeover → Option Text
install_takeover_provider off = none
install_takeover_provider kasm_vnc = some (codes "kasmvnc")

-- `and_then(takeover_backend)` on an argument
abbrev pub backend_of : Option Text → Option TakeoverBackend
backend_of none = none
backend_of (some browser) = takeover_backend browser

abbrev pub backend_or_default : Option TakeoverBackend → TakeoverBackend
backend_or_default none = brave_takeover
backend_or_default (some b) = b

abbrev pub browser_arg : Text
browser_arg = codes "--browser"

abbrev pub provider_arg : Text
provider_arg = codes "--takeover-provider"

unfoldable pub selected_takeover_backend : List Text → TakeoverBackend
selected_takeover_backend host_args =
    backend_or_default (backend_of (host_arg_value host_args browser_arg))

unfoldable pub apply_hard_site_defaults : InstallArgs → InstallArgs
unfolding selected_takeover_backend push_backend_if_missing push_host_arg_default
apply_hard_site_defaults args = elim (install_takeover_provider args.takeover_provider) [
  | none ↦ args
  | some provider ↦
      let backend = selected_takeover_backend args.host_args in
      record args {
        with_ =
            push_backend_if_missing
              (push_backend_if_missing args.with_ (backend_name backend.component))
              (codes "kasmvnc");
        host_args =
            push_host_arg_default (push_host_arg_default args.host_args browser_arg backend.browser)
              provider_arg provider;
      }
]

abbrev pub effective_profile : InstallArgs → Text
effective_profile args = elim args.profile [ none ↦ codes "-" | some p ↦ p ]

abbrev pub effective_shm_size : InstallArgs → Text
effective_shm_size args = elim args.shm_size [
  | some size ↦ size
  | none ↦ elim args.takeover_provider [ off ↦ codes "1g" | kasm_vnc ↦ codes "2g" ]
]

abbrev pub refused : Result (Unit {0})
refused = err (new invalid_argument)

unfoldable pub require_hard_site_host_arg : List Text → Text → Text → Result (Unit {0})
require_hard_site_host_arg host_args name expected = elim (host_arg_value host_args name) [
  | none ↦ refused
  | some value ↦ if text_eq value expected then ok tt else refused
]

unfoldable pub validate_hard_site_install_args :
    InstallArgs → List Backend → Text → Result (Unit {0})
unfolding require_hard_site_host_arg
validate_hard_site_install_args args backends provider =
    elim (backend_of (host_arg_value args.host_args browser_arg)) [
      | none ↦ refused
      | some backend ↦
          if not (has_named (backend_name backend.component) backends)
          then refused
          else if not (has_named (codes "kasmvnc") backends)
          then refused
          else require_hard_site_host_arg args.host_args provider_arg provider
    ]

abbrev pub selects_camoufox : Option Text → Bool
selects_camoufox none = false
selects_camoufox (some browser) = text_eq browser (codes "camoufox")

unfoldable pub validate_profile : InstallArgs → List Backend → Result (Unit {0})
validate_profile args backends =
    if not (text_eq (effective_profile args) (codes "-"))
      && (has_named (codes "camoufox") backends
          && selects_camoufox (host_arg_value args.host_args browser_arg))
    then refused
    else ok tt

unfoldable pub validate_install_args : InstallArgs → List Backend → Result (Unit {0})
unfolding validate_hard_site_install_args validate_profile
validate_install_args args backends = elim (install_takeover_provider args.takeover_provider) [
  | none ↦ validate_profile args backends
  | some provider ↦ elim (validate_hard_site_install_args args backends provider) [
    | err e ↦ err e
    | ok _ ↦ validate_profile args backends
  ]
]

-- `check?; Ok(value)`
abbrev pub checked {ℓ} : {A : Type ℓ} → Result (Unit {0}) → A → Result A
checked (err e) value = err e
checked (ok _) value = ok value

-- The start of `install_result`: the arguments with their defaults, or the refusal.
unfoldable pub prepare_install : InstallArgs → Result (InstallArgs × List Backend)
unfolding apply_hard_site_defaults validate_install_args
prepare_install args =
    let full = apply_hard_site_defaults args in
    checked (validate_install_args full (resolve_backends full.with_))
      (full, resolve_backends full.with_)

-- The command that runs the container; `port` is the text of the port.
unfoldable pub run_args : Text → Text → Text → Text → Text → List Text → List Text
run_args name image port profile shm_size host_args =
    codes "run"
    ∷ codes "-d"
    ∷ codes "--name"
    ∷ name
    ∷ codes "-v"
    ∷ (name ++ codes "-data:/data")
    ∷ codes "-e"
    ∷ (codes "AFHTTP_PORT=" ++ port)
    ∷ codes "-e"
    ∷ (codes "AFHTTP_PROFILE=" ++ profile)
    ∷ codes "--shm-size"
    ∷ shm_size
    ∷ codes "-p"
    ∷ (codes "127.0.0.1:" ++ (port ++ (codes ":" ++ port)))
    ∷ image
    ∷ host_args
