-- ===== src/Container/HostArgs.antt =====
-- cli/cmd/container.rs: the arguments that are passed on to the host of the container.
use agent_first_http.Prelude.{
  Text, codes, Bool, ◌||◌, Option, none, some, List, [], ◌∷◌, ◌++◌, if◌then◌else◌, text_eq, any,
  starts_with, strip_prefix,
}

abbrev pub eq_prefix : Text → Text
eq_prefix name = name ++ codes "="

unfoldable pub host_arg_present : List Text → Text → Bool
host_arg_present host_args name =
    any (λ arg. text_eq arg name || starts_with (eq_prefix name) arg) host_args

-- The value after an argument that is the name: what is next, if anything is.
abbrev pub next_or : Option Text → List Text → Option Text
next_or value [] = value
next_or value (next ∷ _) = some next

abbrev pub some_or {ℓ} : {A : Type ℓ} → Option A → Option A → Option A
some_or none old = old
some_or (some a) old = some a

-- The loop of `host_arg_value`; the value that is next is looked at again as an argument.
unfoldable pub host_arg_value_from : Text → Option Text → List Text → Option Text
host_arg_value_from name value [] = value
host_arg_value_from name value (arg ∷ rest) =
    host_arg_value_from name
      (if text_eq arg name
        then next_or value rest
        else some_or (strip_prefix (eq_prefix name) arg) value)
      rest

abbrev pub host_arg_value : List Text → Text → Option Text
host_arg_value host_args name = host_arg_value_from name none host_args

unfoldable pub push_host_arg_default : List Text → Text → Text → List Text
unfolding host_arg_present
push_host_arg_default host_args name value =
    if host_arg_present host_args name then host_args else host_args ++ (name ∷ value ∷ [])
