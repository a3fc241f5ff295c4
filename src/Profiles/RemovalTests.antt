-- ===== src/Profiles/RemovalTests.antt =====
-- A removal, and hosts that claim the profile in its last moment.
use agent_first_http.Prelude.{ℕ, ◌≡◌, refl, some, List, [], ◌∷◌, ◌++◌, nat_eq, get, put, remove}
use agent_first_http.Errors.{profile_locked}
use agent_first_http.Profiles.Removal.{
  claim_guarding, removed, failed, used_profile, RemovalEvent, claim, remove_profile, next,
  removal_step_from, removal_step, removal_steps,
}

-- A removal that nobody disturbs, as far as its guard is dropped.
abbrev to_unlock : List RemovalEvent
to_unlock = remove_profile 1 ∷ next 1 ∷ next 1 ∷ next 1 ∷ next 1 ∷ next 1 ∷ []

abbrev claims : ℕ → List RemovalEvent
claims h = claim h ∷ next h ∷ next h ∷ next h ∷ []

undisturbed :
    get 1 (removal_steps used_profile (to_unlock ++ next 1 ∷ next 1 ∷ [])).phases ≡ some removed
unfolding removal_steps removal_step removal_step_from get put remove
undisturbed = refl

-- A host that has a guard keeps a removal out.
refused_removal :
    get 1 (removal_steps used_profile (claims 2 ++ to_unlock)).phases ≡ some (failed profile_locked)
unfolding removal_steps removal_step removal_step_from get put remove
refused_removal = refl

-- A host claims the profile between the drop of the guard and the removal of the lock file; the
-- directory is kept, but the next host makes a lock file of its own, and both have a guard.
abbrev last_moment : List RemovalEvent
last_moment = to_unlock ++ (claims 2 ++ (next 1 ∷ next 1 ∷ claims 3))

first_guards : get 2 (removal_steps used_profile last_moment).phases ≡ some (claim_guarding 1)
unfolding removal_steps removal_step removal_step_from get put remove
first_guards = refl

second_guards : get 3 (removal_steps used_profile last_moment).phases ≡ some (claim_guarding 2)
unfolding removal_steps removal_step removal_step_from get put remove
second_guards = refl
