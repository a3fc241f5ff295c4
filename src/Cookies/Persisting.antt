-- ===== src/Cookies/Persisting.antt =====
-- `persist` as an update of the file: the entries this jar changed, over what the file holds now.
use agent_first_http.Prelude.{
  ℕ, suc, ◌≡◌, refl, Bool, true, false, not, ◌&&◌, Option, none, some, List, [], ◌∷◌, arith,
  if◌then◌else◌, if_intro, ℤ, All, keep, keep-All,
}
use agent_first_http.Cookies.Entry.{JarEntry, same_identity, is_expired}
use agent_first_http.Cookies.Jar.{
  CookieJar, put_entry, was_updated, replay, prune_expired, persist_entries,
}
use agent_first_http.Cookies.Identity.{
  stored, stored-put_entry, IsUnique, put_entry-IsUnique, same_identity_sym, same_identity_trans,
}

-- The last entry of the identity of `k` among those marked as changed, counting from index `i`.
unfoldable pub last_update : List ℕ → ℕ → List JarEntry → JarEntry → Option JarEntry
last_update updated i [] k = none
last_update updated i (e ∷ es) k = elim (last_update updated (suc i) es k) [
  | some x ↦ some x
  | none ↦ if was_updated updated i && same_identity e k then some e else none
]

-- `a`, or else `b`
abbrev pub or_else : Option JarEntry → Option JarEntry → Option JarEntry
or_else none b = b
or_else (some x) b = some x

-- An entry that has not expired.
abbrev pub live : ℤ → Option JarEntry → Option JarEntry
live now none = none
live now (some e) = if is_expired e now then none else some e

replay-IsUnique :
    (updated : List ℕ) (i : ℕ) (es disk : List JarEntry)
    → IsUnique disk
    → IsUnique (replay updated i es disk)
unfolding replay
replay-IsUnique updated i [] disk h = h
replay-IsUnique updated i (e ∷ es) disk h =
    replay-IsUnique updated (suc i) es (if was_updated updated i then put_entry e disk else disk)
      (if_intro IsUnique (was_updated updated i) (λ _. put_entry-IsUnique e disk h) (λ _. h))

stored-replay :
    (updated : List ℕ) (i : ℕ) (es disk : List JarEntry) (k : JarEntry)
    → stored k (replay updated i es disk) ≡ or_else (last_update updated i es k) (stored k disk)
unfolding replay last_update
stored-replay updated i [] disk k = refl
stored-replay updated i (e ∷ es) disk k = ground (
  arith,
  stored-replay updated (suc i) es (if was_updated updated i then put_entry e disk else disk) k,
  stored-put_entry e k disk,
)

-- In a list with one entry for each identity, what is not stored is nowhere.
stored-All :
    (k x : JarEntry) (xs : List JarEntry)
    → same_identity x k ≡ true
    → All (λ y. same_identity x y ≡ false) xs
    → stored k xs ≡ none
unfolding stored
stored-All k x [] s h = refl
stored-All k x (y ∷ ys) s h =
    ground (arith, h.0, stored-All k x ys s h.1, same_identity_sym y k, same_identity_trans x k y)

All-keep {κ} :
    (P : JarEntry → Type κ) (p : JarEntry → Bool) (xs : List JarEntry)
    → All P xs
    → All P (keep p xs)
unfolding keep
All-keep P p [] h = tt
All-keep P p (x ∷ xs) h =
    if_intro (All P) (p x) (λ _. (h.0, All-keep P p xs h.1)) (λ _. All-keep P p xs h.1)

keep-IsUnique : (p : JarEntry → Bool) (xs : List JarEntry) → IsUnique xs → IsUnique (keep p xs)
unfolding keep
keep-IsUnique p [] h = tt
keep-IsUnique p (x ∷ xs) h =
    if_intro IsUnique (p x)
      (λ _. (All-keep (λ y. same_identity x y ≡ false) p xs h.0, keep-IsUnique p xs h.1))
      (λ _. keep-IsUnique p xs h.1)

stored-prune_expired :
    (now : ℤ) (k : JarEntry) (es : List JarEntry)
    → IsUnique es
    → stored k (prune_expired now es) ≡ live now (stored k es)
unfolding prune_expired keep stored
stored-prune_expired now k [] h = refl
stored-prune_expired now k (x ∷ xs) h = ground (
  arith,
  stored-prune_expired now k xs h.1,
  λ (s : same_identity x k ≡ true). stored-All k x xs s h.0,
)

-- Where the file held at most one entry for each identity, what `persist` writes does too, holds no
-- expired entry, and holds for each identity the last entry that this jar changed, or else what the
-- file held when it was read under the lock, unless that has expired.
pub persist_entries_lem :
    (now : ℤ) (jar : CookieJar) (disk : List JarEntry)
    → IsUnique disk
    → let written = persist_entries now jar disk in
      IsUnique written
      × All (λ e. not (is_expired e now) ≡ true) written
      × ((k : JarEntry)
          → stored k written
            ≡ live now (or_else (last_update jar.updated 0 jar.entries k) (stored k disk)))
unfolding persist_entries
persist_entries_lem now jar disk h =
    let u = replay-IsUnique jar.updated 0 jar.entries disk h in
    let merged = replay jar.updated 0 jar.entries disk in
    (
      keep-IsUnique (λ e. not (is_expired e now)) merged u,
      keep-All (λ e. not (is_expired e now)) merged,
      λ k. rw (stored-prune_expired now k merged u, stored-replay jar.updated 0 jar.entries disk k),
    )
