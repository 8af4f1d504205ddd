-- ===== src/Procmon/Prune/Loop.antt =====
-- procmon/cmd/procmon/prune.go: which files are deleted.
use mathlib.Core.List.{Memᴰ}
use we_term.Prelude.{
  All, All-map_imp, Bool, Bool-cases, List, Option-cases, String, [], ap, arith, false,
  if◌then◌else◌, inl, inr, length, ltb, refl, some, true, ℕ, ◌&&◌, ◌+◌, ◌∷◌, ◌≡◌,
}
use we_term.Prelude.Int.{ltb_ℤ, pos, ℤ}
use we_term.Prelude.Search.{has_suffix}
use we_term.Procmon.Prune.{
  Day, DirEntry, is_before, is_pruned, listed, midnight, parse_file_date, prune_loop, prune_step,
  run_prune,
}

prune_step_lem :
    (removes : String → Bool) (pruned : Bool) (name : String) (later : List String × ℕ)
    → ((prune_step removes pruned name later).0
        ≡ (if pruned && removes name then name ∷ later.0 else later.0))
      × ((prune_step removes pruned name later).1
          ≡ (if pruned && removes name then 1 else 0) + later.1)
unfolding prune_step
prune_step_lem removes false name later = (refl, omega arith)
prune_step_lem removes true name later = elim (Bool-cases (removes name)) [
  | inl e ↦ simp e (refl, omega arith)
  | inr e ↦ simp e (refl, omega arith)
]

-- the names of the files that are pruned and can be removed, in order
abbrev pub pruned_names : (String → Bool) → ℕ → List DirEntry → List String
pruned_names removes cutoff [] = []
pruned_names removes cutoff (e ∷ entries) =
    let rest = pruned_names removes cutoff entries in
    if is_pruned cutoff e && removes e.name then e.name ∷ rest else rest

prune_loop_lem :
    (removes : String → Bool) (cutoff : ℕ) (entries : List DirEntry)
    → ((prune_loop removes cutoff entries).0 ≡ pruned_names removes cutoff entries)
      × ((prune_loop removes cutoff entries).1 ≡ length (pruned_names removes cutoff entries))
unfolding prune_loop
prune_loop_lem removes cutoff [] = (refl, refl)
prune_loop_lem removes cutoff (e ∷ entries) =
    let one =
      prune_step_lem removes (is_pruned cutoff e) e.name (prune_loop removes cutoff entries) in
    let later = prune_loop_lem removes cutoff entries in ground (arith, one, later)

-- what may be deleted: a file of the directory that has the suffix .jsonl and a date in its name
-- that began before the cutoff
abbrev pub IsOld : ℕ → List DirEntry → String → Type 0
IsOld cutoff entries name =
    (e : DirEntry) × (t : Day) × Memᴰ e entries
    × (e.name ≡ name)
    × (e.is_dir ≡ false)
    × (has_suffix name ".jsonl" ≡ true)
    × (parse_file_date name ≡ some t)
    × (ltb (midnight t) cutoff ≡ true)

is_pruned-IsOld :
    (cutoff : ℕ) (e : DirEntry) (entries : List DirEntry)
    → is_pruned cutoff e ≡ true
    → IsOld cutoff (e ∷ entries) e.name
unfolding is_pruned is_before
is_pruned-IsOld cutoff e entries h = elim (Bool-cases e.is_dir) [
  | inl d ↦ absurd (cc (simp d at h))
  | inr d ↦ elim (Bool-cases (has_suffix e.name ".jsonl")) [
    | inr f ↦ absurd (cc (simp (d, f) at h))
    | inl f ↦ elim (Option-cases (parse_file_date e.name)) [
      | inl g ↦ absurd (cc (simp (d, f, g) at h))
      | inr (t, g) ↦ (e, t, Memᴰ.head refl, refl, d, f, g, simp (d, f, g) at h)
    ]
  ]
]

IsOld-later :
    (cutoff : ℕ) (e : DirEntry) (entries : List DirEntry) (name : String)
    → IsOld cutoff entries name
    → IsOld cutoff (e ∷ entries) name
IsOld-later cutoff e entries name (k, t, m, a, b, c, d, f) = (k, t, Memᴰ.tail m, a, b, c, d, f)

pruned_names-IsOld :
    (removes : String → Bool) (cutoff : ℕ) (entries : List DirEntry)
    → All (IsOld cutoff entries) (pruned_names removes cutoff entries)
pruned_names-IsOld removes cutoff [] = tt
pruned_names-IsOld removes cutoff (e ∷ entries) =
    let later =
      All-map_imp (IsOld cutoff entries) (IsOld cutoff (e ∷ entries)) (IsOld-later cutoff e entries)
        (pruned_names removes cutoff entries) (pruned_names-IsOld removes cutoff entries) in
    elim (Bool-cases (is_pruned cutoff e && removes e.name)) [
      | inl h ↦ rw h (is_pruned-IsOld cutoff e entries (ground arith), later)
      | inr h ↦ rw h later
    ]

-- Whatever the flags, the directory and the outcomes of the removals are, procmon prune deletes
-- nothing but files of the directory whose name ends in .jsonl and carries a valid date that began
-- before the cutoff. It deletes all of these that can be removed, in the order of the directory, but
-- nothing at all, with exit code 2, for less than one day to keep.
pub run_prune-IsOld :
    (removes : String → Bool) (keep_days : ℤ) (cutoff : ℕ) (entries : List DirEntry)
    → All (IsOld cutoff entries) (run_prune removes keep_days cutoff (listed entries)).1
      × (run_prune removes keep_days cutoff (listed entries)
          ≡ (if ltb_ℤ keep_days (pos 1) then (2, []) else (0, pruned_names removes cutoff entries)))
unfolding run_prune
run_prune-IsOld removes keep_days cutoff entries = elim (Bool-cases (ltb_ℤ keep_days (pos 1))) [
  | inl h ↦ simp h (tt, refl)
  | inr h ↦
      let names = (prune_loop_lem removes cutoff entries).0 in
      simp h (rw names (pruned_names-IsOld removes cutoff entries), ap (λ ns. (0, ns)) names)
]
