-- ===== src/Procmon/Container/Ids.antt =====
-- procmon/cmd/procmon/container.go: what extractContainerID finds is long enough for id[:12].
use we_term.Prelude.{
  Bool, Bool-cases, Option, Option-cases, String, ap, arith, false, if◌then◌else◌, inl, inr, none,
  refl, some, suc, true, zero, ℕ, ◌&&◌, ◌+◌, ◌≡◌,
}
use we_term.Prelude.Attempt.{done}
use we_term.Prelude.Search.{strip_prefix}
use we_term.Prelude.Text.{size}
use we_term.Procmon.Container.{
  container_of, containerd_here, docker_here, docker_name, ends_docker, ends_scope,
  extract_container_id, find_id, first_chars, id_behind, if_ends, is_hex, named_or_short, or_else,
  podman_here, push_char, resolve_container, take_hex,
}

abbrev all_hex : String → Bool
all_hex String.[] = true
all_hex (String.◌∷◌ c s) = is_hex c && all_hex s

-- a text of n characters of [0-9a-f]
abbrev IsHex : ℕ → String → Type 0
IsHex n id = (size id ≡ n) × (all_hex id ≡ true)

-- what was found, if anything was, is an id of 64 such characters
Found : Option String → Type 0
Found none = Unit
Found (some id) = IsHex 64 id

-- the same of a match with the text behind it
abbrev Taken : ℕ → Option (String × String) → Type 0
Taken n none = Unit
Taken n (some (id, rest)) = IsHex n id

push_char-Taken :
    (c : _) (n : ℕ) (taken : Option (String × String))
    → is_hex c ≡ true
    → Taken n taken
    → Taken (suc n) (push_char c taken)
push_char-Taken c n none h t = tt
push_char-Taken c n (some (id, rest)) h t = (ap suc t.0, simp (h, t.1) refl)

take_hex-Taken : (n : ℕ) (s : String) → Taken n (take_hex n s)
unfolding take_hex
take_hex-Taken zero s = (refl, refl)
take_hex-Taken (suc n) String.[] = tt
take_hex-Taken (suc n) (String.◌∷◌ c s) = elim (Bool-cases (is_hex c)) [
  | inl h ↦ simp h (push_char-Taken c n (take_hex n s) h (take_hex-Taken n s))
  | inr h ↦ simp h tt
]

if_ends-Found :
    (ends : String → Bool) (taken : Option (String × String))
    → Taken 64 taken
    → Found (if_ends ends taken)
unfolding Found
if_ends-Found ends none t = tt
if_ends-Found ends (some (id, rest)) t = elim (Bool-cases (ends rest)) [
  | inl h ↦ simp h t
  | inr h ↦ simp h tt
]

id_behind-Found : (ends : String → Bool) (s : Option String) → Found (id_behind ends s)
unfolding Found
id_behind-Found ends none = tt
id_behind-Found ends (some s) = if_ends-Found ends (take_hex 64 s) (take_hex-Taken 64 s)

or_else-Found : (a b : Option String) → Found a → Found b → Found (or_else a b)
unfolding Found
or_else-Found none b f g = g
or_else-Found (some id) b f g = f

no_id-Found : Found none
unfolding Found
no_id-Found = tt

docker_here-Found : (line_start : Bool) (s : String) → Found (docker_here line_start s)
unfolding docker_here
docker_here-Found line_start s =
    or_else-Found _ _ (behind "/docker-")
      (or_else-Found _ _ (behind "/docker/") (at_start line_start))
  where
    behind : (literal : String) → Found (id_behind ends_docker (strip_prefix literal s))
    behind literal = id_behind-Found ends_docker (strip_prefix literal s)

    at_start :
        (b : Bool)
        → Found (
            if b
            then or_else
                (id_behind ends_docker (strip_prefix "docker-" s))
                (id_behind ends_docker (strip_prefix "docker/" s))
            else none)
    at_start true = or_else-Found _ _ (behind "docker-") (behind "docker/")
    at_start false = no_id-Found

containerd_here-Found : (line_start : Bool) (s : String) → Found (containerd_here line_start s)
unfolding containerd_here
containerd_here-Found line_start s =
    or_else-Found _ _ (id_behind-Found ends_scope _) (id_behind-Found ends_scope _)

podman_here-Found : (line_start : Bool) (s : String) → Found (podman_here line_start s)
unfolding podman_here
podman_here-Found line_start s =
    or_else-Found _ _ (id_behind-Found ends_scope _) (id_behind-Found ends_scope _)

find_id-Found :
    (here : Bool → String → Option String)
    → ((b : Bool) (s : String) → Found (here b s))
    → (s : String) (line_start : Bool) → Found (find_id here line_start s)
unfolding find_id
find_id-Found here f String.[] line_start = f line_start ""
find_id-Found here f (String.◌∷◌ c s) line_start =
    or_else-Found _ _ (f line_start (String.◌∷◌ c s)) (find_id-Found here f s _)

extract_container_id-Found : (cgroup : String) → Found (extract_container_id cgroup)
unfolding extract_container_id
extract_container_id-Found cgroup =
    or_else-Found _ _ (find_id-Found docker_here docker_here-Found cgroup true) (
      or_else-Found _ _ (find_id-Found containerd_here containerd_here-Found cgroup true)
        (find_id-Found podman_here podman_here-Found cgroup true))

-- a text long enough has its first characters
first_chars-long :
    (n k : ℕ) (s : String) → size s ≡ n + k → (t : String) × (first_chars n s ≡ some t)
unfolding first_chars
first_chars-long zero k s h = ("", refl)
first_chars-long (suc n) k String.[] h = absurd (omega (arith, h))
first_chars-long (suc n) k (String.◌∷◌ c s) h =
    let (t, e) = first_chars-long n k s (omega (arith, h)) in (String.◌∷◌ c t, simp e refl)

container_of-named :
    (metadata : String → Option String) (root : String) (id : Option String)
    → Found id
    → (name : String) × (container_of metadata root id ≡ some name)
unfolding container_of named_or_short Found
container_of-named metadata root none f = ("", refl)
container_of-named metadata root (some id) f = elim (Option-cases (docker_name metadata root id)) [
  | inl e ↦ simp e (first_chars-long 12 52 id f.0)
  | inr (name, e) ↦ simp e (name, refl)
]

-- Whatever /proc/<pid>/cgroup holds and whatever Docker's metadata say, resolveContainer gives a
-- text: the slice id[:12] is never out of range.
pub resolve_container-named :
    (metadata : String → Option String) (root cgroup : String)
    → (name : String) × (resolve_container metadata root (done cgroup) ≡ done (some name))
unfolding resolve_container
resolve_container-named metadata root cgroup =
    let (name, e) = container_of-named metadata root _ (extract_container_id-Found cgroup) in
    (name, ap done e)
