-- ===== src/Procmon/Container.antt =====
-- procmon/cmd/procmon/container.go: the container of a process. Each of the three regular
-- expressions is a search that tries every position of the text in turn. `metadata` is what reading
-- and decoding a metadata file of Docker gives: the field Name, with none for an error.
pub mod Ids
use Prim.Native.Char.{Char, code}
use we_term.Prelude.{
  Bool, Option, String, [], eqb, if◌then◌else◌, leb, none, some, suc, true, zero, ℕ, ◌&&◌, ◌==◌,
  ◌||◌, ◌∷◌,
}
use we_term.Prelude.Attempt.{Attempt, done, fail}
use we_term.Prelude.Search.{has_prefix, strip_prefix}
use we_term.Prelude.Text.{concat}
use we_term.Procmon.Collect.{ReadError}

-- one character of [0-9a-f]
unfoldable pub is_hex : Char → Bool
is_hex c = leb 48 (code c) && leb (code c) 57 || leb 97 (code c) && leb (code c) 102

abbrev pub push_char : Char → Option (String × String) → Option (String × String)
push_char c none = none
push_char c (some (taken, rest)) = some (String.◌∷◌ c taken, rest)

-- [0-9a-f]{n} at the start of a text: what it matches, and the rest
unfoldable pub take_hex : ℕ → String → Option (String × String)
take_hex zero s = some ("", s)
take_hex (suc n) String.[] = none
take_hex (suc n) (String.◌∷◌ c s) =
    let rest = take_hex n s in if is_hex c then push_char c rest else none

abbrev pub or_else {ℓ} : {A : Type ℓ} → Option A → Option A → Option A
or_else none other = other
or_else (some a) other = some a

abbrev pub if_ends : (String → Bool) → Option (String × String) → Option String
if_ends ends none = none
if_ends ends (some (id, rest)) = if ends rest then some id else none

-- ([0-9a-f]{64}) and what must follow it, at the start of a text
abbrev pub id_behind : (String → Bool) → Option String → Option String
id_behind ends none = none
id_behind ends (some s) = if_ends ends (take_hex 64 s)

-- (?:\.scope|/|$), where $ is also the end of a line
unfoldable pub ends_docker : String → Bool
ends_docker rest =
    has_prefix rest ".scope" || has_prefix rest "/" || rest == "" || has_prefix rest "\n"

unfoldable pub ends_scope : String → Bool
ends_scope rest = has_prefix rest ".scope"

-- dockerIDRE at one position, which may be the start of a line
unfoldable pub docker_here : Bool → String → Option String
docker_here line_start s = or_else (id_behind ends_docker (strip_prefix "/docker-" s)) (
    or_else (id_behind ends_docker (strip_prefix "/docker/" s)) (
      if line_start
      then or_else (id_behind ends_docker (strip_prefix "docker-" s))
          (id_behind ends_docker (strip_prefix "docker/" s))
      else none))

-- containerdIDRE at one position
unfoldable pub containerd_here : Bool → String → Option String
containerd_here line_start s =
    or_else (id_behind ends_scope (strip_prefix "cri-containerd-" s))
      (id_behind ends_scope (strip_prefix "containerd-" s))

-- podmanIDRE at one position
unfoldable pub podman_here : Bool → String → Option String
podman_here line_start s =
    or_else (id_behind ends_scope (strip_prefix "libpod-" s))
      (id_behind ends_scope (strip_prefix "podman-" s))

-- FindStringSubmatch: the first position at which there is a match
unfoldable pub find_id : (Bool → String → Option String) → Bool → String → Option String
find_id here line_start String.[] = here line_start ""
find_id here line_start (String.◌∷◌ c s) =
    let later = find_id here (eqb (code c) 10) s in or_else (here line_start (String.◌∷◌ c s)) later

-- extractContainerID, with none for ""
unfoldable pub extract_container_id : String → Option String
extract_container_id cgroup =
    or_else (find_id docker_here true cgroup)
      (or_else (find_id containerd_here true cgroup) (find_id podman_here true cgroup))

-- meta.Name without the leading '/'
unfoldable pub without_slash : String → String
without_slash String.[] = ""
without_slash (String.◌∷◌ c s) = if eqb (code c) 47 then s else String.◌∷◌ c s

unfoldable pub docker_name : (String → Option String) → String → String → Option String
docker_name metadata root id = elim (metadata (concat (root ∷ "/" ∷ id ∷ "/config.v2.json" ∷ []))) [
  | none ↦ none
  | some name ↦ if name == "" then none else some (without_slash name)
]

-- id[:n], with none where the text is shorter, at which Go panics
unfoldable pub first_chars : ℕ → String → Option String
first_chars zero s = some ""
first_chars (suc n) String.[] = none
first_chars (suc n) (String.◌∷◌ c s) = elim (first_chars n s) [
  | none ↦ none
  | some t ↦ some (String.◌∷◌ c t)
]

-- the container of an id, with none for a panic
unfoldable pub named_or_short : Option String → String → Option String
named_or_short (some name) id = some name
named_or_short none id = first_chars 12 id

unfoldable pub container_of : (String → Option String) → String → Option String → Option String
container_of metadata root none = some ""
container_of metadata root (some id) = named_or_short (docker_name metadata root id) id

-- resolveContainer, on what readCgroup answers
unfoldable pub resolve_container :
    (String → Option String) → String → Attempt ReadError String → Attempt ReadError (Option String)
resolve_container metadata root (fail e) = fail e
resolve_container metadata root (done cgroup) =
    done (container_of metadata root (extract_container_id cgroup))
