-- ===== src/Notify/Signature.antt =====
-- inspect/notify/signature.go: a hash over the set of alerts. SHA-256 in hexadecimal is the
-- parameter `digest`.
pub mod Set
pub mod Queues
use Prim.Native.Char.{Char, code}
use we_term.Notify.Item.{AlertItem}
use we_term.Prelude.{
  Bool, List, Option, String, [], eqb, false, if◌then◌else◌, is_empty, none, refl, some, true, ◌&&◌,
  ◌==◌, ◌∷◌, ◌≡◌,
}
use we_term.Prelude.Order.{sort_by, text_leb}
use we_term.Prelude.Search.{cut, strip_prefix}
use we_term.Prelude.Text.{append, concat}

-- The two text halves behind which m[3] stands: ".stalled" and ".backlog" at the end of a text.
-- The answer is what stands before, if it is not empty and has no newline, as `(.+)` wants.
abbrev is_newline : Char → Bool
is_newline c = eqb (code c) b'\n'

-- `(.+)\.(stalled|backlog)$` on a text, where `queue` says that the text in front of `s` already
-- has a character: the third group, if the pattern matches. The group `(.+)` is greedy, and the
-- end is fixed, so the last segment decides.
unfoldable pub queue_kind : Bool → String → Option String
queue_kind queue String.[] = none
queue_kind queue (String.◌∷◌ c s) =
    let later = queue_kind true s in
    if queue && (String.◌∷◌ c s) == ".stalled"
    then some "stalled"
    else if queue && (String.◌∷◌ c s) == ".backlog"
    then some "backlog"
    else if is_newline c
    then none
    else later

-- `([^.]+)\.` and what follows, on a text: the first group and the text behind the dot
unfoldable pub split_vhost : String → Option (String × String)
unfolding cut
split_vhost s = elim (cut "." s) [ none ↦ none | some x ↦ if x.0 == "" then none else some x ]

-- normalizeFieldForSignature
unfoldable pub normalize_field : String → String
unfolding strip_prefix queue_kind split_vhost concat
normalize_field field = elim (strip_prefix "rabbitmq." field) [
  | none ↦ field
  | some rest ↦ elim (split_vhost rest) [
    | none ↦ field
    | some x ↦ elim (queue_kind false x.1) [
      | none ↦ field
      | some kind ↦ concat ("rabbitmq." ∷ x.0 ∷ "." ∷ kind ∷ [])
    ]
  ]
]

-- The key of an alert in the signature.
abbrev pub signature_key : AlertItem → String
signature_key a = concat (a.host ∷ "|" ∷ normalize_field a.field ∷ [])

-- seen[k] = struct{}{}, and the keys of the map: each key once
unfoldable pub add_key : String → List String → List String
add_key k [] = k ∷ []
add_key k (j ∷ ks) = if j == k then j ∷ ks else j ∷ add_key k ks

unfoldable pub seen_keys : List AlertItem → List String → List String
unfolding add_key
seen_keys [] ks = ks
seen_keys (a ∷ items) ks = seen_keys items (add_key (signature_key a) ks)

-- What is written to the hash: each key and a zero byte.
unfoldable pub hash_input : List String → String
unfolding append
hash_input [] = ""
hash_input (k ∷ ks) = append k (append "\0" (hash_input ks))

-- Signature
unfoldable pub signature : (String → String) → List AlertItem → String
unfolding sort_by text_leb seen_keys hash_input
signature digest items =
    if is_empty items then "" else digest (hash_input (sort_by text_leb (seen_keys items [])))

normalize_tests :
    (normalize_field "rabbitmq.bk_job.celery.api.stalled" ≡ "rabbitmq.bk_job.stalled")
    × (normalize_field "rabbitmq.bk_job.stalled" ≡ "rabbitmq.bk_job.stalled")
    × (normalize_field "cpu_usage" ≡ "cpu_usage")
    × (normalize_field "rabbitmq.v.q.stalled.backlog" ≡ "rabbitmq.v.backlog")
unfolding normalize_field
normalize_tests = (refl, refl, refl, refl)
