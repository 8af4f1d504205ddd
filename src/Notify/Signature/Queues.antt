-- ===== src/Notify/Signature/Queues.antt =====
-- inspect/notify/signature.go: the fields of the stalled queues of one vhost.
use Prim.Native.Char.{Char, code}
use mathlib.Core.Path.{ap₂}
use we_term.Notify.Item.{AlertItem}
use we_term.Notify.Signature.{normalize_field, queue_kind, signature, signature_key, split_vhost}
use we_term.Notify.Signature.Set.{has_signature_key, signature_of_keys}
use we_term.Prelude.{
  Bool, Bool-cases, List, String, [], ap, arith, eq_iff, eqb, false, inl, inr, not, refl, some, sym,
  true, ◌&&◌, ◌+◌, ◌==◌, ◌||◌, ◌∙◌, ◌∷◌, ◌≡◌,
}
use we_term.Prelude.Search.{cut, strip_prefix}
use we_term.Prelude.Text.{append, concat, size}

-- no character of the text is a dot, or none a line feed
abbrev pub no_dot : String → Bool
no_dot String.[] = true
no_dot (String.◌∷◌ c s) = not (eqb 46 (code c)) && no_dot s

abbrev pub one_line : String → Bool
one_line String.[] = true
one_line (String.◌∷◌ c s) = not (eqb (code c) b'\n') && one_line s

size-append : (s t : String) → size (append s t) ≡ size s + size t
unfolding append
size-append String.[] t = omega arith
size-append (String.◌∷◌ c s) t = omega (arith, size-append s t)

cut-dot : (v t : String) → no_dot v ≡ true → cut "." (append v (append "." t)) ≡ some (v, t)
unfolding cut append strip_prefix
cut-dot String.[] t h = refl
cut-dot (String.◌∷◌ c v) t h = ground (arith, cut-dot v t (ground arith))

longer_text : (s : String) (c : Char) → (String.◌∷◌ c (append s ".stalled") == ".backlog") ≡ false
longer_text s c = elim (Bool-cases (String.◌∷◌ c (append s ".stalled") == ".backlog")) [
  | inr e ↦ e
  | inl e ↦ absurd (
      omega (
        arith,
        size-append s ".stalled",
        ap size ((eq_iff (String.◌∷◌ c (append s ".stalled")) ".backlog").0 e),
      ))
]

queue_kind-stalled_behind :
    (queue : Bool) (s : String)
    → (queue || not (s == "")) ≡ true
    → one_line s ≡ true
    → queue_kind queue (append s ".stalled") ≡ some "stalled"
unfolding queue_kind append
queue_kind-stalled_behind true String.[] f h = refl
queue_kind-stalled_behind false String.[] f h = absurd (ground arith)
queue_kind-stalled_behind queue (String.◌∷◌ c s) f h =
    ground (arith, longer_text s c, queue_kind-stalled_behind true s refl (ground arith))

strip_rabbitmq : (t : String) → strip_prefix "rabbitmq." (append "rabbitmq." t) ≡ some t
unfolding strip_prefix append
strip_rabbitmq t = refl

-- the field of a stalled queue
abbrev pub stalled_field : String → String → String
stalled_field vhost queue = append "rabbitmq." (append vhost (append "." (append queue ".stalled")))

-- The field of a stalled queue is normalised to that of its vhost, for a vhost without a dot and a
-- queue whose name has no line feed, both not empty.
normalize_field-stalled_field :
    (vhost queue : String)
    → no_dot vhost ≡ true
    → (vhost == "") ≡ false
    → one_line queue ≡ true
    → (queue == "") ≡ false
    → normalize_field (stalled_field vhost queue) ≡ append "rabbitmq." (append vhost ".stalled")
unfolding normalize_field split_vhost concat
normalize_field-stalled_field vhost queue d v l q = ground (
  arith,
  strip_rabbitmq (append vhost (append "." (append queue ".stalled"))),
  cut-dot vhost (append queue ".stalled") d,
  queue_kind-stalled_behind false queue (ground arith) l,
)

-- When the stalled queue of an alert is another one of the same vhost, the signature is the same,
-- whatever the other alerts are: no new mail is due to it. The vhost has no dot, the names of the
-- queues no line feed, and none is empty.
signature-stalled_field :
    (digest : String → String) (vhost queue queue' : String) (a b : AlertItem)
    (items : List AlertItem)
    → no_dot vhost ≡ true
    → (vhost == "") ≡ false
    → (one_line queue ≡ true) × ((queue == "") ≡ false)
    → (one_line queue' ≡ true) × ((queue' == "") ≡ false)
    → a.host ≡ b.host
    → (a.field ≡ stalled_field vhost queue) × (b.field ≡ stalled_field vhost queue')
    → signature digest (a ∷ items) ≡ signature digest (b ∷ items)
signature-stalled_field digest vhost queue queue' a b items d v q q' host fields =
    signature_of_keys digest (a ∷ items) (b ∷ items)
      (λ k. ap (λ key. key == k || has_signature_key k items) same_key)
  where
    same_field : normalize_field a.field ≡ normalize_field b.field
    same_field =
        ap normalize_field fields.0
        ∙ normalize_field-stalled_field vhost queue d v q.0 q.1
        ∙ sym (normalize_field-stalled_field vhost queue' d v q'.0 q'.1)
        ∙ sym (ap normalize_field fields.1)

    same_key : signature_key a ≡ signature_key b
    same_key = ap₂ (λ h f. concat (h ∷ "|" ∷ f ∷ [])) host same_field
