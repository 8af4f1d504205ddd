-- ===== src/Collector/Service/Order.antt =====
-- inspect/collector/service.go: CollectAllServices, whose goroutines end in any order.
use mathlib.Core.List.{Permᴰ, append-nil, append_assoc}
use mathlib.Core.Path.{subst}
use we_term.Collector.Registry.{SubModule}
use we_term.Model.Host.{ServiceStatus}
use we_term.Prelude.{
  Bool, Bool-cases, List, String, [], ap, eq_iff, false, if◌then◌else◌, inl, inr, none, refl, some,
  sym, true, ◌++◌, ◌==◌, ◌∙◌, ◌∷◌, ◌≡◌,
}
use we_term.Prelude.Assoc.{insert, lookup, lookup_or, lookup_or-insert}

-- results[module] = append(results[module], status), under the mutex
unfoldable pub add_status :
    String × ServiceStatus → List (String × List ServiceStatus) → List (String × List ServiceStatus)
add_status (key, status) results = insert key (lookup_or [] key results ++ (status ∷ [])) results

-- the goroutines one behind the other, in the order in which they take the mutex
unfoldable pub add_all :
    List (String × ServiceStatus)
    → List (String × List ServiceStatus)
    → List (String × List ServiceStatus)
add_all [] results = results
add_all (end ∷ ends) results = add_all ends (add_status end results)

-- the statuses of a module, in the order in which they were appended
abbrev pub statuses_of : String → List (String × ServiceStatus) → List ServiceStatus
statuses_of key [] = []
statuses_of key ((k, status) ∷ ends) =
    if k == key then status ∷ statuses_of key ends else statuses_of key ends

-- CollectAllServices: the goroutines that are started, as the module and the address of each
unfoldable pub started_for : String → List String → List (String × String)
started_for key [] = []
started_for key (ip ∷ ips) = (key, ip) ∷ started_for key ips

unfoldable pub started :
    List (String × List SubModule) → List (String × List String) → List (String × String)
started registry [] = []
started registry ((key, ips) ∷ hosts) = elim (lookup key registry) [
  | none ↦ started registry hosts
  | some subs ↦ started_for key ips ++ started registry hosts
]

lookup_or-add_status :
    (end : String × ServiceStatus) (results : List (String × List ServiceStatus)) (key : String)
    (later : List ServiceStatus)
    → lookup_or [] key (add_status end results) ++ later
      ≡ lookup_or [] key results ++ (if end.0 == key then end.1 ∷ later else later)
unfolding add_status
lookup_or-add_status (k, status) results key later = elim (Bool-cases (k == key)) [
  | inl e ↦
      ap (λ x. x ++ later) (lookup_or-insert [] k key _ results)
      ∙ rw e (
          append_assoc (lookup_or [] k results) (status ∷ []) later
          ∙ ap (λ j. lookup_or [] j results ++ (status ∷ later)) ((eq_iff k key).0 e))
  | inr e ↦ ap (λ x. x ++ later) (lookup_or-insert [] k key _ results) ∙ rw e refl
]

lookup_or-add_all :
    (ends : List (String × ServiceStatus)) (results : List (String × List ServiceStatus))
    (key : String)
    → lookup_or [] key (add_all ends results) ≡ lookup_or [] key results ++ statuses_of key ends
unfolding add_all
lookup_or-add_all [] results key = sym (append-nil _)
lookup_or-add_all (end ∷ ends) results key =
    lookup_or-add_all ends (add_status end results) key
    ∙ lookup_or-add_status end results key (statuses_of key ends)

perm_refl {ℓ} : {A : Type ℓ} (xs : List A) → Permᴰ xs xs
perm_refl [] = Permᴰ.nil
perm_refl (x ∷ xs) = Permᴰ.cons refl (perm_refl xs)

perm_cons_if {ℓ} :
    {A : Type ℓ} (b : Bool) (x : A) {xs ys : List A}
    → Permᴰ xs ys
    → Permᴰ (if b then x ∷ xs else xs) (if b then x ∷ ys else ys)
perm_cons_if true x d = Permᴰ.cons refl d
perm_cons_if false x d = d

perm_swap_if {ℓ} :
    {A : Type ℓ} (b c : Bool) (x y : A) (xs : List A)
    → Permᴰ
        (if b then x ∷ (if c then y ∷ xs else xs) else if c then y ∷ xs else xs)
        (if c then y ∷ (if b then x ∷ xs else xs) else if b then x ∷ xs else xs)
perm_swap_if true true x y xs = Permᴰ.swap refl refl
perm_swap_if true false x y xs = perm_refl (x ∷ xs)
perm_swap_if false true x y xs = perm_refl (y ∷ xs)
perm_swap_if false false x y xs = perm_refl xs

statuses_of-Permᴰ :
    (key : String) {ends ends' : List (String × ServiceStatus)}
    → Permᴰ ends ends'
    → Permᴰ (statuses_of key ends) (statuses_of key ends')
statuses_of-Permᴰ key Permᴰ.nil = Permᴰ.nil
statuses_of-Permᴰ key (Permᴰ.cons {a = a} {l₁ = l₁} {l₂ = l₂} e d) =
    subst (λ b. Permᴰ (statuses_of key (a ∷ l₁)) (statuses_of key (b ∷ l₂))) e
      (perm_cons_if (a.0 == key) a.1 (statuses_of-Permᴰ key d))
statuses_of-Permᴰ key (Permᴰ.swap {a = a} {b = b} {a' = a'} {l = l} e f) =
    subst (λ b'. Permᴰ (statuses_of key (a ∷ b ∷ l)) (statuses_of key (a' ∷ b' ∷ l))) e
      (subst (λ a'. Permᴰ (statuses_of key (a ∷ b ∷ l)) (statuses_of key (a' ∷ a ∷ l))) f
        (perm_swap_if (a.0 == key) (b.0 == key) a.1 b.1 (statuses_of key l)))
statuses_of-Permᴰ key (Permᴰ.trans d d') =
    Permᴰ.trans (statuses_of-Permᴰ key d) (statuses_of-Permᴰ key d')

-- In whatever order the goroutines take the mutex, no status is lost or doubled: what is stored for
-- a module in one order is a permutation of what is stored in another, and it is the module's
-- statuses in the order of the appends.
pub add_all-Permᴰ :
    (key : String) {ends ends' : List (String × ServiceStatus)}
    → Permᴰ ends ends'
    → (lookup_or [] key (add_all ends []) ≡ statuses_of key ends)
      × Permᴰ (lookup_or [] key (add_all ends [])) (lookup_or [] key (add_all ends' []))
unfolding lookup_or lookup
add_all-Permᴰ key {ends} {ends'} d =
    let stored : (es : List (String × ServiceStatus))
        → lookup_or [] key (add_all es []) ≡ statuses_of key es =
      λ es. lookup_or-add_all es [] key in
    (stored ends, rw (stored ends) (rw (stored ends') (statuses_of-Permᴰ key d)))
