-- ===== src/Prelude/Fields.antt =====
-- strings.Fields, strings.Split for a longer separator and strings.Join.
pub mod RoundTrip
use we_term.Prelude.{
  Bool, List, String, [], false, if◌then◌else◌, not, refl, suc, true, zero, ℕ, ◌&&◌, ◌-◌, ◌∷◌, ◌≡◌,
  ◌≢◌,
}
use we_term.Prelude.Search.{has_prefix, strip_prefix}
use we_term.Prelude.Text.{append, size}
use we_term.Prelude.Words.{glue, is_space}

-- a word starts here
abbrev pub starts_word : String → Bool
starts_word String.[] = false
starts_word (String.◌∷◌ c s) = not (is_space c)

-- strings.Fields: the words between the spaces
unfoldable pub fields : String → List String
fields String.[] = []
fields (String.◌∷◌ c s) =
    let rest = fields s in
    if is_space c then rest else if starts_word s then glue c rest else String.◌∷◌ c "" ∷ rest

-- the pieces between the occurrences of the separator, while `skip` characters of one are still to
-- pass
unfoldable split_from : String → ℕ → String → List String
unfolding has_prefix
split_from sep skip String.[] = "" ∷ []
split_from sep (suc skip) (String.◌∷◌ c s) = split_from sep skip s
split_from sep zero (String.◌∷◌ c s) =
    let behind = split_from sep (size sep - 1) s in
    let rest = split_from sep 0 s in
    if has_prefix (String.◌∷◌ c s) sep then "" ∷ behind else glue c rest

-- strings.Split, for a separator that is not empty
unfoldable pub split_text : String → String → List String
unfolding split_from
split_text sep s = split_from sep 0 s

-- strings.Join
unfoldable pub join : String → List String → String
join sep [] = ""
join sep (w ∷ []) = w
join sep (w ∷ v ∷ ws) = append w (append sep (join sep (v ∷ ws)))

-- a word of strings.Fields: not empty, and without spaces
abbrev pub no_space : String → Bool
no_space String.[] = true
no_space (String.◌∷◌ c s) = not (is_space c) && no_space s

abbrev pub IsWord : String → Type 0
IsWord w = (starts_word w ≡ true) × (no_space w ≡ true)

split_crlf_test : split_text "\r\n" "a\r\nb\n\r\n" ≡ "a" ∷ "b\n" ∷ "" ∷ []
unfolding split_text split_from has_prefix strip_prefix
split_crlf_test = refl

fields_test : fields " a  bc d " ≡ "a" ∷ "bc" ∷ "d" ∷ []
unfolding fields is_space
fields_test = refl
