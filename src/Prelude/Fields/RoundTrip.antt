-- ===== src/Prelude/Fields/RoundTrip.antt =====
-- strings.Fields gives back the words that were joined.
use Prim.Native.Char.{Char}
use we_term.Prelude.{All, List, String, [], ap, arith, false, refl, true, ◌∙◌, ◌∷◌, ◌≡◌}
use we_term.Prelude.Fields.{IsWord, fields, join, starts_word}
use we_term.Prelude.Text.{append}
use we_term.Prelude.Words.{glue, is_space}

-- a character in front of a word belongs to it
fields-cons :
    (c : Char) (s : String)
    → is_space c ≡ false
    → starts_word s ≡ true
    → fields (String.◌∷◌ c s) ≡ glue c (fields s)
unfolding fields
fields-cons c s hc hs = simp (hc, hs) refl

fields-word :
    (w : String) (d : Char) (rest : String)
    → IsWord w
    → is_space d ≡ true
    → fields (append w (String.◌∷◌ d rest)) ≡ w ∷ fields rest
unfolding fields append
fields-word String.[] d rest h hd = absurd (ground arith)
fields-word (String.◌∷◌ c String.[]) d rest h hd =
    let hc : is_space c ≡ false = ground arith in simp (hc, hd) refl
fields-word (String.◌∷◌ c (String.◌∷◌ a w)) d rest h hd =
    fields-cons c (append (String.◌∷◌ a w) (String.◌∷◌ d rest)) (ground arith) (ground arith)
    ∙ ap (glue c) (fields-word (String.◌∷◌ a w) d rest (ground arith) hd)

fields-last : (w : String) → IsWord w → fields w ≡ w ∷ []
unfolding fields
fields-last String.[] h = absurd (ground arith)
fields-last (String.◌∷◌ c String.[]) h = let hc : is_space c ≡ false = ground arith in simp hc refl
fields-last (String.◌∷◌ c (String.◌∷◌ a w)) h =
    fields-cons c (String.◌∷◌ a w) (ground arith) (ground arith)
    ∙ ap (glue c) (fields-last (String.◌∷◌ a w) (ground arith))

-- a line of words joined by single spaces
fields-join : (ws : List String) → All IsWord ws → fields (join " " ws) ≡ ws
unfolding fields join append is_space
fields-join [] h = refl
fields-join (w ∷ []) h = fields-last w h.0
fields-join (w ∷ v ∷ ws) h =
    fields-word w " " (join " " (v ∷ ws)) h.0 refl ∙ ap (λ vs. w ∷ vs) (fields-join (v ∷ ws) h.1)

-- and with a space in front
pub fields-space_join : (ws : List String) → All IsWord ws → fields (append " " (join " " ws)) ≡ ws
unfolding fields append is_space
fields-space_join ws h = fields-join ws h
