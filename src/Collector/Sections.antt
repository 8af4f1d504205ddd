-- ===== src/Collector/Sections.antt =====
-- inspect/collector/host.go and service.go: the output of one batch command, cut into its sections,
-- and lines of keys and values.
use we_term.Prelude.{Bool, List, String, [], if◌then◌else◌, none, some, ◌&&◌, ◌==◌, ◌∷◌}
use we_term.Prelude.Assoc.{insert}
use we_term.Prelude.Search.{cut, has_prefix, has_suffix, trim_char_left, trim_char_right}
use we_term.Prelude.Text.{concat}
use we_term.Prelude.Words.{split_on, trim_space}

-- a line ===TAG===
unfoldable pub is_header : String → Bool
is_header line = has_prefix line "===" && has_suffix line "==="

-- strings.Trim(line, "=")
unfoldable pub header_tag : String → String
header_tag line = trim_char_right 61 (trim_char_left 61 line)

-- currentTag, what sb holds, and the sections so far
pub record SectionState : Type 0 where
  pub current_tag : String
  pub buffer : String
  pub sections : List (String × String)

-- if currentTag != "" { sections[currentTag] = … }
unfoldable pub close_section : SectionState → List (String × String)
close_section st =
    if st.current_tag == ""
    then st.sections
    else insert st.current_tag (trim_space st.buffer) st.sections

-- the body of the loop over the lines
unfoldable pub section_line : String → SectionState → SectionState
section_line line st =
    if is_header line
    then record {
      current_tag = header_tag line;
      buffer = if st.current_tag == "" then st.buffer else "";
      sections = close_section st;
    }
    else if st.current_tag == ""
    then st
    else record st { buffer = concat (st.buffer ∷ line ∷ "\n" ∷ []) }

unfoldable pub section_lines : List String → SectionState → SectionState
section_lines [] st = st
section_lines (line ∷ lines) st = section_lines lines (section_line line st)

-- parseSections
unfoldable pub parse_sections : String → List (String × String)
parse_sections output =
    close_section
      (section_lines (split_on 10 output) (record { current_tag = ""; buffer = ""; sections = [] }))

-- what a line of parseProperties adds
unfoldable pub property_line : String → List (String × String) → List (String × String)
property_line raw props = elim (cut "=" (trim_space raw)) [
  | none ↦ props
  | some (key, value) ↦ if key == "" then props else insert key value props
]

unfoldable pub property_lines : List String → List (String × String) → List (String × String)
property_lines [] props = props
property_lines (line ∷ lines) props = property_lines lines (property_line line props)

-- parseProperties
unfoldable pub parse_properties : String → List (String × String)
parse_properties output = property_lines (split_on 10 output) []
