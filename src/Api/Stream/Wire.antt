-- ===== src/Api/Stream/Wire.antt =====
-- What the text that internal/api/sse.go writes means to a reader of Server-Sent Events. The reader
-- follows the HTML standard, for lines that end with a line feed: `event` names the event, `data`
-- is its payload, a blank line completes it, and a line with a colon in front is a comment.
use Prim.Native.Char.{Char, code}
use Prim.Native.String.{◌++◌ as join}
use text.Mathlib.TextLemmas.{append_assoc, cons-append, nil-append}
use rate_limiting_reverse_pr.Prelude.{
  ◌≡◌, refl, ap, ◌++◌, ◌∙◌, Bool, Bool-cases, inl, inr, false, ◌||◌, String, Option, none, some,
  List, [], ◌∷◌, All, ◌==◌, if◌then◌else◌,
}
use rate_limiting_reverse_pr.Prelude.Text.{is_empty, strip, strip-join}
use rate_limiting_reverse_pr.Limiter.Redis.{returned, failed}
use rate_limiting_reverse_pr.Api.Stream.{event_text, encode_frame, keepalive}

-- One more character in front of a text's lines.
abbrev add_char : Char → List String × String → List String × String
add_char c (ls, r) =
    if code c == 10
    then ("" ∷ ls, r)
    else elim ls [ [] ↦ ([], String.◌∷◌ c r) | l ∷ more ↦ (String.◌∷◌ c l ∷ more, r) ]

-- The finished lines of a text, and what follows the last one.
unfoldable pub lines : String → List String × String
lines String.[] = ([], "")
lines (String.◌∷◌ c rest) = add_char c (lines rest)

abbrev pub has_newline : String → Bool
has_newline String.[] = false
has_newline (String.◌∷◌ c rest) = code c == 10 || has_newline rest

-- The value of a field, less one space in front of it.
unfoldable pub field : String → String → Option String
unfolding strip
field name l = elim (strip (join name ":") l) [
  | none ↦ none
  | some v ↦ elim (strip " " v) [ none ↦ some v | some v' ↦ some v' ]
]

abbrev pub add_data : Option String → String → Option String
add_data none v = some v
add_data (some d) v = some (join d (join "\n" v))

-- The events, name and data, from the name and the body that have been read so far.
unfoldable pub read_lines : String → Option String → List String → List (String × String)
unfolding field
read_lines name body [] = []
read_lines name body (l ∷ ls) =
    if is_empty l
    then elim body [ none ↦ read_lines "" none ls | some d ↦ (name, d) ∷ read_lines "" none ls ]
    else elim (field "event" l) [
      | some v ↦ read_lines v body ls
      | none ↦ elim (field "data" l) [
        | some v ↦ read_lines name (add_data body v) ls
        | none ↦ read_lines name body ls
      ]
    ]

unfoldable pub events : String → List (String × String)
unfolding lines read_lines
events text = read_lines "" none (lines text).0

lines-join :
    (s rest : String)
    → has_newline s ≡ false
    → lines (join s (String.◌∷◌ "\n" rest)) ≡ (s ∷ (lines rest).0, (lines rest).1)
unfolding lines
lines-join String.[] rest h = rw (nil-append (String.◌∷◌ "\n" rest)) refl
lines-join (String.◌∷◌ c s) rest h = elim (Bool-cases (code c == 10)) [
  | inl newline ↦ cc (rw newline at h)
  | inr other ↦
      rw (cons-append c s (String.◌∷◌ "\n" rest))
        (ap (add_char c) (lines-join s rest (rw other at h)) ∙ rw other refl)
]

has_newline-join :
    (s t : String) → has_newline s ≡ false → has_newline t ≡ false → has_newline (join s t) ≡ false
has_newline-join String.[] t h k = rw (nil-append t) k
has_newline-join (String.◌∷◌ c s) t h k = elim (Bool-cases (code c == 10)) [
  | inl newline ↦ cc (rw newline at h)
  | inr other ↦ rw (cons-append c s t) (rw other (has_newline-join s t (rw other at h) k))
]

abbrev cons_line : String → List String × String → List String × String
cons_line l (ls, r) = (l ∷ ls, r)

feed : (s : String) → join "\ndata: " s ≡ String.◌∷◌ "\n" (join "data: " s)
feed s = cons-append "\n" "data: " s

feeds : (rest : String) → join "\n\n" rest ≡ String.◌∷◌ "\n" (String.◌∷◌ "\n" rest)
feeds rest =
    cons-append "\n" "\n" rest
    ∙ ap (String.◌∷◌ "\n") (cons-append "\n" "" rest ∙ ap (String.◌∷◌ "\n") (nil-append rest))

regrouped :
    (event body rest : String)
    → join (event_text event body) rest
      ≡ join
          (join "event: " event)
          (String.◌∷◌ "\n" (join (join "data: " body) (String.◌∷◌ "\n" (String.◌∷◌ "\n" rest))))
regrouped event body rest =
    ap (λ t. join t rest) (ap (λ t. join "event: " (join event t)) (feed (join body "\n\n")))
    ∙ (simp (append_assoc, cons-append, feeds rest))

-- The text of an event, in three lines.
lines-event_text :
    (event body rest : String)
    → has_newline event ≡ false
    → has_newline body ≡ false
    → lines (join (event_text event body) rest)
      ≡ (join "event: " event ∷ join "data: " body ∷ "" ∷ (lines rest).0, (lines rest).1)
unfolding lines
lines-event_text event body rest h k =
    ap lines (regrouped event body rest)
    ∙ lines-join (join "event: " event) _ (has_newline-join "event: " event refl h)
    ∙ ap (cons_line (join "event: " event))
        (lines-join (join "data: " body) _ (has_newline-join "data: " body refl k))

-- A field's line is read as that field.
field-join : (name v : String) → field name (join (join name ": ") v) ≡ some v
unfolding field
field-join name v =
    let line : join (join name ": ") v ≡ join (join name ":") (join " " v) =
      simp (append_assoc, split v) in
    rw (line, field, strip-join (join name ":") (join " " v)) (rw (strip-join " " v) refl)
  where
    split : (v : String) → join ": " v ≡ join ":" (join " " v)
    split v = append_assoc ":" " " v

data_is_no_event : (v : String) → field "event" (join "data: " v) ≡ none
unfolding field strip
data_is_no_event v = rw (cons-append "d" "ata: " v) refl

not_blank : (c : Char) (p v : String) → is_empty (join (String.◌∷◌ c p) v) ≡ false
not_blank c p v = rw (cons-append c p v) refl

-- What the three lines of an event are read as.
read_lines-event :
    (event body : String) (ls : List String)
    → read_lines "" none (join "event: " event ∷ join "data: " body ∷ "" ∷ ls)
      ≡ (event, body) ∷ read_lines "" none ls
unfolding read_lines
read_lines-event event body ls =
    rw (not_blank "e" "vent: " event, field-join "event" event)
      (rw (not_blank "d" "ata: " body, data_is_no_event body) (rw (field-join "data" body) refl))

-- What a stream writes: events, with their name and their document, and signs of life.
pub data Piece : Type 0 where
  of_event : String → String → Piece
  alive : Piece

unfoldable pub written : Piece → String
unfolding encode_frame
written (of_event event body) = elim (encode_frame event (returned body)) [
  | returned frame ↦ frame
  | failed err ↦ ""
]
written alive = keepalive

abbrev pub wire : List Piece → String
wire [] = ""
wire (p ∷ ps) = join (written p) (wire ps)

abbrev pub named : List Piece → List (String × String)
named [] = []
named (of_event event body ∷ ps) = (event, body) ∷ named ps
named (alive ∷ ps) = named ps

-- A name and a document that stand on one line each.
abbrev pub OnOneLine : Piece → Type 0
OnOneLine (of_event event body) = (has_newline event ≡ false) × (has_newline body ≡ false)
OnOneLine alive = Unit {0}

lines-keepalive :
    (rest : String)
    → lines (join keepalive rest) ≡ (": keepalive" ∷ "" ∷ (lines rest).0, (lines rest).1)
unfolding lines
lines-keepalive rest =
    ap lines (append_assoc ": keepalive" "\n\n" rest ∙ ap (join ": keepalive") (feeds rest))
    ∙ lines-join ": keepalive" (String.◌∷◌ "\n" rest) refl

events-cons :
    (p : Piece) (rest : String)
    → OnOneLine p
    → events (join (written p) rest) ≡ named (p ∷ []) ++ events rest
unfolding events written
events-cons (of_event event body) rest h =
    ap (λ r. read_lines "" none r.0) (lines-event_text event body rest h.0 h.1)
    ∙ read_lines-event event body (lines rest).0
events-cons alive rest h =
    ap (λ r. read_lines "" none r.0) (lines-keepalive rest)
    ∙ (unfold read_lines field strip in refl)

-- A client that reads the stream by the standard gets exactly the events that were encoded, each
-- with its name and its document, in order, and nothing for a sign of life, if every name and every
-- document stands on one line.
pub events-wire : (ps : List Piece) → All OnOneLine ps → events (wire ps) ≡ named ps
unfolding events lines read_lines
events-wire [] h = refl
events-wire (of_event event body ∷ ps) (h, hs) =
    events-cons (of_event event body) (wire ps) h ∙ ap (λ l. (event, body) ∷ l) (events-wire ps hs)
events-wire (alive ∷ ps) (h, hs) = events-cons alive (wire ps) h ∙ events-wire ps hs
