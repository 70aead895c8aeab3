-- ===== src/Cli/Sse.antt =====
-- packages/cli/src/sse.ts: the parser of the event stream. A text is the list of its UTF-16 code
-- units.
pub mod Frames
pub mod Chunks
pub mod Wire
use inzo.Prelude.{
  ℕ, zero, suc, Bool, true, false, not, ◌&&◌, List, [], ◌∷◌, ◌++◌, Option, none, some, eqb, length,
  is_empty, if◌then◌else◌,
}

abbrev pub Text : Type 0
Text = List ℕ

abbrev pub newline : ℕ
newline = 10

abbrev pub space : ℕ
space = 32

abbrev pub colon : ℕ
colon = 58

-- `event`
abbrev pub event_name : Text
event_name = 101 ∷ 118 ∷ 101 ∷ 110 ∷ 116 ∷ []

-- `data`
abbrev pub data_name : Text
data_name = 100 ∷ 97 ∷ 116 ∷ 97 ∷ []

abbrev pub same_text : Text → Text → Bool
same_text [] [] = true
same_text [] (b ∷ ys) = false
same_text (a ∷ xs) [] = false
same_text (a ∷ xs) (b ∷ ys) = eqb a b && same_text xs ys

-- The data of an event: nothing, the value of a JSON text, or a text that is not JSON.
pub data Data (Json : Type 0) : Type 0 where
  no_data : Data Json
  value : Json → Data Json
  raw : Text → Data Json

pub record SseEvent (Json : Type 0) : Type 0 where
  pub event : Text
  pub contents : Data Json

-- `frame.split("\n")`: the first line, and the others.
abbrev pub split_lines : Text → Text × List Text
split_lines [] = ([], [])
split_lines (a ∷ text) =
    let (line, lines) = split_lines text in
    if eqb a newline then ([], line ∷ lines) else (a ∷ line, lines)

-- What stands before the first colon, and what follows it.
abbrev pub at_colon : Text → Text × Option Text
at_colon [] = ([], none)
at_colon (a ∷ text) =
    let (field, rest) = at_colon text in if eqb a colon then ([], some text) else (a ∷ field, rest)

-- `.replace(/^ /, "")`
abbrev pub drop_space : Text → Text
drop_space [] = []
drop_space (a ∷ text) = if eqb a space then text else a ∷ text

abbrev pub value_of : Option Text → Text
value_of none = []
value_of (some text) = drop_space text

abbrev pub is_comment : Text → Bool
is_comment [] = false
is_comment (a ∷ text) = eqb a colon

-- `join("\n")`
abbrev pub join_newlines : List Text → Text
join_newlines [] = []
join_newlines (line ∷ []) = line
join_newlines (line ∷ line' ∷ lines) = line ++ newline ∷ join_newlines (line' ∷ lines)

-- One line, and the loop over the lines: the last `event`, and the `data` in their order.
abbrev pub read_line : Text → Option Text × List Text → Option Text × List Text
read_line line (event, data_lines) =
    let (field, rest) = at_colon line in
    if is_comment line
    then (event, data_lines)
    else (if same_text field event_name
        then (some (value_of rest), data_lines)
        else (if same_text field data_name
            then (event, data_lines ++ value_of rest ∷ [])
            else (event, data_lines)))

abbrev pub read_lines : List Text → Option Text × List Text → Option Text × List Text
read_lines [] so_far = so_far
read_lines (line ∷ lines) so_far = read_lines lines (read_line line so_far)

abbrev pub cons_frame : ℕ → Option (Text × Text) → Option (Text × Text)
cons_frame a none = none
cons_frame a (some (frame, text)) = some (a ∷ frame, text)

-- The first frame and what follows it, where `\n\n` occurs.
abbrev pub split_frame : Text → Option (Text × Text)
split_frame [] = none
split_frame (a ∷ []) = none
split_frame (a ∷ b ∷ text) =
    let rest = split_frame (b ∷ text) in
    if eqb a newline && eqb b newline then some ([], text) else cons_frame a rest

abbrev pub push_parsed :
    {Json : Type 0} → Option (SseEvent Json) → List (SseEvent Json) → List (SseEvent Json)
push_parsed none events = events
push_parsed (some e) events = e ∷ events

module _ {Json : Type 0} (parse_json : Text → Option Json) where
  abbrev pub data_of : Text → Data Json
  data_of text =
      if is_empty text
      then no_data
      else elim (parse_json text) [ none ↦ raw text | some v ↦ value v ]

  -- An event without a name, or with an empty one, is none.
  abbrev pub made_event : Option Text × List Text → Option (SseEvent Json)
  made_event (none, data_lines) = none
  made_event (some event, data_lines) =
      if is_empty event
      then none
      else some (record { event = event; contents = data_of (join_newlines data_lines) })

  unfoldable pub parse_frame : Text → Option (SseEvent Json)
  parse_frame frame =
      let (line, lines) = split_lines frame in made_event (read_lines (line ∷ lines) (none, []))

  -- The loop of `push`, on fuel: the events, and the buffer that is left.
  unfoldable pub drain : ℕ → Text → List (SseEvent Json) × Text
  drain zero buffer = ([], buffer)
  drain (suc fuel) buffer = elim (split_frame buffer) [
    | none ↦ ([], buffer)
    | some (frame, rest) ↦
        let (events, left) = drain fuel rest in (push_parsed (parse_frame frame) events, left)
  ]

  -- `SseParser.push` on a parser with a buffer.
  unfoldable pub push : Text → Text → List (SseEvent Json) × Text
  push buffer chunk = drain (length (buffer ++ chunk)) (buffer ++ chunk)

  -- The chunks of a connection, one after the other.
  unfoldable pub push_all : Text → List Text → List (SseEvent Json) × Text
  push_all buffer [] = ([], buffer)
  push_all buffer (chunk ∷ chunks) =
      let (events, left) = push buffer chunk in
      let (more, left') = push_all left chunks in (events ++ more, left')
