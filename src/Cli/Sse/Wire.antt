-- ===== src/Cli/Sse/Wire.antt =====
-- The frames that the relays write, `send` of packages/relay/src/routes/stream.ts and `broadcast` of
-- packages/relay-cf/src/pairingRoom.ts, read by the parser of packages/cli/src/sse.ts.
use inzo.Prelude.{
  ℕ, ◌≡◌, refl, ap, ◌∙◌, Bool, true, false, not, List, [], ◌∷◌, ◌++◌, map, Option, none, some,
  arith, all, eqb, length, is_empty,
}
use inzo.Cli.Sse.{
  Text, newline, space, colon, event_name, data_name, SseEvent, value, split_frame, split_lines,
  read_lines, made_event, parse_frame, push, push_all,
}
use inzo.Cli.Sse.Frames.{drain-none, drain-some}
use inzo.Cli.Sse.Chunks.{concat, push-append, push_all-concat}

-- `event: …` and `data: …`
abbrev pub event_line : Text → Text
event_line event = event_name ++ colon ∷ space ∷ event

abbrev pub data_line : Text → Text
data_line json = data_name ++ colon ∷ space ∷ json

abbrev pub sent_frame : (event json : Text) → Text
sent_frame event json = event_line event ++ newline ∷ (data_line json ++ newline ∷ newline ∷ [])

abbrev after_first : Text → Text
after_first [] = []
after_first (a ∷ text) = text

abbrev pub one_line : Text → Bool
one_line = all (λ a. not (eqb a newline))

split_frame-end :
    (line rest : Text)
    → one_line line ≡ true
    → split_frame (line ++ newline ∷ newline ∷ rest) ≡ some (line, rest)
split_frame-end [] rest h = refl
split_frame-end (a ∷ []) rest h = ground arith
split_frame-end (a ∷ b ∷ line) rest h =
    let there = split_frame-end (b ∷ line) rest (ground arith) in ground (arith, there)

split_frame-line :
    (line : Text) (c : ℕ) (text frame rest : Text)
    → one_line line ≡ true
    → eqb c newline ≡ false
    → split_frame (c ∷ text) ≡ some (frame, rest)
    → split_frame (line ++ newline ∷ c ∷ text) ≡ some (line ++ newline ∷ frame, rest)
split_frame-line [] c text frame rest h n e = rw (n, e) refl
split_frame-line (a ∷ []) c text frame rest h n e =
    ground (arith, split_frame-line [] c text frame rest refl n e)
split_frame-line (a ∷ b ∷ line) c text frame rest h n e =
    let there = split_frame-line (b ∷ line) c text frame rest (ground arith) n e in
    ground (arith, there)

split_lines-last : (line : Text) → one_line line ≡ true → split_lines line ≡ (line, [])
split_lines-last [] h = refl
split_lines-last (a ∷ line) h = ground (arith, split_lines-last line)

split_lines-line :
    (line text : Text)
    → one_line line ≡ true
    → split_lines (line ++ newline ∷ text) ≡ (line, (split_lines text).0 ∷ (split_lines text).1)
split_lines-line [] text h = refl
split_lines-line (a ∷ line) text h = ground (arith, split_lines-line line text)

-- An event as it is sent: its name and a JSON text, each on one line, and neither empty.
pub record Sent {Json : Type 0} (parse_json : Text → Option Json) : Type 0 where
  pub event : Text
  pub json : Text
  pub read : Json
  pub named : is_empty event ≡ false
  pub given : is_empty json ≡ false
  pub event_fits : one_line event ≡ true
  pub json_fits : one_line json ≡ true
  pub parses : parse_json json ≡ some read

module _ {Json : Type 0} (parse_json : Text → Option Json) where
  abbrev pub frame_of : Sent parse_json → Text
  frame_of sent = sent_frame sent.event sent.json

  abbrev pub event_of : Sent parse_json → SseEvent Json
  event_of sent = record { event = sent.event; contents = value sent.read }

  parse_frame-sent :
      (sent : Sent parse_json)
      → parse_frame parse_json (event_line sent.event ++ newline ∷ data_line sent.json)
        ≡ some (event_of sent)
  unfolding parse_frame
  parse_frame-sent sent =
      let lines =
        split_lines-line (event_line sent.event) (data_line sent.json) sent.event_fits
        ∙ ap (λ (q : Text × List Text). (event_line sent.event, q.0 ∷ q.1))
            (split_lines-last (data_line sent.json) sent.json_fits) in
      ap (λ (q : Text × List Text). made_event parse_json (read_lines (q.0 ∷ q.1) (none, []))) lines
      ∙ rw (sent.named, sent.given, sent.parses) refl

  split_frame-sent :
      (sent : Sent parse_json)
      → split_frame (frame_of sent)
        ≡ some (event_line sent.event ++ newline ∷ data_line sent.json, [])
  split_frame-sent sent =
      split_frame-line (event_line sent.event) 100
        (97 ∷ 116 ∷ 97 ∷ colon ∷ space ∷ sent.json ++ newline ∷ newline ∷ []) (data_line sent.json)
        [] sent.event_fits refl (split_frame-end (data_line sent.json) [] sent.json_fits)

  push-sent :
      (sent : Sent parse_json) → push parse_json [] (frame_of sent) ≡ (event_of sent ∷ [], [])
  unfolding push
  push-sent sent =
      drain-some parse_json (length (after_first (frame_of sent))) (frame_of sent)
        (event_line sent.event ++ newline ∷ data_line sent.json) [] (split_frame-sent sent)
      ∙ rw
          (
            parse_frame-sent sent,
            drain-none parse_json (length (after_first (frame_of sent))) [] refl,
          )
          refl

  -- The parser reads what the relays send: however the network splits the frames of some events, it
  -- gives these events, in their order, with the value of their JSON, and keeps nothing.
  pub push_all-sent :
      (events : List (Sent parse_json)) (chunks : List Text)
      → concat chunks ≡ concat (map frame_of events)
      → push_all parse_json [] chunks ≡ (map event_of events, [])
  unfolding push
  push_all-sent events chunks h =
      push_all-concat parse_json [] chunks refl ∙ ap (push parse_json []) h ∙ whole events
    where
      whole :
          (events : List (Sent parse_json))
          → push parse_json [] (concat (map frame_of events)) ≡ (map event_of events, [])
      whole [] = drain-none parse_json 0 [] refl
      whole (sent ∷ events) =
          push-append parse_json [] (frame_of sent) (concat (map frame_of events))
          ∙ rw (push-sent sent, whole events) refl
