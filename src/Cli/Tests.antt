-- ===== src/Cli/Tests.antt =====
-- Examples for packages/cli/src/sse.ts: the frame `event: a` with the data `1`, cut in its middle.
use inzo.Prelude.{ℕ, ◌≤◌, ◌≡◌, refl, List, [], ◌∷◌, Option, none, some, length, arith}
use inzo.Cli.Sse.{Text, value, split_frame, drain, push, push_all}
use inzo.Cli.Sse.Frames.{drain-ends}
use inzo.Cli.Sse.Chunks.{concat, push_all-concat}
use inzo.Cli.Sse.Wire.{Sent, push_all-sent}

-- `JSON.parse`, of the texts that are used here.
abbrev parse_json : Text → Option ℕ
parse_json [] = none
parse_json (a ∷ text) = some 1

abbrev sent : Sent parse_json
sent = record {
  event = 97 ∷ [];
  json = 49 ∷ [];
  read = 1;
  named = refl;
  given = refl;
  event_fits = refl;
  json_fits = refl;
  parses = refl;
}

abbrev chunks : List Text
chunks =
    (101 ∷ 118 ∷ 101 ∷ [])
    ∷ (110 ∷ 116 ∷ 58 ∷ 32 ∷ 97 ∷ 10 ∷ 100 ∷ 97 ∷ 116 ∷ 97 ∷ 58 ∷ 32 ∷ 49 ∷ 10 ∷ [])
    ∷ (10 ∷ [])
    ∷ []

push_all-concat_example : push_all parse_json [] chunks ≡ push parse_json [] (concat chunks)
push_all-concat_example = push_all-concat parse_json [] chunks refl

push_all-sent_example :
    push_all parse_json [] chunks ≡ (record { event = 97 ∷ []; contents = value 1 } ∷ [], [])
push_all-sent_example = push_all-sent parse_json (sent ∷ []) chunks refl

drain-ends_example :
    (split_frame (drain parse_json 20 (concat chunks)).1 ≡ none)
    × (length (drain parse_json 20 (concat chunks)).1 ≤ length (concat chunks))
    × (drain parse_json 21 (concat chunks) ≡ drain parse_json 20 (concat chunks))
drain-ends_example = drain-ends parse_json 20 (concat chunks) (omega arith)
