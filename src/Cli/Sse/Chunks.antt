-- ===== src/Cli/Sse/Chunks.antt =====
-- The parser of packages/cli/src/sse.ts on the chunks that the network makes of a stream.
use inzo.Prelude.{
  ℕ, zero, suc, ◌+◌, ◌-◌, ◌≤◌, ◌≡◌, refl, sym, ap, ◌∙◌, List, [], ◌∷◌, ◌++◌, Option, none, arith,
  length, length-append, append_assoc, append-nil,
}
use inzo.Cli.Sse.{Text, split_frame, drain, push, push_all}
use inzo.Cli.Sse.Frames.{drain-none, drain-ends, drain-append}

abbrev pub concat : List Text → Text
concat [] = []
concat (chunk ∷ chunks) = chunk ++ concat chunks

module _ {Json : Type 0} (parse_json : Text → Option Json) where
  drain-extra :
      (extra fuel : ℕ) (buffer : Text)
      → fuel ≡ extra + length buffer
      → drain parse_json fuel buffer ≡ drain parse_json (length buffer) buffer
  drain-extra zero fuel buffer e =
      let same : fuel ≡ length buffer = omega (arith, e) in ap (λ n. drain parse_json n buffer) same
  drain-extra (suc extra) fuel buffer e =
      let fuel' = extra + length buffer in
      let same : fuel ≡ suc fuel' = omega (arith, e) in
      let (_, _, one_more) = drain-ends parse_json fuel' buffer (omega arith) in
      ap (λ n. drain parse_json n buffer) same ∙ one_more ∙ drain-extra extra fuel' buffer refl

  -- Fuel beyond the length of the buffer changes nothing.
  drain-enough :
      (fuel : ℕ) (buffer : Text)
      → length buffer ≤ fuel
      → drain parse_json fuel buffer ≡ drain parse_json (length buffer) buffer
  drain-enough fuel buffer h = drain-extra (fuel - length buffer) fuel buffer (omega arith)

  -- `push` takes every complete frame off the buffer.
  pub push-drains : (buffer chunk : Text) → split_frame (push parse_json buffer chunk).1 ≡ none
  unfolding push
  push-drains buffer chunk =
      (drain-ends parse_json (length (buffer ++ chunk)) (buffer ++ chunk) (omega arith)).0

  pub push-append :
      (buffer chunk more : Text)
      → push parse_json buffer (chunk ++ more) ≡ (
        (push parse_json buffer chunk).0
            ++ (push parse_json (push parse_json buffer chunk).1 more).0,
        (push parse_json (push parse_json buffer chunk).1 more).1,
      )
  unfolding push
  push-append buffer chunk more =
      let whole = (buffer ++ chunk) ++ more in
      let n = length whole in
      let left = (drain parse_json (length (buffer ++ chunk)) (buffer ++ chunk)).1 in
      let first =
        drain-enough n (buffer ++ chunk) (omega (arith, length-append (buffer ++ chunk) more)) in
      let (_, bounded, _) =
        drain-ends parse_json (length (buffer ++ chunk)) (buffer ++ chunk) (omega arith) in
      let second =
        drain-enough n (left ++ more)
          (omega (arith, bounded, length-append (buffer ++ chunk) more, length-append left more)) in
      rw (← append_assoc buffer chunk more)
        (drain-append parse_json n (buffer ++ chunk) more (omega arith) ∙ rw (first, second) refl)

  -- Wherever the network splits the stream, also in the middle of a frame, the parser gives the
  -- events that it gives for the whole, in the same order, and keeps the same rest.
  pub push_all-concat :
      (buffer : Text) (chunks : List Text)
      → split_frame buffer ≡ none
      → push_all parse_json buffer chunks ≡ push parse_json buffer (concat chunks)
  unfolding push_all push
  push_all-concat buffer [] h =
      rw (append-nil buffer) (sym (drain-none parse_json (length buffer) buffer h))
  push_all-concat buffer (chunk ∷ chunks) h =
      rw (push_all-concat (push parse_json buffer chunk).1 chunks (push-drains buffer chunk))
        (sym (push-append buffer chunk (concat chunks)))
