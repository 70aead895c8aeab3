-- ===== src/Cli/Sse/Frames.antt =====
-- The loop of `push` of packages/cli/src/sse.ts.
use inzo.Prelude.{
  ℕ, zero, suc, ◌+◌, ◌≤◌, ◌≡◌, ◌⊎◌, refl, sym, ap, ◌∙◌, true, false, ◌&&◌, List, [], ◌∷◌, ◌++◌,
  Option, none, some, some_eq, arith, eqb, length, length-append, Bool-cases, inl, inr,
}
use inzo.Cli.Sse.{Text, newline, SseEvent, cons_frame, split_frame, parse_frame, push_parsed, drain}

Option-cases : {A : Type 0} (o : Option A) → (o ≡ none) ⊎ ((a : A) × (o ≡ some a))
Option-cases none = inl refl
Option-cases (some a) = inr (a, refl)

-- How a frame is found.
data Found (a b : ℕ) (text frame rest : Text) : Type 0 where
  here :
      (eqb a newline && eqb b newline) ≡ true → frame ≡ [] → rest ≡ text → Found a b text frame rest
  later :
      (eqb a newline && eqb b newline) ≡ false
      → (frame' : Text) → split_frame (b ∷ text) ≡ some (frame', rest)
      → frame ≡ a ∷ frame'
      → Found a b text frame rest

cons_frame-eq-some :
    (a : ℕ) (found : Option (Text × Text)) (frame rest : Text)
    → cons_frame a found ≡ some (frame, rest)
    → (frame' : Text) × (found ≡ some (frame', rest)) × (frame ≡ a ∷ frame')
cons_frame-eq-some a none frame rest h = cc
cons_frame-eq-some a (some (f, t)) frame rest h =
    let e = some_eq h in
    (f, ap (λ (q : Text × Text). some (f, q.1)) e, sym (ap (λ (q : Text × Text). q.0) e))

found :
    (a b : ℕ) (text frame rest : Text)
    → split_frame (a ∷ b ∷ text) ≡ some (frame, rest)
    → Found a b text frame rest
found a b text frame rest h = elim (Bool-cases (eqb a newline && eqb b newline)) [
  | inl t ↦
      let e = some_eq (rw t at h) in
      here t (sym (ap (λ (q : Text × Text). q.0) e)) (sym (ap (λ (q : Text × Text). q.1) e))
  | inr t ↦
      let (frame', there, e) =
        cons_frame-eq-some a (split_frame (b ∷ text)) frame rest (rw t at h) in
      later t frame' there e
]

-- A frame and its end are taken off the buffer.
pub split_frame-length :
    (buffer frame rest : Text)
    → split_frame buffer ≡ some (frame, rest)
    → length frame + 2 + length rest ≡ length buffer
split_frame-length [] frame rest h = cc
split_frame-length (a ∷ []) frame rest h = cc
split_frame-length (a ∷ b ∷ text) frame rest h = elim (found a b text frame rest h) [
  | here t e e' ↦ rw (e, e') (omega arith)
  | later t frame' there e ↦ rw e (omega (arith, split_frame-length (b ∷ text) frame' rest there))
]

-- What is found is found again when more follows.
pub split_frame-append :
    (buffer more frame rest : Text)
    → split_frame buffer ≡ some (frame, rest)
    → split_frame (buffer ++ more) ≡ some (frame, rest ++ more)
split_frame-append [] more frame rest h = cc
split_frame-append (a ∷ []) more frame rest h = cc
split_frame-append (a ∷ b ∷ text) more frame rest h = elim (found a b text frame rest h) [
  | here t e e' ↦ rw (t, e, e') refl
  | later t frame' there e ↦ rw (t, e, split_frame-append (b ∷ text) more frame' rest there) refl
]

push_parsed-append :
    {Json : Type 0} (parsed : Option (SseEvent Json)) (xs ys : List (SseEvent Json))
    → push_parsed parsed xs ++ ys ≡ push_parsed parsed (xs ++ ys)
push_parsed-append none xs ys = refl
push_parsed-append (some e) xs ys = refl

module _ {Json : Type 0} (parse_json : Text → Option Json) where
  -- One turn of the loop.
  abbrev turn : ℕ → Option (Text × Text) → Text → List (SseEvent Json) × Text
  turn fuel none buffer = ([], buffer)
  turn fuel (some (frame, rest)) buffer = (
    push_parsed (parse_frame parse_json frame) (drain parse_json fuel rest).0,
    (drain parse_json fuel rest).1,
  )

  drain-zero : (buffer : Text) → drain parse_json 0 buffer ≡ ([], buffer)
  unfolding drain
  drain-zero buffer = refl

  drain-turn :
      (fuel : ℕ) (buffer : Text)
      → drain parse_json (suc fuel) buffer ≡ turn fuel (split_frame buffer) buffer
  unfolding drain
  drain-turn fuel buffer = turned (split_frame buffer)
    where
      turned :
          (o : Option (Text × Text))
          → (elim o [
            | none ↦ ([], buffer)
            | some (frame, rest) ↦
                let (events, left) = drain parse_json fuel rest in
                (push_parsed (parse_frame parse_json frame) events, left)
          ])
            ≡ turn fuel o buffer
      turned none = refl
      turned (some (frame, rest)) = refl

  pub drain-none :
      (fuel : ℕ) (buffer : Text)
      → split_frame buffer ≡ none
      → drain parse_json fuel buffer ≡ ([], buffer)
  drain-none zero buffer h = drain-zero buffer
  drain-none (suc fuel) buffer h = drain-turn fuel buffer ∙ rw h refl

  pub drain-some :
      (fuel : ℕ) (buffer frame rest : Text)
      → split_frame buffer ≡ some (frame, rest)
      → drain parse_json (suc fuel) buffer ≡ (
        push_parsed (parse_frame parse_json frame) (drain parse_json fuel rest).0,
        (drain parse_json fuel rest).1,
      )
  drain-some fuel buffer frame rest h = drain-turn fuel buffer ∙ rw h refl

  -- Fuel for the length of the buffer is enough: the loop ends by itself, with no frame left, and
  -- more fuel gives the same.
  pub drain-ends :
      (fuel : ℕ) (buffer : Text)
      → length buffer ≤ fuel
      → (split_frame (drain parse_json fuel buffer).1 ≡ none)
        × (length (drain parse_json fuel buffer).1 ≤ length buffer)
        × (drain parse_json (suc fuel) buffer ≡ drain parse_json fuel buffer)
  drain-ends zero [] h = rw (drain-none 0 [] refl, drain-none 1 [] refl) (refl, omega arith, refl)
  drain-ends zero (a ∷ buffer) h = absurd (omega (arith, h))
  drain-ends (suc fuel) buffer h = elim (Option-cases (split_frame buffer)) [
    | inl e ↦
        rw (drain-none (suc fuel) buffer e, drain-none (suc (suc fuel)) buffer e)
          (e, omega arith, refl)
    | inr ((frame, rest), e) ↦
        let shorter = split_frame-length buffer frame rest e in
        let (none_left, bounded, same) = drain-ends fuel rest (omega (arith, shorter, h)) in
        rw (drain-some fuel buffer frame rest e, drain-some (suc fuel) buffer frame rest e, same)
          (none_left, omega (arith, shorter, bounded), refl)
  ]

  -- More text after a buffer: the frames that are complete are the same, and what is left of them
  -- starts the rest.
  pub drain-append :
      (fuel : ℕ) (buffer more : Text)
      → length (buffer ++ more) ≤ fuel
      → drain parse_json fuel (buffer ++ more) ≡ (
        (drain parse_json fuel buffer).0
            ++ (drain parse_json fuel ((drain parse_json fuel buffer).1 ++ more)).0,
        (drain parse_json fuel ((drain parse_json fuel buffer).1 ++ more)).1,
      )
  drain-append zero buffer more h = rw (drain-zero buffer, drain-zero (buffer ++ more)) refl
  drain-append (suc fuel) buffer more h = elim (Option-cases (split_frame buffer)) [
    | inl e ↦ rw (drain-none (suc fuel) buffer e) refl
    | inr ((frame, rest), e) ↦
        let shorter = split_frame-length buffer frame rest e in
        let (_, bounded, _) =
          drain-ends fuel rest (omega (arith, shorter, h, length-append buffer more)) in
        let left = (drain parse_json fuel rest).1 in
        let (_, _, same) = drain-ends fuel (left ++ more) (
          omega (arith, shorter, bounded, h, length-append buffer more, length-append left more)) in
        let smaller : length (rest ++ more) ≤ fuel =
          omega (arith, shorter, h, length-append buffer more, length-append rest more) in
        rw
          (
            drain-some fuel (buffer ++ more) frame (rest ++ more)
                (split_frame-append buffer more frame rest e),
            drain-some fuel buffer frame rest e,
            same,
            drain-append fuel rest more smaller,
          )
          (ap (λ events. (events, (drain parse_json fuel (left ++ more)).1))
            (sym (
              push_parsed-append (parse_frame parse_json frame) (drain parse_json fuel rest).0
                (drain parse_json fuel (left ++ more)).0)))
  ]
