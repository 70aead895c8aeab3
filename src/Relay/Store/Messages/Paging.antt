-- ===== src/Relay/Store/Messages/Paging.antt =====
-- Reading the thread of a pairing page by page, with `getMessages` of
-- packages/relay/src/lib/store.ts.
use inzo.Prelude.{
  ℕ, suc, max, ◌+◌, ◌≤◌, ◌≡◌, refl, sym, ap, ◌∙◌, String, true, List, [], ◌∷◌, ◌++◌, some, ok,
  arith, attempt-eq-ok, ok-injective, filter, ltb, ◌==◌, ==_refl, >>=-eq-ok, guard, not,
}
use inzo.Relay.Errors.{bad_request}
use inzo.Relay.Store.State.{Store, Message, Pairing, get_pairing, member_pairing}
use inzo.Relay.Store.Messages.{max_cursor, is_blank, add_message, get_messages, thread}

module _ (p : String) where
  newer_append :
      (n : ℕ) (ms : List Message) (m : Message)
      → m.pairing_id ≡ p
      → ltb n m.cursor ≡ true
      → filter (λ x. ltb n x.cursor) (filter (λ x. x.pairing_id == p) (ms ++ m ∷ []))
        ≡ filter (λ x. ltb n x.cursor) (filter (λ x. x.pairing_id == p) ms) ++ m ∷ []
  newer_append n [] m e l = ground (arith, ==_refl p)
  newer_append n (x ∷ ms) m e l = ground (arith, newer_append n ms m e l)

  newer_none :
      (n : ℕ) (ms : List Message)
      → max_cursor ms ≤ n
      → filter (λ x. ltb n x.cursor) (filter (λ x. x.pairing_id == p) ms) ≡ []
  newer_none n [] l = refl
  newer_none n (x ∷ ms) l = ground (arith, newer_none n ms)

max_cursor-append :
    (ms : List Message) (m : Message) → max_cursor (ms ++ m ∷ []) ≡ max (max_cursor ms) m.cursor
max_cursor-append [] m = ground arith
max_cursor-append (x ∷ ms) m = ground (arith, max_cursor-append ms m)

-- What a successful `addMessage` does.
add_message-eq-ok :
    (trim : String → String) (s t : Store) (p from body id : String) (now : ℕ) (m : Message)
    → add_message trim s p from body id now ≡ (t, ok m)
    → (t.messages ≡ s.messages ++ m ∷ [])
      × (m.cursor ≡ max_cursor s.messages + 1)
      × (m.pairing_id ≡ p)
      × (get_pairing t p ≡ get_pairing s p)
unfolding add_message get_pairing inzo.Relay.Store.State.get_members
add_message-eq-ok trim s t p from body id now m e =
    let (_, _, f) = attempt-eq-ok s t (guard (not (is_blank trim body)) bad_request) _ m e in
    let (pairing, _, g) = attempt-eq-ok s t (member_pairing s p from) _ m f in
    let made = ok-injective (ap (λ q. q.1) g) in
    (
      sym (ap (λ q. q.0.messages) g) ∙ ap (λ x. s.messages ++ x ∷ []) made,
      sym (ap (λ (q : Message). q.cursor) made),
      sym (ap (λ (q : Message). q.pairing_id) made),
      sym (ap (λ q. get_pairing q.0 p) g),
    )

newer_of :
    (s : Store) (p : String) (n : ℕ) (pairing : Pairing)
    → get_pairing s p ≡ ok pairing
    → 1 ≤ n
    → get_messages s p (some n) ≡ ok (filter (λ m. ltb n m.cursor) (thread s p))
unfolding get_messages
newer_of s p n pairing e l = ground arith

-- After a message is added, a reader of the pairing that asks for what is newer than any cursor
-- handed out before gets what it would have got before and then the new message, and a reader that
-- asks for what is newer than the new message gets nothing.
pub get_messages-add_message :
    (trim : String → String) (s t : Store) (p from body id : String) (now : ℕ) (m : Message) (n : ℕ)
    (before : List Message)
    → add_message trim s p from body id now ≡ (t, ok m)
    → suc n ≤ max_cursor s.messages
    → get_messages s p (some (suc n)) ≡ ok before
    → (get_messages t p (some (suc n)) ≡ ok (before ++ m ∷ []))
      × (get_messages t p (some m.cursor) ≡ ok [])
unfolding get_messages
get_messages-add_message trim s t p from body id now m n before e l h =
    let (messages, cursor, own, same) = add_message-eq-ok trim s t p from body id now m e in
    let (pairing, found, read) = >>=-eq-ok (get_pairing s p) _ h in
    let there : get_pairing t p ≡ ok pairing = same ∙ found in
    let was = ok-injective (sym (newer_of s p (suc n) pairing found (omega arith)) ∙ h) in
    let newer = newer_append p (suc n) s.messages m own (ground arith) in
    let top =
      newer_none p m.cursor (s.messages ++ m ∷ [])
        (omega (arith, max_cursor-append s.messages m)) in
    (
      newer_of t p (suc n) pairing there (omega arith)
          ∙ ap (λ ms. ok (filter (λ x. ltb (suc n) x.cursor) (filter (λ x. x.pairing_id == p) ms)))
              messages
          ∙ ap ok newer
          ∙ ap (λ ms. ok (ms ++ m ∷ [])) was,
      newer_of t p m.cursor pairing there (omega arith)
          ∙ ap (λ ms. ok (filter (λ x. ltb m.cursor x.cursor) (filter (λ x. x.pairing_id == p) ms)))
              messages
          ∙ ap ok top,
    )
