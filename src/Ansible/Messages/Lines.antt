-- ===== src/Ansible/Messages/Lines.antt =====
-- The lines of a message and the events that it was made from.
use k4e_device_worker.Prelude.{
  ◌≡◌, refl, ap, ◌∙◌, ℕ, false, List, [], ◌∷◌, ◌++◌, number_key, contains, Result, ok, append-nil,
  split_lines, split_line, split_last,
}
use k4e_device_worker.Ansible.Records.{JobEvent}
use k4e_device_worker.Ansible.Messages.{create_message, then_write, write_event}

module _ (marshal : JobEvent → Result (List ℕ)) where
  -- Every event is encoded, and these are the texts.
  abbrev pub AreEncoded : List JobEvent → List (List ℕ) → Type 0
  AreEncoded [] [] = Unit {0}
  AreEncoded [] (b ∷ bs) = ⊥
  AreEncoded (e ∷ es) [] = ⊥
  AreEncoded (e ∷ es) (b ∷ bs) = (marshal e ≡ ok b) × (contains 10 b ≡ false) × AreEncoded es bs

  -- The lines of the message of some events are their encodings, one line for each event and in
  -- their order, if every event can be encoded, with no line end inside.
  pub create_message-split_lines :
      (e : JobEvent) (es : List JobEvent) (bs : List (List ℕ))
      → AreEncoded (e ∷ es) bs
      → (content : List ℕ) × (create_message marshal (e ∷ es) ≡ ok content)
        × (split_lines content ≡ bs)
  unfolding create_message then_write write_event
  create_message-split_lines e es [] h = absurd h
  create_message-split_lines e [] (b ∷ []) (encoded, one, rest) =
      (b ++ [], rw encoded refl, rw (append-nil b) (split_last b one))
  create_message-split_lines e [] (b ∷ (c ∷ bs)) (encoded, one, rest) = absurd rest
  create_message-split_lines e (f ∷ es) (b ∷ bs) (encoded, one, rest) =
      let (content, made, lines) = create_message-split_lines f es bs rest in
      (
        b ++ 10 ∷ content,
        ap (λ r. then_write marshal (f ∷ es) r (create_message marshal (f ∷ es))) encoded
            ∙ ap (write_event marshal (f ∷ es) b) made,
        split_line b content one ∙ ap (λ l. b ∷ l) lines,
      )
