-- ===== src/Message/Copy.antt =====
-- What `message_copy` of src/pal/pal.c copies.
use paum_io_t.Common.{ℕ, ◌≡◌, refl, sym, ap, arith, Option, none, some, List, take_all}
use paum_io_t.Codes.{Code}
use paum_io_t.World.{Text, Env, Grants, World, freed}
use paum_io_t.World.Rules.{Ensures, >>=-Ensures}
use paum_io_t.Message.{
  Message, message_create, message_copy, replace_string, copy_string, copy_payload, fill_copy,
}
use paum_io_t.Message.Laws.{IsExact}

-- No error is possible.
abbrev pub NoError : Code → World → Type 0
NoError e w = ⊥

abbrev Made : Option Message → Type 0
Made none = ⊥
Made (some c) = Unit

-- A field that the original has is the same in the copy. One that it does not have may be the
-- copy's own.
abbrev Kept : Option Text → Option Text → Type 0
Kept none copied = Unit
Kept (some s) copied = copied ≡ some s

-- What a copy has in common with the original: all but an identifier and a time stamp that the
-- original does not have.
pub record IsCopy (m : Message) (o : Option Message) : Type 0 where
  pub copy : Message
  pub made : o ≡ some copy
  pub identifier : Kept m.message_id copy.message_id
  pub time : Kept m.timestamp copy.timestamp
  pub source : copy.source ≡ m.source
  pub destination : copy.destination ≡ m.destination
  pub payload : copy.payload ≡ m.payload
  pub payload_len : copy.payload_len ≡ m.payload_len
  pub metadata : copy.metadata ≡ m.metadata

module _ (env : Env) (grants : Grants env) where
  replace-Kept :
      (s old : Option Text) (w : World)
      → Ensures (λ r v. Kept s r) NoError (replace_string env s old w)
  unfolding replace_string
  replace-Kept none old w = tt
  replace-Kept (some s) old w = ground (arith, grants (freed old w).calls)

  copy_string-eq :
      (s : Option Text) (w : World) → Ensures (λ r v. r ≡ s) NoError (copy_string env s w)
  unfolding copy_string
  copy_string-eq none w = refl
  copy_string-eq (some s) w = ground (arith, grants w.calls)

  copy_payload-eq :
      (p : Option (List ℕ)) (n : ℕ) (w : World)
      → IsExact p n
      → Ensures (λ r v. r ≡ (p, n)) NoError (copy_payload env p n w)
  unfolding copy_payload
  copy_payload-eq none n w e = ap (λ k. (none, k)) (sym e)
  copy_payload-eq (some xs) n w e = ground (arith, grants w.calls, take_all n xs)

  create-Made : (w : World) → Ensures (λ o v. Made o) NoError (message_create env w)
  unfolding message_create
  create-Made w = ground (arith, grants w.calls)

  fill-IsCopy :
      (m c : Message) (w : World)
      → IsExact m.payload m.payload_len
      → Ensures (λ o v. IsCopy m o) NoError (fill_copy env m c w)
  unfolding fill_copy
  fill-IsCopy m c w exact =
      let After : Option Message → World → Type 0 = λ o v. IsCopy m o in
      >>=-Ensures (λ r v. Kept m.message_id r) After NoError _ _ w
        (replace-Kept m.message_id c.message_id w)
        λ identifier w1 h1.
          >>=-Ensures (λ r v. Kept m.timestamp r) After NoError _ _ w1
            (replace-Kept m.timestamp c.timestamp w1)
            λ time w2 h2.
              >>=-Ensures (λ r v. r ≡ m.source) After NoError _ _ w2 (copy_string-eq m.source w2)
                λ source w3 h3.
                  >>=-Ensures (λ r v. r ≡ m.destination) After NoError _ _ w3
                    (copy_string-eq m.destination w3)
                    λ destination w4 h4.
                      >>=-Ensures (λ r v. r ≡ m.content_type) After NoError _ _ w4
                        (copy_string-eq m.content_type w4)
                        λ content_type w5 h5.
                          >>=-Ensures (λ r v. r ≡ (m.payload, m.payload_len)) After NoError _ _ w5
                            (copy_payload-eq m.payload m.payload_len w5 exact)
                            λ payload w6 h6. record {
                              copy = _;
                              made = refl;
                              identifier = h1;
                              time = h2;
                              source = h3;
                              destination = h4;
                              payload = ap (λ x. x.0) h6;
                              payload_len = ap (λ x. x.1) h6;
                              metadata = ap (λ t. record (m.metadata) { content_type = t }) h5;
                            }

-- If no request for memory fails, `message_copy` returns a message that says what the original
-- says: the same source, destination, payload and metadata, and the same identifier and time stamp
-- if the original has them. The payload's length is right.
pub message_copy-IsCopy :
    (env : Env) (m : Message) (w : World)
    → Grants env
    → IsExact m.payload m.payload_len
    → Ensures (λ o v. IsCopy m o) NoError (message_copy env (some m) w)
unfolding message_copy
message_copy-IsCopy env m w grants exact =
    >>=-Ensures (λ o v. Made o) (λ o v. IsCopy m o) NoError (message_create env) _ w
      (create-Made env grants w)
      (elim [ none ↦ λ v k. absurd k | some c ↦ λ v k. fill-IsCopy env grants m c v exact ])
