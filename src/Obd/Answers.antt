-- ===== src/Obd/Answers.antt =====
-- `parse_obd_response` of agent/vehicle_agent/providers/standard_obd.py on the answer of a vehicle.
use vehinode.Prelude.{
  ℕ, ◌+◌, ◌≤◌, ◌≡◌, refl, ap, ◌∙◌, arith, none, some, List, [], ◌∷◌, ◌++◌, ==_refl,
}
use vehinode.Text.{Text}
use vehinode.Obd.{behind_pair, behind_answer, or_else, parse_obd_response}
use vehinode.Obd.Lines.{line_of, IsHeader, AreBytes, answer_bytes-line_of}

behind_pair-found : (a b : ℕ) (rest : List ℕ) → behind_pair a b (a ∷ b ∷ rest) ≡ some rest
unfolding behind_pair
behind_pair-found a b rest = ground (arith, ==_refl a, ==_refl b)

module _ (mode pid : ℕ) where
  parse_obd_response-append :
      (before after : List Text)
      → parse_obd_response mode pid before ≡ none
      → parse_obd_response mode pid (before ++ after) ≡ parse_obd_response mode pid after
  unfolding parse_obd_response
  parse_obd_response-append [] after h = refl
  parse_obd_response-append (line ∷ lines) after h =
      ground (arith, parse_obd_response-append lines after)

  -- The data of an answer are read back from the line that the adapter prints for it, with a header, the
  -- length of a single frame and the bytes in hexadecimal, whatever lines follow it, and whatever lines come
  -- before it as long as they hold no answer.
  pub parse_obd_response-line_of :
      (before after : List Text) (header : Text) (n : ℕ) (content : List ℕ)
      → parse_obd_response mode pid before ≡ none
      → IsHeader header
      → n ≤ 8
      → AreBytes ((mode + 0x40) ∷ pid ∷ content)
      → parse_obd_response mode pid
          (before ++ line_of header (n ∷ (mode + 0x40) ∷ pid ∷ content) ∷ after)
        ≡ some content
  unfolding parse_obd_response
  parse_obd_response-line_of before after header n content unanswered is small all =
      let read = answer_bytes-line_of header n ((mode + 0x40) ∷ pid ∷ content) is small all in
      let found = behind_pair-found (mode + 0x40) pid content in
      parse_obd_response-append before (line_of header (n ∷ (mode + 0x40) ∷ pid ∷ content) ∷ after)
        unanswered
      ∙ ap (λ raw. or_else (behind_answer mode pid raw) (parse_obd_response mode pid after)) read
      ∙ ap (λ o. or_else o (parse_obd_response mode pid after)) found
