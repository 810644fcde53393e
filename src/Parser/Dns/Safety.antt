-- ===== src/Parser/Dns/Safety.antt =====
-- The reads of `parse_dns` and `parse_dns_name` of src/parser.rs on arbitrary bytes.
use nids.Prelude.{
  ℕ, ◌+◌, ◌-◌, ◌≤◌, ◌<◌, ◌≡◌, refl, false, Option, none, some, List, length, arith, ltb-false→le,
}
use nids.Prelude.Loop.{Step, Proceeds, Gives, Gives-returns, Gives-bind, iterate-Gives}
use nids.Prelude.Safe.{
  Any, done, Gives-if, Gives-byte, Gives-be16, Gives-be32, Gives-slice, Gives-call,
}
use nids.Parser.Link.{String}
use nids.Parser.Dns.{
  NameState, follow_pointer, take_label, name_round, parse_dns_name, Questions, take_question,
  question_round, Answers, take_answer, answer_round, parse_dns,
}

-- A name that was read from `start` ends behind it and within the message.
abbrev pub EndsWithin : List ℕ → ℕ → Option (String × ℕ) → Type 0
EndsWithin payload start none = Unit {0}
EndsWithin payload start (some (name, end_offset)) =
    (start ≤ end_offset) × (end_offset ≤ length payload)

module _ (payload : List ℕ) (start : ℕ) where
  record Walks (s : NameState) : Type 0 where
    few : s.visited ≤ 128
    behind : start ≤ s.end_offset
    within : s.end_offset ≤ length payload
    unjumped : s.jumped ≡ false → s.offset ≡ s.end_offset

  -- The rounds a name has left.
  abbrev left : NameState → ℕ
  left s = 129 - s.visited

  abbrev NameRound : NameState → Step NameState (Option (String × ℕ)) → Type 0
  NameRound s = Proceeds Walks left (EndsWithin payload start) (left s)

  follow_pointer-Gives :
      (label_len : ℕ) (s : NameState)
      → Walks s
      → s.visited < 128
      → Gives (NameRound s) (follow_pointer payload label_len s)
  unfolding follow_pointer
  follow_pointer-Gives label_len s w h =
      Gives-if _ (λ t. Gives-returns _ tt)
        (λ t.
          let k : s.offset + 2 ≤ length payload = ltb-false→le _ _ t in
          Gives-byte payload (s.offset + 1) (omega arith) (λ low.
            Gives-if _ (λ t'. Gives-returns _ tt)
              (λ t'. Gives-returns _ (
                record {
                  few = omega arith;
                  behind = ground (arith, w.behind, w.unjumped);
                  within = ground (arith, w.within);
                  unjumped = λ e. cc;
                },
                omega arith,
              ))))

  take_label-Gives :
      (label_len : ℕ) (s : NameState)
      → Walks s
      → s.visited < 128
      → Gives (NameRound s) (take_label payload label_len s)
  unfolding take_label
  take_label-Gives label_len s w h =
      Gives-if _ (λ t. Gives-returns _ tt)
        (λ t.
          let k : s.offset + 1 + label_len ≤ length payload = ltb-false→le _ _ t in
          Gives-slice payload (s.offset + 1) (s.offset + 1 + label_len) (omega arith) k (λ label e.
            Gives-returns _ (
              record {
                few = omega arith;
                behind = ground (arith, w.behind, w.unjumped);
                within = ground (arith, w.within);
                unjumped = λ j. ground arith;
              },
              omega arith,
            )))

  name_round-Gives : (s : NameState) → Walks s → Gives (NameRound s) (name_round payload s)
  unfolding name_round
  name_round-Gives s w =
      Gives-if _ (λ t. Gives-returns _ (w.behind, w.within))
        (λ t.
          let k : (s.offset < length payload) × (s.visited < 128) = ground arith in
          Gives-byte payload s.offset k.0 (λ label_len.
            Gives-if _
              (λ t'. Gives-returns _ (
                ground (arith, w.behind, w.within, w.unjumped),
                ground (arith, w.behind, w.within, w.unjumped),
              ))
              (λ t'.
                Gives-if _ (λ t''. follow_pointer-Gives label_len s w k.1)
                  (λ t''. take_label-Gives label_len s w k.1))))

-- Decoding a DNS name returns for any message and any offset in it, cyclic pointers included. If
-- it returns a name, the offset behind the name lies between the given offset and the message's end.
pub parse_dns_name-Gives :
    (payload : List ℕ) (start : ℕ)
    → start ≤ length payload
    → Gives (EndsWithin payload start) (parse_dns_name payload start)
unfolding parse_dns_name
parse_dns_name-Gives payload start h =
    iterate-Gives (name_round payload) (Walks payload start) (left payload start)
      (EndsWithin payload start) (name_round-Gives payload start) 130 _
      (record { few = omega arith; behind = omega arith; within = h; unjumped = λ e. refl })
      (omega arith)

take_question-Gives :
    (payload : List ℕ) (count : ℕ) (s : Questions) (name : Option (String × ℕ))
    → s.rounds < count
    → s.offset ≤ length payload
    → Gives
        (Proceeds
          (λ (s : Questions). (s.rounds ≤ count) × (s.offset ≤ length payload))
          (λ s. count - s.rounds)
          (λ (s : Questions). s.offset ≤ length payload)
          (count - s.rounds))
        (take_question payload s name)
unfolding take_question
take_question-Gives payload count s none h o = Gives-returns _ o
take_question-Gives payload count s (some (name, new_off)) h o =
    Gives-if _ (λ t. Gives-returns _ o)
      (λ t.
        let k : new_off + 4 ≤ length payload = ground arith in
        Gives-be16 payload new_off (omega arith) (λ qtype.
          Gives-be16 payload (new_off + 2) (omega arith)
            (λ qclass. Gives-returns _ ((omega arith, omega arith), omega arith))))

question_round-Gives :
    (payload : List ℕ) (count : ℕ) (s : Questions)
    → (s.rounds ≤ count) × (s.offset ≤ length payload)
    → Gives
        (Proceeds
          (λ (s : Questions). (s.rounds ≤ count) × (s.offset ≤ length payload))
          (λ s. count - s.rounds)
          (λ (s : Questions). s.offset ≤ length payload)
          (count - s.rounds))
        (question_round payload count s)
unfolding question_round
question_round-Gives payload count s h =
    Gives-if _ (λ t. Gives-returns _ h.1)
      (λ t.
        Gives-bind _ (parse_dns_name-Gives payload s.offset h.1)
          (λ name _. take_question-Gives payload count s name (ground arith) h.1))

take_answer-Gives :
    (payload : List ℕ) (count : ℕ) (s : Answers) (name : Option (String × ℕ))
    → s.rounds < count
    → s.offset ≤ length payload
    → Gives
        (Proceeds
          (λ (s : Answers). (s.rounds ≤ count) × (s.offset ≤ length payload))
          (λ s. count - s.rounds)
          Any
          (count - s.rounds))
        (take_answer payload s name)
unfolding take_answer
take_answer-Gives payload count s none h o = Gives-returns _ tt
take_answer-Gives payload count s (some (name, new_off)) h o =
    Gives-if _ (λ t. Gives-returns _ tt)
      (λ t.
        let k : new_off + 10 ≤ length payload = ground arith in
        Gives-be16 payload new_off (omega arith) (λ rtype.
          Gives-be16 payload (new_off + 2) (omega arith) (λ rclass.
            Gives-be32 payload (new_off + 4) (omega arith) (λ ttl.
              Gives-be16 payload (new_off + 8) (omega arith) (λ rdlen.
                Gives-if _ (λ t'. Gives-returns _ tt)
                  (λ t'.
                    Gives-slice payload (new_off + 10) (new_off + 10 + rdlen) (omega arith)
                      (ground arith)
                      (λ rdata e. Gives-returns _ ((omega arith, ground arith), omega arith))))))))

answer_round-Gives :
    (payload : List ℕ) (count : ℕ) (s : Answers)
    → (s.rounds ≤ count) × (s.offset ≤ length payload)
    → Gives
        (Proceeds
          (λ (s : Answers). (s.rounds ≤ count) × (s.offset ≤ length payload))
          (λ s. count - s.rounds)
          Any
          (count - s.rounds))
        (answer_round payload count s)
unfolding answer_round
answer_round-Gives payload count s h =
    Gives-if _ (λ t. Gives-returns _ tt)
      (λ t.
        Gives-bind _ (parse_dns_name-Gives payload s.offset h.1)
          (λ name _. take_answer-Gives payload count s name (ground arith) h.1))

pub parse_dns-Gives : (payload : List ℕ) → Gives Any (parse_dns payload)
unfolding parse_dns
parse_dns-Gives payload =
    Gives-if _ (λ t. done)
      (λ t.
        let k : 12 ≤ length payload = ltb-false→le _ _ t in
        Gives-be16 payload 0 (omega arith) (λ transaction_id.
          Gives-be16 payload 2 (omega arith) (λ flags_word.
            Gives-be16 payload 4 (omega arith) (λ question_count.
              Gives-be16 payload 6 (omega arith) (λ answer_count.
                Gives-be16 payload 8 (omega arith) (λ authority_count.
                  Gives-be16 payload 10 (omega arith) (λ additional_count.
                    Gives-bind _
                      (iterate-Gives (question_round payload question_count)
                        (λ s. (s.rounds ≤ question_count) × (s.offset ≤ length payload))
                        (λ s. question_count - s.rounds) (λ s. s.offset ≤ length payload)
                        (question_round-Gives payload question_count) (question_count + 2) _
                        (omega arith, omega arith) (omega arith))
                      (λ questions o.
                        Gives-call _
                          (iterate-Gives (answer_round payload answer_count)
                            (λ s. (s.rounds ≤ answer_count) × (s.offset ≤ length payload))
                            (λ s. answer_count - s.rounds) Any
                            (answer_round-Gives payload answer_count) (answer_count + 2) _
                            (omega arith, o) (omega arith))
                          (λ answers. done)))))))))
