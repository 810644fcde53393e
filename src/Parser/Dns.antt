-- ===== src/Parser/Dns.antt =====
-- `parse_dns` and `parse_dns_name` of src/parser.rs. Each loop is a body and `iterate`.
pub mod Safety
use nids.Prelude.{
  ℕ, zero, suc, ◌+◌, ◌*◌, ◌/◌, ◌%◌, Bool, true, false, not, ◌&&◌, ◌||◌, Option, none, some, List,
  [], ◌∷◌, ◌++◌, length, leb, ltb, ◌==◌, if◌then◌else◌,
}
use nids.Prelude.Outcome.{Outcome, returns, ◌>>=◌, byte, slice}
use nids.Prelude.Bytes.{bit, read_be16, read_be32}
use nids.Prelude.Loop.{when◌then◌else◌, Step, goes_on, leaves, iterate}
use nids.Parser.Link.{String}
use nids.Parser.Layers.{DnsRecord, DnsInfo}
use nids.Parser.Text.{from_utf8_lossy}

pub record NameState : Type 0 where
  pub domain : String
  pub offset : ℕ
  pub jumped : Bool
  pub end_offset : ℕ
  pub visited : ℕ

-- The label's text behind the name so far, with a dot between them.
unfoldable pub push_label : String → String → String
push_label domain label =
    when length domain == 0 then domain ++ label else (domain ++ (0x2E ∷ [])) ++ label

-- The branch of a compression pointer.
unfoldable pub follow_pointer :
    List ℕ → ℕ → NameState → Outcome (Step NameState (Option (String × ℕ)))
follow_pointer payload label_len s =
    when ltb (length payload) (s.offset + 2) then returns (leaves none) else do
      low ← byte payload (s.offset + 1)
      let ptr = label_len % 64 * 256 + low
      when leb (length payload) ptr || leb s.offset ptr
          then returns (leaves none)
          else returns (
              goes_on (record s {
                offset = ptr;
                jumped = true;
                end_offset = if s.jumped then s.end_offset else s.offset + 2;
                visited = s.visited + 1;
              }))

-- The branch of a label.
unfoldable pub take_label : List ℕ → ℕ → NameState → Outcome (Step NameState (Option (String × ℕ)))
take_label payload label_len s =
    when ltb (length payload) (s.offset + 1 + label_len) then returns (leaves none) else do
      label ← slice payload (s.offset + 1) (s.offset + 1 + label_len)
      let offset' = s.offset + (1 + label_len)
      returns (
          goes_on (record s {
            domain = push_label s.domain (from_utf8_lossy label);
            offset = offset';
            end_offset = if s.jumped then s.end_offset else offset';
            visited = s.visited + 1;
          }))

-- One round of the loop, its test first.
unfoldable pub name_round : List ℕ → NameState → Outcome (Step NameState (Option (String × ℕ)))
name_round payload s =
    when not (ltb s.offset (length payload) && ltb s.visited 128)
    then returns (leaves (some (s.domain, s.end_offset)))
    else do
      label_len ← byte payload s.offset
      when label_len == 0
          then returns (leaves (some (s.domain, if s.jumped then s.end_offset else s.offset + 1)))
          else when label_len / 64 == 3
          then follow_pointer payload label_len s
          else take_label payload label_len s

-- The loop's own counter leaves after 128 rounds.
unfoldable pub parse_dns_name : List ℕ → ℕ → Outcome (Option (String × ℕ))
parse_dns_name payload start =
    iterate 130 (name_round payload)
      (record { domain = []; offset = start; jumped = false; end_offset = start; visited = 0 })

pub record Questions : Type 0 where
  pub rounds : ℕ
  pub offset : ℕ
  pub query : Option String
  pub query_type : Option ℕ
  pub query_class : Option ℕ

abbrev pub is_none {ℓ} : {A : Type ℓ} → Option A → Bool
is_none none = true
is_none (some a) = false

-- What the loop does with the name it has read: leave, or record the first question and go on.
unfoldable pub take_question :
    List ℕ → Questions → Option (String × ℕ) → Outcome (Step Questions Questions)
take_question payload s none = returns (leaves s)
take_question payload s (some (name, new_off)) =
    when not (leb (new_off + 4) (length payload)) then returns (leaves s) else do
      qtype ← read_be16 payload new_off
      qclass ← read_be16 payload (new_off + 2)
      returns (
          goes_on (record {
            rounds = s.rounds + 1;
            offset = new_off + 4;
            query = if is_none s.query then some name else s.query;
            query_type = if is_none s.query then some qtype else s.query_type;
            query_class = if is_none s.query then some qclass else s.query_class;
          }))

unfoldable pub question_round : List ℕ → ℕ → Questions → Outcome (Step Questions Questions)
question_round payload question_count s =
    when not (ltb s.rounds question_count)
    then returns (leaves s)
    else do name ← parse_dns_name payload s.offset; take_question payload s name

pub record Answers : Type 0 where
  pub rounds : ℕ
  pub offset : ℕ
  pub answers : List DnsRecord

unfoldable pub take_answer : List ℕ → Answers → Option (String × ℕ) → Outcome (Step Answers Answers)
take_answer payload s none = returns (leaves s)
take_answer payload s (some (name, new_off)) =
    when not (leb (new_off + 10) (length payload)) then returns (leaves s) else do
      rtype ← read_be16 payload new_off
      rclass ← read_be16 payload (new_off + 2)
      ttl ← read_be32 payload (new_off + 4)
      rdlen ← read_be16 payload (new_off + 8)
      let rdata_start = new_off + 10
      when not (leb (rdata_start + rdlen) (length payload)) then returns (leaves s) else do
        rdata ← slice payload rdata_start (rdata_start + rdlen)
        returns (
            goes_on (record {
              rounds = s.rounds + 1;
              offset = rdata_start + rdlen;
              answers =
                  s.answers
                  ++ (record {
                    name = name;
                    rtype = rtype;
                    rclass = rclass;
                    ttl = ttl;
                    rdata = rdata;
                  }
                      ∷ []);
            }))

unfoldable pub answer_round : List ℕ → ℕ → Answers → Outcome (Step Answers Answers)
answer_round payload answer_count s =
    when not (ltb s.rounds answer_count)
    then returns (leaves s)
    else do name ← parse_dns_name payload s.offset; take_answer payload s name

unfoldable pub parse_dns : List ℕ → Outcome (Option DnsInfo)
parse_dns payload = when ltb (length payload) 12 then returns none else do
  transaction_id ← read_be16 payload 0
  flags_word ← read_be16 payload 2
  question_count ← read_be16 payload 4
  answer_count ← read_be16 payload 6
  authority_count ← read_be16 payload 8
  additional_count ← read_be16 payload 10
  questions ←
      iterate (question_count + 2) (question_round payload question_count)
        (record { rounds = 0; offset = 12; query = none; query_type = none; query_class = none })
  answers ←
      iterate (answer_count + 2) (answer_round payload answer_count)
        (record { rounds = 0; offset = questions.offset; answers = [] })
  returns (
      some (record {
        transaction_id = transaction_id;
        is_response = bit flags_word 15;
        opcode = flags_word / 2048 % 16;
        aa = bit flags_word 10;
        tc = bit flags_word 9;
        rd = bit flags_word 8;
        ra = bit flags_word 7;
        rcode = flags_word % 16;
        question_count = question_count;
        answer_count = answer_count;
        authority_count = authority_count;
        additional_count = additional_count;
        query = questions.query;
        query_type = questions.query_type;
        query_class = questions.query_class;
        answers = answers.answers;
      }))
