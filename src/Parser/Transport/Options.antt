-- ===== src/Parser/Transport/Options.antt =====
-- `parse_tcp_options` of src/parser.rs against an encoder of option lists.
use nids.Prelude.{
  ℕ, zero, suc, ◌+◌, ◌/◌, ◌%◌, ◌^◌, ◌≤◌, ◌<◌, ◌≡◌, refl, true, some, List, [], ◌∷◌, ◌++◌, length,
  length-append, arith, All,
}
use mathlib.Core.List.{foldl, append_assoc}
use nids.Prelude.Outcome.{returns, ◌>>=◌, bind-returns, byte, slice_from}
use nids.Prelude.Bytes.{read_be16, read_be32}
use nids.Prelude.Loop.{goes_on, leaves, iterate, when◌then◌else◌}
use nids.Parser.Layers.{TcpOptions}
use nids.Parser.Transport.{tcp_option, tcp_option_round, parse_tcp_options, default_options}

-- The options without a list of blocks.
pub data TcpOption : Type 0 where
  nop : TcpOption
  mss : ℕ → TcpOption
  window_scale : ℕ → TcpOption
  sack_permitted : TcpOption
  timestamp : ℕ → ℕ → TcpOption

-- The numbers fit their fields.
abbrev pub IsOption : TcpOption → Type 0
IsOption nop = Unit {0}
IsOption (mss v) = v < 2 ^ 16
IsOption (window_scale v) = v < 256
IsOption sack_permitted = Unit {0}
IsOption (timestamp val echo) = (val < 2 ^ 32) × (echo < 2 ^ 32)

abbrev pub encode_option : TcpOption → List ℕ
encode_option nop = 1 ∷ []
encode_option (mss v) = 2 ∷ 4 ∷ v / 256 ∷ v % 256 ∷ []
encode_option (window_scale v) = 3 ∷ 3 ∷ v ∷ []
encode_option sack_permitted = 4 ∷ 2 ∷ []
encode_option (timestamp val echo) =
    8
    ∷ 10
    ∷ val / 2 ^ 24
    ∷ val / 2 ^ 16 % 256
    ∷ val / 2 ^ 8 % 256
    ∷ val % 256
    ∷ echo / 2 ^ 24
    ∷ echo / 2 ^ 16 % 256
    ∷ echo / 2 ^ 8 % 256
    ∷ echo % 256
    ∷ []

abbrev pub encode_options : List TcpOption → List ℕ
encode_options [] = []
encode_options (o ∷ os) = encode_option o ++ encode_options os

-- What an option says, after what came before it.
abbrev pub note : TcpOptions → TcpOption → TcpOptions
note opts nop = opts
note opts (mss v) = record opts { mss = some v }
note opts (window_scale v) = record opts { window_scale = some v }
note opts sack_permitted = record opts { sack_permitted = true }
note opts (timestamp val echo) = record opts { timestamp = some (val, echo) }

round-encode_option :
    (o : TcpOption) (rest : List ℕ) (opts : TcpOptions)
    → IsOption o
    → tcp_option_round (encode_option o ++ rest, opts) ≡ returns (goes_on (rest, note opts o))
unfolding tcp_option_round tcp_option when◌then◌else◌ byte slice_from read_be16 read_be32 ◌>>=◌
round-encode_option nop rest opts h = ground arith
round-encode_option (mss v) rest opts h = ground arith
round-encode_option (window_scale v) rest opts h = ground arith
round-encode_option sack_permitted rest opts h = ground arith
round-encode_option (timestamp val echo) rest opts h = ground arith

-- The options end with the bytes, or with an end mark and any padding.
abbrev pub IsEnd : List ℕ → Type 0
IsEnd [] = Unit {0}
IsEnd (x ∷ xs) = x ≡ 0

round-IsEnd :
    (tail : List ℕ) (opts : TcpOptions)
    → IsEnd tail
    → tcp_option_round (tail, opts) ≡ returns (leaves opts)
unfolding tcp_option_round when◌then◌else◌ byte ◌>>=◌
round-IsEnd [] opts h = refl
round-IsEnd (x ∷ xs) opts h = ground arith

iterate-encode_options :
    (n : ℕ) (os : List TcpOption) (tail : List ℕ) (opts : TcpOptions)
    → All IsOption os
    → IsEnd tail
    → length os < n
    → iterate n tcp_option_round (encode_options os ++ tail, opts) ≡ returns (foldl note opts os)
unfolding iterate
iterate-encode_options zero os tail opts h e fits = absurd (omega arith)
iterate-encode_options (suc n) [] tail opts h e fits = rw (round-IsEnd tail opts e, bind-returns)
iterate-encode_options (suc n) (o ∷ os) tail opts h e fits =
    rw
      (
        append_assoc (encode_option o) (encode_options os) tail,
        round-encode_option o (encode_options os ++ tail) opts h.0,
        bind-returns,
      )
      (iterate-encode_options n os tail (note opts o) h.1 e (omega arith))

length-encode_option : (o : TcpOption) → 1 ≤ length (encode_option o)
length-encode_option nop = omega arith
length-encode_option (mss v) = omega arith
length-encode_option (window_scale v) = omega arith
length-encode_option sack_permitted = omega arith
length-encode_option (timestamp val echo) = omega arith

length-encode_options : (os : List TcpOption) → length os ≤ length (encode_options os)
length-encode_options [] = omega arith
length-encode_options (o ∷ os) = omega (
  arith,
  length-encode_options os,
  length-append (encode_option o) (encode_options os),
  length-encode_option o,
)

-- Decoding encoded TCP options (NOP, MSS, window scale, SACK permitted, timestamp) gives what they
-- say in order, the last of a kind over the others, and ignores what is behind an end mark.
pub parse_tcp_options-encode_options :
    (os : List TcpOption) (tail : List ℕ)
    → All IsOption os
    → IsEnd tail
    → parse_tcp_options (encode_options os ++ tail) ≡ returns (foldl note default_options os)
unfolding parse_tcp_options
parse_tcp_options-encode_options os tail h e =
    iterate-encode_options (length (encode_options os ++ tail) + 1) os tail default_options h e
      (omega (arith, length-encode_options os, length-append (encode_options os) tail))
