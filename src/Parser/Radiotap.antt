-- ===== src/Parser/Radiotap.antt =====
-- `parse_radiotap` of src/parser.rs: the presence words, then the fields in the order of their bits.
pub mod Safety
use nids.Prelude.{
  ℕ, ◌+◌, ◌-◌, ◌*◌, ◌/◌, ◌%◌, Bool, true, false, not, ◌&&◌, ◌||◌, Option, none, some, List, map,
  length, leb, ltb, ◌==◌, if◌then◌else◌,
}
use nids.Prelude.Outcome.{Outcome, returns, ◌>>=◌, byte}
use nids.Prelude.Bytes.{bit, read_le16, read_le32}
use nids.Prelude.Loop.{when◌then◌else◌, Step, goes_on, leaves, iterate, read_when}
use nids.Parser.Link.{ℤ, pos, negsuc, RadiotapInfo}

-- data[off] as i8
unfoldable pub to_i8 : ℕ → ℤ
to_i8 b = if ltb b 128 then pos b else negsuc (255 - b)

unfoldable pub read_i8 : List ℕ → ℕ → Outcome ℤ
read_i8 xs i = do b ← byte xs i; returns (to_i8 b)

unfoldable pub read_le64 : List ℕ → ℕ → Outcome ℕ
read_le64 xs i = do
  low ← read_le32 xs i
  high ← read_le32 xs (i + 4)
  returns (high * 4294967296 + low)

-- skip!, align_to! and the two under present!
unfoldable pub skip : ℕ → ℕ → ℕ → ℕ
skip header_len n off = if leb (off + n) header_len then off + n else header_len

unfoldable pub align_to : ℕ → ℕ → ℕ
align_to a off = (off + a - 1) / a * a

unfoldable pub skip_field : Bool → ℕ → ℕ → ℕ → ℕ
skip_field present header_len n off = if present then skip header_len n off else off

unfoldable pub align_field : Bool → ℕ → ℕ → ℕ
align_field present a off = if present then align_to a off else off

-- One round over the presence words, with the first word and the offset.
unfoldable pub presence_round : List ℕ → ℕ → ℕ × ℕ → Outcome (Step (ℕ × ℕ) (ℕ × ℕ))
presence_round xs header_len (presence, fp_off) =
    when ltb header_len (fp_off + 4) then returns (leaves (presence, fp_off)) else do
      f ← read_le32 xs fp_off
      let presence' = if presence == 0 then f else presence
      when bit f 31
          then returns (goes_on (presence', fp_off + 4))
          else returns (leaves (presence', fp_off + 4))

-- The fields of bits 0 to 7, and the offset behind them.
unfoldable pub low_fields : List ℕ → ℕ → ℕ → ℕ → Outcome (RadiotapInfo × ℕ)
low_fields xs header_len presence off = do
  let off = skip_field (bit presence 0) header_len 8 (align_field (bit presence 0) 8 off)
  let off = skip_field (bit presence 1) header_len 1 off
  data_rate ← read_when (bit presence 2 && ltb off header_len) (byte xs off)
  let off = skip_field (bit presence 2) header_len 1 off
  let off = align_field (bit presence 3) 2 off
  channel ← read_when (bit presence 3 && leb (off + 4) header_len) (read_le16 xs off)
  channel_flags ← read_when (bit presence 3 && leb (off + 4) header_len) (read_le16 xs (off + 2))
  let off = skip_field (bit presence 3) header_len 4 off
  let off = skip_field (bit presence 4) header_len 2 off
  dbm_antsignal ← read_when (bit presence 5 && ltb off header_len) (read_i8 xs off)
  let off = skip_field (bit presence 5) header_len 1 off
  noise_level ← read_when (bit presence 6 && ltb off header_len) (read_i8 xs off)
  let off = skip_field (bit presence 6) header_len 1 off
  let off = skip_field (bit presence 7) header_len 2 (align_field (bit presence 7) 2 off)
  returns (
    record {
      header_len = header_len;
      dbm_antsignal = dbm_antsignal;
      channel = channel;
      channel_flags = channel_flags;
      data_rate = data_rate;
      noise_level = noise_level;
      tx_power = none;
      rx_flags = none;
      antenna_index = none;
      mcs_index = none;
      bandwidth = none;
      timestamp = none;
    },
    off,
  )

-- The fields of bits 8 to 17.
unfoldable pub middle_fields : List ℕ → ℕ → ℕ → RadiotapInfo × ℕ → Outcome (RadiotapInfo × ℕ)
middle_fields xs header_len presence (info, off) = do
  let off = skip_field (bit presence 8) header_len 2 (align_field (bit presence 8) 2 off)
  let off = skip_field (bit presence 9) header_len 2 (align_field (bit presence 9) 2 off)
  tx_power ← read_when (bit presence 10 && ltb off header_len) (read_i8 xs off)
  let off = skip_field (bit presence 10) header_len 1 off
  antenna_index ← read_when (bit presence 11 && ltb off header_len) (byte xs off)
  let off = skip_field (bit presence 11) header_len 1 off
  let off = skip_field (bit presence 12) header_len 1 off
  let off = skip_field (bit presence 13) header_len 1 off
  let off = align_field (bit presence 14) 2 off
  rx_flags ← read_when (bit presence 14 && leb (off + 2) header_len) (read_le16 xs off)
  let off = skip_field (bit presence 14) header_len 2 off
  let off = skip_field (bit presence 15) header_len 2 (align_field (bit presence 15) 2 off)
  let off = skip_field (bit presence 16) header_len 1 off
  let off = skip_field (bit presence 17) header_len 1 off
  returns
      (record info { tx_power = tx_power; antenna_index = antenna_index; rx_flags = rx_flags }, off)

-- The fields of bits 18 to 22.
unfoldable pub high_fields : List ℕ → ℕ → ℕ → RadiotapInfo × ℕ → Outcome RadiotapInfo
high_fields xs header_len presence (info, off) = do
  let off = skip_field (bit presence 18) header_len 8 (align_field (bit presence 18) 4 off)
  mcs_flags ← read_when (bit presence 19 && leb (off + 3) header_len) (byte xs (off + 1))
  mcs_index ← read_when (bit presence 19 && leb (off + 3) header_len) (byte xs (off + 2))
  let off = skip_field (bit presence 19) header_len 3 off
  let off = skip_field (bit presence 20) header_len 8 (align_field (bit presence 20) 4 off)
  let off = skip_field (bit presence 21) header_len 12 (align_field (bit presence 21) 2 off)
  let off = align_field (bit presence 22) 8 off
  timestamp ← read_when (bit presence 22 && leb (off + 8) header_len) (read_le64 xs off)
  returns (record info {
    mcs_index = mcs_index;
    bandwidth = elim mcs_flags [ none ↦ none | some flags ↦ some (flags % 4) ];
    timestamp = timestamp;
  })

unfoldable pub radiotap_fields : List ℕ → ℕ → Outcome (Option RadiotapInfo)
radiotap_fields xs header_len = do
  (presence, fp_off) ← iterate (header_len + 1) (presence_round xs header_len) (0, 4)
  low ← low_fields xs header_len presence fp_off
  middle ← middle_fields xs header_len presence low
  info ← high_fields xs header_len presence middle
  returns (some info)

-- data.len() < 8 || data[0] != 0 reads the byte only where there is one.
unfoldable pub parse_radiotap : List ℕ → Outcome (Option RadiotapInfo)
parse_radiotap xs = when ltb (length xs) 8 then returns none else do
  version ← byte xs 0
  when not (version == 0) then returns none else do
    header_len ← read_le16 xs 2
    when ltb (length xs) header_len || ltb header_len 8
        then returns none
        else radiotap_fields xs header_len
