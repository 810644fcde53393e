-- ===== src/Parser/Radiotap/Safety.antt =====
-- The reads of `parse_radiotap` of src/parser.rs on arbitrary bytes.
use nids.Prelude.{ℕ, ◌+◌, ◌-◌, ◌≤◌, ◌<◌, List, length, arith, ltb-false→le}
use nids.Prelude.Loop.{Proceeds, Gives, Gives-returns, iterate-Gives}
use nids.Prelude.Safe.{
  Any, done, Gives-if, Gives-byte, Gives-le16, Gives-le32, Gives-call, Gives-read_when, byte-Gives,
  read_le16-Gives,
}
use nids.Parser.Link.{RadiotapInfo}
use nids.Parser.Radiotap.{
  read_i8, read_le64, presence_round, low_fields, middle_fields, high_fields, radiotap_fields,
  parse_radiotap,
}

read_i8-Gives : (xs : List ℕ) (i : ℕ) → i < length xs → Gives Any (read_i8 xs i)
unfolding read_i8
read_i8-Gives xs i h = Gives-byte xs i h (λ b. done)

read_le64-Gives : (xs : List ℕ) (i : ℕ) → i + 7 < length xs → Gives Any (read_le64 xs i)
unfolding read_le64
read_le64-Gives xs i h =
    Gives-le32 xs i (omega arith) (λ low. Gives-le32 xs (i + 4) (omega arith) (λ high. done))

module _ (xs : List ℕ) (header_len : ℕ) (fits : header_len ≤ length xs) where
  low_fields-Gives : (presence off : ℕ) → Gives Any (low_fields xs header_len presence off)
  unfolding low_fields
  low_fields-Gives presence off =
      Gives-read_when _ _ (λ t. byte-Gives xs _ (ground arith))
        (λ data_rate.
          Gives-read_when _ _ (λ t. read_le16-Gives xs _ (ground arith))
            (λ channel.
              Gives-read_when _ _ (λ t. read_le16-Gives xs _ (ground arith))
                (λ channel_flags.
                  Gives-read_when _ _ (λ t. read_i8-Gives xs _ (ground arith))
                    (λ dbm_antsignal.
                      Gives-read_when _ _ (λ t. read_i8-Gives xs _ (ground arith))
                        (λ noise_level. done)))))

  middle_fields-Gives :
      (presence : ℕ) (s : RadiotapInfo × ℕ) → Gives Any (middle_fields xs header_len presence s)
  unfolding middle_fields
  middle_fields-Gives presence (info, off) =
      Gives-read_when _ _ (λ t. read_i8-Gives xs _ (ground arith))
        (λ tx_power.
          Gives-read_when _ _ (λ t. byte-Gives xs _ (ground arith))
            (λ antenna_index.
              Gives-read_when _ _ (λ t. read_le16-Gives xs _ (ground arith)) (λ rx_flags. done)))

  high_fields-Gives :
      (presence : ℕ) (s : RadiotapInfo × ℕ) → Gives Any (high_fields xs header_len presence s)
  unfolding high_fields
  high_fields-Gives presence (info, off) =
      Gives-read_when _ _ (λ t. byte-Gives xs _ (ground arith))
        (λ mcs_flags.
          Gives-read_when _ _ (λ t. byte-Gives xs _ (ground arith))
            (λ mcs_index.
              Gives-read_when _ _ (λ t. read_le64-Gives xs _ (ground arith)) (λ timestamp. done)))

  presence_round-Gives :
      (s : ℕ × ℕ)
      → Unit {0}
      → Gives
          (Proceeds (λ (s : ℕ × ℕ). Unit {0}) (λ s. header_len - s.1) Any (header_len - s.1))
          (presence_round xs header_len s)
  unfolding presence_round
  presence_round-Gives (presence, fp_off) h =
      Gives-if _ (λ t. Gives-returns _ tt)
        (λ t.
          let k : fp_off + 4 ≤ header_len = ltb-false→le _ _ t in
          Gives-le32 xs fp_off (omega arith)
            (λ f. Gives-if _ (λ u. Gives-returns _ (tt, omega arith)) (λ u. Gives-returns _ tt)))

  radiotap_fields-Gives : Gives Any (radiotap_fields xs header_len)
  unfolding radiotap_fields
  radiotap_fields-Gives =
      Gives-call _
        (iterate-Gives (presence_round xs header_len) (λ s. Unit {0}) (λ s. header_len - s.1) Any
          presence_round-Gives (header_len + 1) _ tt (omega arith))
        (λ s. Gives-call _ (low_fields-Gives s.0 s.1) (λ low.
          Gives-call _ (middle_fields-Gives s.0 low)
            (λ middle. Gives-call _ (high_fields-Gives s.0 middle) (λ info. done))))

pub parse_radiotap-Gives : (xs : List ℕ) → Gives Any (parse_radiotap xs)
unfolding parse_radiotap
parse_radiotap-Gives xs =
    Gives-if _ (λ t. done)
      (λ t.
        let k : 8 ≤ length xs = ltb-false→le _ _ t in
        Gives-byte xs 0 (omega arith) (λ version.
          Gives-if _ (λ u. done)
            (λ u. Gives-le16 xs 2 (omega arith) (λ header_len.
              Gives-if _ (λ v. done) (λ v. radiotap_fields-Gives xs header_len (ground arith))))))
