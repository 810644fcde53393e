-- ===== src/Parser/Elements/Safety.antt =====
-- The reads of `parse_wifi_ies` and `parse_rsn_ie` of src/parser.rs on arbitrary bytes.
use nids.Prelude.{ℕ, ◌+◌, ◌-◌, ◌≤◌, ◌≡◌, List, length, arith, ltb-false→le, leb→le}
use nids.Prelude.Outcome.{Outcome}
use nids.Prelude.Loop.{Proceeds, Gives, Gives-returns, iterate-Gives}
use nids.Prelude.Safe.{
  Any, done, Gives-if, Gives-byte, Gives-le16, Gives-le32, Gives-be32, Gives-slice,
  Gives-slice_from, Gives-call, Gives-read_when, byte-Gives, read_le16-Gives,
}
use nids.Parser.Mgmt.{WifiMgmtFrame}
use nids.Parser.Elements.{
  SuiteState, suite_round, read_suites, parse_rsn_ie, when_long, tim_element, country_element,
  ht_capabilities_element, vendor_element, wifi_ie, wifi_ie_round, parse_wifi_ies,
}

suite_round-Gives :
    (xs : List ℕ) (count : ℕ) (s : SuiteState)
    → Unit {0}
    → Gives
        (Proceeds
          (λ (s : SuiteState). Unit {0})
          (λ s. length xs - s.offset)
          Any
          (length xs - s.offset))
        (suite_round xs count s)
unfolding suite_round
suite_round-Gives xs count s h =
    Gives-if _ (λ t. Gives-returns _ tt)
      (λ t.
        Gives-if _ (λ u. Gives-returns _ tt)
          (λ u.
            let k : s.offset + 4 ≤ length xs = ltb-false→le _ _ u in
            Gives-be32 xs s.offset (omega arith) (λ suite. Gives-returns _ (tt, omega arith))))

read_suites-Gives : (xs : List ℕ) (count offset : ℕ) → Gives Any (read_suites xs count offset)
unfolding read_suites
read_suites-Gives xs count offset =
    iterate-Gives (suite_round xs count) (λ s. Unit {0}) (λ s. length xs - s.offset) Any
      (suite_round-Gives xs count) (length xs + 2) _ tt (omega arith)

parse_rsn_ie-Gives : (xs : List ℕ) → Gives Any (parse_rsn_ie xs)
unfolding parse_rsn_ie
parse_rsn_ie-Gives xs =
    Gives-if _ (λ t. done)
      (λ t.
        let k : 6 ≤ length xs = ltb-false→le _ _ t in
        Gives-le16 xs 0 (omega arith) (λ version.
          Gives-if _ (λ u. done)
            (λ u. Gives-be32 xs 2 (omega arith) (λ group_cipher.
              Gives-if _ (λ v. done)
                (λ v. Gives-le16 xs 6 (ground arith) (λ pairwise_count.
                  Gives-call _ (read_suites-Gives xs pairwise_count 8) (λ pairwise.
                    Gives-if _ (λ w. done)
                      (λ w. Gives-le16 xs pairwise.offset (ground arith) (λ akm_count.
                        Gives-call _ (read_suites-Gives xs akm_count (pairwise.offset + 2)) (λ akm.
                          Gives-read_when _ _ (λ z. read_le16-Gives xs akm.offset (ground arith))
                            (λ capabilities. done)))))))))))

when_long-Gives :
    (need ie_len : ℕ) (mgmt : WifiMgmtFrame) (m : Outcome WifiMgmtFrame)
    → (need ≤ ie_len → Gives Any m)
    → Gives Any (when_long need ie_len mgmt m)
unfolding when_long
when_long-Gives need ie_len mgmt m h = Gives-if _ (λ t. h (leb→le _ _ t)) (λ t. done)

tim_element-Gives :
    (ie_data : List ℕ) (mgmt : WifiMgmtFrame)
    → 4 ≤ length ie_data
    → Gives Any (tim_element ie_data mgmt)
unfolding tim_element
tim_element-Gives ie_data mgmt h = Gives-byte ie_data 0 (omega arith) (λ a.
    Gives-byte ie_data 1 (omega arith) (λ b.
      Gives-byte ie_data 2 (omega arith)
        (λ c. Gives-slice_from ie_data 3 (omega arith) (λ rest e. done))))

country_element-Gives :
    (ie_data : List ℕ) (mgmt : WifiMgmtFrame)
    → 3 ≤ length ie_data
    → Gives Any (country_element ie_data mgmt)
unfolding country_element
country_element-Gives ie_data mgmt h = Gives-byte ie_data 0 (omega arith) (λ a.
    Gives-byte ie_data 1 (omega arith) (λ b.
      Gives-byte ie_data 2 (omega arith)
        (λ c. Gives-slice_from ie_data 3 (omega arith) (λ rest e. done))))

ht_capabilities_element-Gives :
    (ie_len : ℕ) (ie_data : List ℕ) (mgmt : WifiMgmtFrame)
    → 2 ≤ ie_len
    → length ie_data ≡ ie_len
    → Gives Any (ht_capabilities_element ie_len ie_data mgmt)
unfolding ht_capabilities_element
ht_capabilities_element-Gives ie_len ie_data mgmt h e = Gives-le16 ie_data 0 (omega arith) (λ a.
    Gives-call _ (Gives-if _ (λ t. byte-Gives ie_data 2 (ground arith)) (λ t. done)) (λ b. done))

vendor_element-Gives :
    (ie_data : List ℕ) (mgmt : WifiMgmtFrame)
    → 4 ≤ length ie_data
    → Gives Any (vendor_element ie_data mgmt)
unfolding vendor_element
vendor_element-Gives ie_data mgmt h = Gives-byte ie_data 0 (omega arith) (λ a.
    Gives-byte ie_data 1 (omega arith) (λ b. Gives-byte ie_data 2 (omega arith) (λ c.
      Gives-byte ie_data 3 (omega arith)
        (λ d. Gives-slice_from ie_data 4 (omega arith) (λ rest e. done)))))

wifi_ie-Gives :
    (ie_type ie_len : ℕ) (ie_data : List ℕ) (mgmt : WifiMgmtFrame)
    → length ie_data ≡ ie_len
    → Gives Any (wifi_ie ie_type ie_len ie_data mgmt)
unfolding wifi_ie
wifi_ie-Gives ie_type ie_len ie_data mgmt e =
    Gives-if _ (λ t. done)
      (λ t.
        Gives-if _ (λ t. done)
          (λ t.
            Gives-if _
              (λ t.
                when_long-Gives 1 ie_len mgmt _
                  (λ h. Gives-byte ie_data 0 (omega arith) (λ v. done)))
              (λ t.
                Gives-if _
                  (λ t.
                    when_long-Gives 4 ie_len mgmt _
                      (λ h. tim_element-Gives ie_data mgmt (omega arith)))
                  (λ t.
                    Gives-if _
                      (λ t.
                        when_long-Gives 3 ie_len mgmt _
                          (λ h. country_element-Gives ie_data mgmt (omega arith)))
                      (λ t.
                        Gives-if _
                          (λ t.
                            when_long-Gives 1 ie_len mgmt _
                              (λ h. Gives-byte ie_data 0 (omega arith) (λ v. done)))
                          (λ t.
                            Gives-if _
                              (λ t.
                                when_long-Gives 2 ie_len mgmt _
                                  (λ h. ht_capabilities_element-Gives ie_len ie_data mgmt h e))
                              (λ t.
                                Gives-if _
                                  (λ t. Gives-call _ (parse_rsn_ie-Gives ie_data) (λ r. done))
                                  (λ t.
                                    Gives-if _ (λ t. done)
                                      (λ t.
                                        Gives-if _
                                          (λ t.
                                            when_long-Gives 1 ie_len mgmt _
                                              (λ h. Gives-byte ie_data 0 (omega arith) (λ v. done)))
                                          (λ t.
                                            Gives-if _
                                              (λ t. when_long-Gives 4 ie_len mgmt _ (λ h.
                                                Gives-le32 ie_data 0 (omega arith) (λ v. done)))
                                              (λ t.
                                                Gives-if _
                                                  (λ t. when_long-Gives 4 ie_len mgmt _ (λ h.
                                                    vendor_element-Gives ie_data mgmt
                                                      (omega arith)))
                                                  (λ t. done))))))))))))

wifi_ie_round-Gives :
    (s : List ℕ × WifiMgmtFrame)
    → Unit {0}
    → Gives
        (Proceeds (λ (s : List ℕ × WifiMgmtFrame). Unit {0}) (λ s. length s.0) Any (length s.0))
        (wifi_ie_round s)
unfolding wifi_ie_round
wifi_ie_round-Gives (xs, mgmt) h =
    Gives-if _ (λ t. Gives-returns _ tt)
      (λ t.
        let k : 2 ≤ length xs = ground arith in
        Gives-byte xs 0 (omega arith) (λ ie_type. Gives-byte xs 1 (omega arith) (λ ie_len.
          Gives-if _ (λ u. Gives-returns _ tt)
            (λ u.
              let k' : 2 + ie_len ≤ length xs = ltb-false→le _ _ u in
              Gives-slice xs 2 (2 + ie_len) (omega arith) k' (λ ie_data e.
                Gives-call _ (wifi_ie-Gives ie_type ie_len ie_data mgmt (omega arith)) (λ mgmt'.
                  Gives-slice_from xs (2 + ie_len) k'
                    (λ rest e'. Gives-returns _ (tt, omega arith))))))))

-- Reading information elements returns, whatever lengths they claim.
pub parse_wifi_ies-Gives : (xs : List ℕ) (mgmt : WifiMgmtFrame) → Gives Any (parse_wifi_ies xs mgmt)
unfolding parse_wifi_ies
parse_wifi_ies-Gives xs mgmt =
    iterate-Gives wifi_ie_round (λ s. Unit {0}) (λ s. length s.0) Any wifi_ie_round-Gives
      (length xs + 1) _ tt (omega arith)
