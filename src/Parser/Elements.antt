-- ===== src/Parser/Elements.antt =====
-- `parse_wifi_ies` and `parse_rsn_ie` of src/parser.rs: the information elements.
pub mod Safety
use nids.Prelude.{
  ℕ, ◌+◌, ◌*◌, Bool, true, false, not, Option, none, some, List, [], ◌∷◌, ◌++◌, length, leb, ltb,
  ◌==◌, if◌then◌else◌,
}
use nids.Prelude.Outcome.{Outcome, returns, ◌>>=◌, byte, slice, slice_from}
use nids.Prelude.Bytes.{read_le16, read_le32, read_be32}
use nids.Prelude.Loop.{when◌then◌else◌, Step, goes_on, leaves, iterate, read_when}
use nids.Parser.Mgmt.{
  CountryInfo, TimInfo, HtCapabilities, HtOperation, VhtCapabilities, VendorIe, RsnInfo,
  WifiMgmtFrame,
}
use nids.Parser.Text.{from_utf8_lossy}

pub record SuiteState : Type 0 where
  pub rounds : ℕ
  pub offset : ℕ
  pub suites : List ℕ

-- One round of `for _ in 0..count` over cipher suites of four bytes.
unfoldable pub suite_round : List ℕ → ℕ → SuiteState → Outcome (Step SuiteState SuiteState)
suite_round xs count s =
    when not (ltb s.rounds count)
    then returns (leaves s)
    else when ltb (length xs) (s.offset + 4)
    then returns (leaves s)
    else do
      suite ← read_be32 xs s.offset
      returns (
          goes_on (record {
            rounds = s.rounds + 1;
            offset = s.offset + 4;
            suites = s.suites ++ (suite ∷ []);
          }))

unfoldable pub read_suites : List ℕ → ℕ → ℕ → Outcome SuiteState
read_suites xs count offset =
    iterate (length xs + 2) (suite_round xs count)
      (record { rounds = 0; offset = offset; suites = [] })

unfoldable pub parse_rsn_ie : List ℕ → Outcome (Option RsnInfo)
parse_rsn_ie xs = when ltb (length xs) 6 then returns none else do
  version ← read_le16 xs 0
  when not (version == 1) then returns none else do
    group_cipher ← read_be32 xs 2
    let info : RsnInfo = record {
      group_cipher = some group_cipher;
      pairwise_ciphers = [];
      akm_suites = [];
      capabilities = none;
    }
    when ltb (length xs) (6 + 2) then returns (some info) else do
      pairwise_count ← read_le16 xs 6
      pairwise ← read_suites xs pairwise_count 8
      when ltb (length xs) (pairwise.offset + 2)
          then returns (some (record info { pairwise_ciphers = pairwise.suites }))
          else do
            akm_count ← read_le16 xs pairwise.offset
            akm ← read_suites xs akm_count (pairwise.offset + 2)
            capabilities ← read_when (leb (akm.offset + 2) (length xs)) (read_le16 xs akm.offset)
            returns (
                some (record info {
                  pairwise_ciphers = pairwise.suites;
                  akm_suites = akm.suites;
                  capabilities = capabilities;
                }))

-- The elements whose bytes are decoded only where there are enough: `need` of them.
unfoldable pub when_long : ℕ → ℕ → WifiMgmtFrame → Outcome WifiMgmtFrame → Outcome WifiMgmtFrame
when_long need ie_len mgmt m = when leb need ie_len then m else returns mgmt

unfoldable pub tim_element : List ℕ → WifiMgmtFrame → Outcome WifiMgmtFrame
tim_element ie_data mgmt = do
  dtim_count ← byte ie_data 0
  dtim_period ← byte ie_data 1
  bitmap_control ← byte ie_data 2
  rest ← slice_from ie_data 3
  returns (record mgmt {
    tim = some (record {
      dtim_count = dtim_count;
      dtim_period = dtim_period;
      bitmap_control = bitmap_control;
      partial_virtual_bitmap = rest;
    });
  })

unfoldable pub country_element : List ℕ → WifiMgmtFrame → Outcome WifiMgmtFrame
country_element ie_data mgmt = do
  a ← byte ie_data 0
  b ← byte ie_data 1
  environment ← byte ie_data 2
  triplets ← slice_from ie_data 3
  returns (record mgmt {
    country_info =
        some (record { country_code = a ∷ b ∷ []; environment = environment; triplets = triplets });
  })

unfoldable pub ht_capabilities_element : ℕ → List ℕ → WifiMgmtFrame → Outcome WifiMgmtFrame
ht_capabilities_element ie_len ie_data mgmt = do
  ht_cap_info ← read_le16 ie_data 0
  ampdu_params ← when leb 3 ie_len then byte ie_data 2 else returns 0
  returns (record mgmt {
    ht_capabilities =
        some (record { ht_cap_info = ht_cap_info; ampdu_params = ampdu_params; raw = ie_data });
  })

unfoldable pub vendor_element : List ℕ → WifiMgmtFrame → Outcome WifiMgmtFrame
vendor_element ie_data mgmt = do
  a ← byte ie_data 0
  b ← byte ie_data 1
  c ← byte ie_data 2
  oui_type ← byte ie_data 3
  rest ← slice_from ie_data 4
  returns (record mgmt {
    vendor_ies =
        mgmt.vendor_ies
        ++ (record { oui = a ∷ b ∷ c ∷ []; oui_type = oui_type; bytes = rest } ∷ []);
  })

-- match ie_type
unfoldable pub wifi_ie : ℕ → ℕ → List ℕ → WifiMgmtFrame → Outcome WifiMgmtFrame
wifi_ie ie_type ie_len ie_data mgmt =
    when ie_type == 0
    then returns (record mgmt { ssid = some (from_utf8_lossy ie_data) })
    else when ie_type == 1
    then returns (record mgmt { supported_rates = ie_data })
    else when ie_type == 3
    then when_long 1 ie_len mgmt (do v ← byte ie_data 0; returns (record mgmt { channel = some v }))
    else when ie_type == 5
    then when_long 4 ie_len mgmt (tim_element ie_data mgmt)
    else when ie_type == 7
    then when_long 3 ie_len mgmt (country_element ie_data mgmt)
    else when ie_type == 42
    then when_long 1 ie_len mgmt
        (do v ← byte ie_data 0; returns (record mgmt { erp_info = some v }))
    else when ie_type == 45
    then when_long 2 ie_len mgmt (ht_capabilities_element ie_len ie_data mgmt)
    else when ie_type == 48
    then (do r ← parse_rsn_ie ie_data; returns (record mgmt { rsn_info = r }))
    else when ie_type == 50
    then returns (record mgmt { extended_supported_rates = ie_data })
    else when ie_type == 61
    then when_long 1 ie_len mgmt (do
      v ← byte ie_data 0
      returns (record mgmt { ht_operation = some (record { primary_channel = v; raw = ie_data }) }))
    else when ie_type == 191
    then when_long 4 ie_len mgmt (do
      v ← read_le32 ie_data 0
      returns
          (record mgmt { vht_capabilities = some (record { vht_cap_info = v; raw = ie_data }) }))
    else when ie_type == 221
    then when_long 4 ie_len mgmt (vendor_element ie_data mgmt)
    else returns mgmt

-- One round over the elements that are left.
unfoldable pub wifi_ie_round :
    List ℕ × WifiMgmtFrame → Outcome (Step (List ℕ × WifiMgmtFrame) WifiMgmtFrame)
wifi_ie_round (xs, mgmt) = when not (leb 2 (length xs)) then returns (leaves mgmt) else do
  ie_type ← byte xs 0
  ie_len ← byte xs 1
  when ltb (length xs) (2 + ie_len) then returns (leaves mgmt) else do
    ie_data ← slice xs 2 (2 + ie_len)
    mgmt' ← wifi_ie ie_type ie_len ie_data mgmt
    rest ← slice_from xs (2 + ie_len)
    returns (goes_on (rest, mgmt'))

unfoldable pub parse_wifi_ies : List ℕ → WifiMgmtFrame → Outcome WifiMgmtFrame
parse_wifi_ies xs mgmt = iterate (length xs + 1) wifi_ie_round (xs, mgmt)
