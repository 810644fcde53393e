-- ===== src/Parser/Mgmt.antt =====
-- The types of src/parser.rs for 802.11 management frames and their information elements.
use nids.Prelude.{ℕ, Option, List}
use nids.Parser.Link.{String, Mac}

pub record CountryInfo : Type 0 where
  pub country_code : List ℕ
  pub environment : ℕ
  pub triplets : List ℕ

pub record TimInfo : Type 0 where
  pub dtim_count : ℕ
  pub dtim_period : ℕ
  pub bitmap_control : ℕ
  pub partial_virtual_bitmap : List ℕ

pub record HtCapabilities : Type 0 where
  pub ht_cap_info : ℕ
  pub ampdu_params : ℕ
  pub raw : List ℕ

pub record HtOperation : Type 0 where
  pub primary_channel : ℕ
  pub raw : List ℕ

pub record VhtCapabilities : Type 0 where
  pub vht_cap_info : ℕ
  pub raw : List ℕ

-- The field `data` is `bytes` here and in the records below.
pub record VendorIe : Type 0 where
  pub oui : List ℕ
  pub oui_type : ℕ
  pub bytes : List ℕ

pub record RsnInfo : Type 0 where
  pub group_cipher : Option ℕ
  pub pairwise_ciphers : List ℕ
  pub akm_suites : List ℕ
  pub capabilities : Option ℕ

pub record WifiMgmtFrame : Type 0 where
  pub subtype : ℕ
  pub ssid : Option String
  pub channel : Option ℕ
  pub rsn_info : Option RsnInfo
  pub reason_code : Option ℕ
  pub status_code : Option ℕ
  pub bssid : Mac
  pub client_mac : Option Mac
  pub raw_body : List ℕ
  pub beacon_interval : Option ℕ
  pub capability_info : Option ℕ
  pub supported_rates : List ℕ
  pub extended_supported_rates : List ℕ
  pub country_info : Option CountryInfo
  pub tim : Option TimInfo
  pub erp_info : Option ℕ
  pub ht_capabilities : Option HtCapabilities
  pub ht_operation : Option HtOperation
  pub vht_capabilities : Option VhtCapabilities
  pub vendor_ies : List VendorIe
