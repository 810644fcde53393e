-- ===== src/Parser/Wifi/Safety.antt =====
-- The reads of the 802.11 frame's parser of src/parser.rs on arbitrary bytes.
use nids.Prelude.{ℕ, ◌+◌, ◌≤◌, Bool, List, length, arith, ltb-false→le, leb→le}
use nids.Prelude.Loop.{Gives}
use nids.Prelude.Safe.{
  Any, done, Gives-if, Gives-byte, Gives-be16, Gives-le16, Gives-slice, Gives-slice_from,
  Gives-call, Gives-read_when, read_le16-Gives, read_le32-Gives,
}
use nids.Parser.Link.{Mac, Wifi80211Header}
use nids.Parser.Mgmt.{WifiMgmtFrame}
use nids.Parser.Layers.{ParsedPacket}
use nids.Parser.Elements.Safety.{parse_wifi_ies-Gives}
use nids.Parser.Network.Safety.{parse_ethernet_payload-Gives}
use nids.Parser.Wifi.{
  read_mac, read_header, resolve_addresses, fixed_fields, tag_offset, request_frame, beacon_frame,
  mgmt_frame, llc_payload, data_frame, parse_80211_frame,
}

read_mac-Gives : (xs : List ℕ) (i : ℕ) → i + 6 ≤ length xs → Gives Any (read_mac xs i)
unfolding read_mac
read_mac-Gives xs i h = Gives-slice xs i (i + 6) (omega arith) h (λ mac e. done)

read_header-Gives : (xs : List ℕ) → 24 ≤ length xs → Gives Any (read_header xs)
unfolding read_header
read_header-Gives xs h = Gives-byte xs 0 (omega arith) (λ fc0. Gives-byte xs 1 (omega arith) (λ fc1.
    Gives-le16 xs 2 (omega arith) (λ duration. Gives-le16 xs 22 (omega arith) (λ seq_ctrl.
      Gives-read_when _ _ (λ t. read_le16-Gives xs _ (ground arith))
        (λ qos_control.
          Gives-read_when _ _ (λ t. read_le32-Gives xs _ (ground arith)) (λ ht_control. done))))))

resolve_addresses-Gives :
    (to_ds from_ds : Bool) (xs : List ℕ)
    → 24 ≤ length xs
    → Gives Any (resolve_addresses to_ds from_ds xs)
unfolding resolve_addresses
resolve_addresses-Gives to_ds from_ds xs h =
    Gives-call _ (read_mac-Gives xs 4 (omega arith)) (λ addr1.
      Gives-call _ (read_mac-Gives xs 10 (omega arith)) (λ addr2.
        Gives-call _ (read_mac-Gives xs 16 (omega arith)) (λ addr3.
          Gives-if _
            (λ t.
              Gives-if _
                (λ u.
                  Gives-if _
                    (λ v. Gives-call _ (read_mac-Gives xs 24 (leb→le _ _ v)) (λ addr4. done))
                    (λ v. done))
                (λ u. done))
            (λ t. Gives-if _ (λ u. done) (λ u. done)))))

fixed_fields-Gives :
    (frame_subtype : ℕ) (body : List ℕ) (mgmt : WifiMgmtFrame)
    → Gives Any (fixed_fields frame_subtype body mgmt)
unfolding fixed_fields
fixed_fields-Gives frame_subtype body mgmt =
    Gives-if _ (λ t. Gives-if _ (λ u. Gives-le16 body 0 (ground arith) (λ v. done)) (λ u. done))
      (λ t.
        Gives-if _
          (λ t.
            Gives-if _
              (λ u.
                Gives-le16 body 0 (ground arith)
                  (λ v. Gives-le16 body 2 (ground arith) (λ w. done)))
              (λ u. done))
          (λ t.
            Gives-if _
              (λ t.
                Gives-if _
                  (λ u.
                    Gives-le16 body 8 (ground arith)
                      (λ v. Gives-le16 body 10 (ground arith) (λ w. done)))
                  (λ u. done))
              (λ t. done)))

request_frame-Gives :
    (frame_subtype : ℕ) (src : Mac) (body : List ℕ) (mgmt : WifiMgmtFrame)
    → Gives Any (request_frame frame_subtype src body mgmt)
unfolding request_frame
request_frame-Gives frame_subtype src body mgmt =
    Gives-call _ (fixed_fields-Gives frame_subtype body _) (λ mgmt'.
      Gives-if _
        (λ t.
          Gives-slice_from body (tag_offset frame_subtype) (leb→le _ _ t)
            (λ rest e. parse_wifi_ies-Gives rest mgmt'))
        (λ t. done))

beacon_frame-Gives : (body : List ℕ) (mgmt : WifiMgmtFrame) → Gives Any (beacon_frame body mgmt)
unfolding beacon_frame
beacon_frame-Gives body mgmt =
    Gives-if _
      (λ t.
        let k : 12 ≤ length body = leb→le _ _ t in
        Gives-le16 body 8 (omega arith) (λ v.
          Gives-le16 body 10 (omega arith)
            (λ w. Gives-slice_from body 12 k (λ rest e. parse_wifi_ies-Gives rest _))))
      (λ t. done)

mgmt_frame-Gives :
    (frame_subtype : ℕ) (src dst : Mac) (body : List ℕ) (mgmt : WifiMgmtFrame)
    → Gives Any (mgmt_frame frame_subtype src dst body mgmt)
unfolding mgmt_frame
mgmt_frame-Gives frame_subtype src dst body mgmt =
    Gives-if _ (λ t. request_frame-Gives frame_subtype src body mgmt)
      (λ t.
        Gives-if _ (λ t. beacon_frame-Gives body mgmt)
          (λ t.
            Gives-if _
              (λ t.
                Gives-read_when _ _ (λ u. read_le16-Gives body 0 (ground arith)) (λ reason. done))
              (λ t.
                Gives-if _
                  (λ t.
                    Gives-read_when _ _ (λ u. read_le16-Gives body 4 (ground arith))
                      (λ status. done))
                  (λ t. done))))

llc_payload-Gives : (payload : List ℕ) (pkt : ParsedPacket) → Gives Any (llc_payload payload pkt)
unfolding llc_payload
llc_payload-Gives payload pkt =
    Gives-if _ (λ t. done)
      (λ t.
        let k : 8 ≤ length payload = ground arith in
        Gives-byte payload 0 (omega arith) (λ dsap. Gives-byte payload 1 (omega arith) (λ ssap.
          Gives-if _
            (λ u. Gives-be16 payload 6 (omega arith) (λ eth_type.
              Gives-slice_from payload 8 k
                (λ ip_payload e. parse_ethernet_payload-Gives eth_type ip_payload pkt)))
            (λ u. done))))

data_frame-Gives :
    (header : Wifi80211Header) (xs : List ℕ) (pkt : ParsedPacket)
    → Gives Any (data_frame header xs pkt)
unfolding data_frame
data_frame-Gives header xs pkt =
    Gives-if _
      (λ t.
        Gives-slice_from xs _ (ground arith)
          (λ payload e. Gives-if _ (λ u. done) (λ u. llc_payload-Gives payload _)))
      (λ t. done)

pub parse_80211_frame-Gives :
    (xs : List ℕ) (pkt : ParsedPacket) → Gives Any (parse_80211_frame xs pkt)
unfolding parse_80211_frame
parse_80211_frame-Gives xs pkt =
    Gives-if _ (λ t. done)
      (λ t.
        let k : 24 ≤ length xs = ltb-false→le _ _ t in
        Gives-call _ (read_header-Gives xs k) (λ header.
          Gives-call _ (resolve_addresses-Gives header.to_ds header.from_ds xs k) (λ addresses.
            Gives-if _
              (λ u.
                Gives-slice_from xs 24 k
                  (λ body e. Gives-call _ (mgmt_frame-Gives _ _ _ body _) (λ mgmt. done)))
              (λ u. Gives-if _ (λ v. data_frame-Gives header xs _) (λ v. done)))))
