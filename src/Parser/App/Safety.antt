-- ===== src/Parser/App/Safety.antt =====
-- The reads of DHCP, EAPOL and the application dispatcher of src/parser.rs on arbitrary bytes.
use nids.Prelude.{ℕ, ◌+◌, ◌-◌, ◌≤◌, ◌<◌, ◌≡◌, List, length, arith, ltb-false→le, leb→le}
use nids.Prelude.Loop.{Proceeds, Gives, Gives-returns, iterate-Gives}
use nids.Prelude.Safe.{
  Any, done, Gives-slice_last, Gives-if, Gives-byte, Gives-be16, Gives-be32, Gives-slice,
  Gives-call,
}
use nids.Parser.Layers.{DhcpInfo, ParsedPacket}
use nids.Parser.Dns.Safety.{parse_dns-Gives}
use nids.Parser.App.{
  dhcp_option, dhcp_round, parse_dhcp, read_be64, slice_or_zeros, eapol_key, parse_eapol,
  parse_app_layer,
}

dhcp_option-Gives :
    (opt_type opt_len : ℕ) (opt_data : List ℕ) (info : DhcpInfo)
    → length opt_data ≡ opt_len
    → Gives Any (dhcp_option opt_type opt_len opt_data info)
unfolding dhcp_option
dhcp_option-Gives opt_type opt_len opt_data info e =
    Gives-if _ (λ t. done)
      (λ t.
        Gives-if _
          (λ t. Gives-if _ (λ u. Gives-be32 opt_data 0 (ground arith) (λ v. done)) (λ u. done))
          (λ t.
            Gives-if _
              (λ t. Gives-if _ (λ u. Gives-byte opt_data 0 (ground arith) (λ v. done)) (λ u. done))
              (λ t.
                Gives-if _
                  (λ t.
                    Gives-if _ (λ u. Gives-be32 opt_data 0 (ground arith) (λ v. done)) (λ u. done))
                  (λ t.
                    Gives-if _ (λ t. done)
                      (λ t.
                        Gives-if _
                          (λ t.
                            Gives-if _ (λ u. Gives-be32 opt_data 0 (ground arith) (λ v. done))
                              (λ u. done))
                          (λ t. Gives-if _ (λ t. done) (λ t. done)))))))

dhcp_round-Gives :
    (payload : List ℕ) (s : ℕ × DhcpInfo)
    → s.0 ≤ length payload
    → Gives
        (Proceeds
          (λ (s : ℕ × DhcpInfo). s.0 ≤ length payload)
          (λ s. length payload - s.0)
          Any
          (length payload - s.0))
        (dhcp_round payload s)
unfolding dhcp_round
dhcp_round-Gives payload (offset, info) h =
    Gives-if _ (λ t. Gives-returns _ tt)
      (λ t.
        let k : offset + 1 ≤ length payload = ground arith in
        Gives-byte payload offset (omega arith) (λ opt_type.
          Gives-if _ (λ t. Gives-returns _ tt)
            (λ t.
              Gives-if _ (λ t. Gives-returns _ (omega arith, omega arith))
                (λ t.
                  Gives-if _ (λ u. Gives-returns _ tt)
                    (λ u.
                      let k' : offset + 2 ≤ length payload = ltb-false→le _ _ u in
                      Gives-byte payload (offset + 1) (omega arith) (λ opt_len.
                        Gives-if _ (λ v. Gives-returns _ tt)
                          (λ v.
                            let k'' : offset + 2 + opt_len ≤ length payload = ltb-false→le _ _ v in
                            Gives-slice payload (offset + 2) (offset + 2 + opt_len) (omega arith)
                              k''
                              (λ opt_data e.
                                Gives-call _
                                  (dhcp_option-Gives opt_type opt_len opt_data info (omega arith))
                                  (λ info'. Gives-returns _ (omega arith, omega arith))))))))))

pub parse_dhcp-Gives : (payload : List ℕ) → Gives Any (parse_dhcp payload)
unfolding parse_dhcp
parse_dhcp-Gives payload =
    Gives-if _ (λ t. done)
      (λ t.
        let k : 240 ≤ length payload = ltb-false→le _ _ t in
        Gives-be32 payload 236 (omega arith) (λ magic.
          Gives-if _ (λ u. done)
            (λ u. Gives-be32 payload 4 (omega arith) (λ transaction_id.
              Gives-be32 payload 12 (omega arith) (λ client_ip.
                Gives-be32 payload 16 (omega arith) (λ your_ip.
                  Gives-be32 payload 24 (omega arith) (λ relay_ip.
                    Gives-slice payload 28 34 (omega arith) (omega arith) (λ mac e.
                      Gives-call _
                        (iterate-Gives (dhcp_round payload) (λ s. s.0 ≤ length payload)
                          (λ s. length payload - s.0) Any (dhcp_round-Gives payload)
                          (length payload) _ k (omega arith))
                        (λ info. done)))))))))

read_be64-Gives : (xs : List ℕ) (i : ℕ) → i + 7 < length xs → Gives Any (read_be64 xs i)
unfolding read_be64
read_be64-Gives xs i h =
    Gives-be32 xs i (omega arith) (λ high. Gives-be32 xs (i + 4) (omega arith) (λ low. done))

slice_or_zeros-Gives :
    (body : List ℕ) (a b : ℕ) → a ≤ b → b ≤ length body → Gives Any (slice_or_zeros body a b)
unfolding slice_or_zeros
slice_or_zeros-Gives body a b h k = Gives-if _ (λ t. Gives-slice_last body a b h k) (λ t. done)

eapol_key-Gives :
    (version packet_type : ℕ) (body : List ℕ) (pkt : ParsedPacket)
    → 97 ≤ length body
    → Gives Any (eapol_key version packet_type body pkt)
unfolding eapol_key
eapol_key-Gives version packet_type body pkt h = Gives-byte body 0 (omega arith) (λ key_desc_type.
    Gives-be16 body 1 (omega arith) (λ key_info.
      Gives-call _ (read_be64-Gives body 9 (omega arith)) (λ replay_counter.
        Gives-call _ (slice_or_zeros-Gives body 17 49 (omega arith) (omega arith)) (λ key_nonce.
          Gives-call _ (slice_or_zeros-Gives body 49 65 (omega arith) (omega arith)) (λ key_iv.
            Gives-call _ (slice_or_zeros-Gives body 77 93 (omega arith) (omega arith)) (λ mic.
              Gives-be16 body 95 (omega arith) (λ key_data_len.
                Gives-call _
                  (Gives-if _
                    (λ t. Gives-slice_last body 97 (97 + key_data_len) (omega arith) (leb→le _ _ t))
                    (λ t. done))
                  (λ raw_key_data. done))))))))

pub parse_eapol-Gives : (xs : List ℕ) (pkt : ParsedPacket) → Gives Any (parse_eapol xs pkt)
unfolding parse_eapol
parse_eapol-Gives xs pkt =
    Gives-if _ (λ t. done)
      (λ t.
        let k : 4 ≤ length xs = ltb-false→le _ _ t in
        Gives-byte xs 0 (omega arith) (λ version. Gives-byte xs 1 (omega arith) (λ packet_type.
          Gives-be16 xs 2 (omega arith) (λ len.
            Gives-if _ (λ u. done)
              (λ u. Gives-slice xs 4 (4 + len) (omega arith) (ltb-false→le _ _ u) (λ body e.
                Gives-if _ (λ v. eapol_key-Gives version packet_type body pkt (ground arith))
                  (λ v. done)))))))

pub parse_app_layer-Gives :
    (src_port dst_port : ℕ) (payload : List ℕ) (pkt : ParsedPacket)
    → Gives Any (parse_app_layer src_port dst_port payload pkt)
unfolding parse_app_layer
parse_app_layer-Gives src_port dst_port payload pkt =
    Gives-if _ (λ t. Gives-call _ (parse_dns-Gives payload) (λ r. done))
      (λ t. Gives-if _ (λ u. Gives-call _ (parse_dhcp-Gives payload) (λ r. done)) (λ u. done))
