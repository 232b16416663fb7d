-- ===== src/Tests/Conf.antt =====
-- A configuration with a pair name and one peer, written and read back.
use wireguardd.Base.{
  trim_space, is_edge, text, is_space, split_at, has_byte, Bytes, ◌≡◌, refl, inl, inr, [], ◌∷◌,
  ◌++◌, arith,
}
use wireguardd.Conf.{InterfaceSection, PeerSection, render}
use wireguardd.Conf.Parse.{ParseError}
use wireguardd.Conf.Parse.Loop.{blank_interface, blank_peer, parse, scan_lines}
use wireguardd.Conf.Parse.Errors.{Reports, parse-Reports}
use wireguardd.Conf.Reading.{Fits}
use wireguardd.Conf.Reading.Interface.{IsWritable, without_comments}
use wireguardd.Conf.Reading.Peers.{IsWritablePeer}
use wireguardd.Conf.RoundTrip.{parse-render_interface, parse-render_peers}

abbrev paired : InterfaceSection
paired = record blank_interface {
  private_key = text "k=";
  address = text "10.0.0.1/24" ∷ [];
  listen_port = 51820;
  dns = text "1.1.1.1" ∷ text "9.9.9.9" ∷ [];
  post_up = text "up a" ++ b'\n' ∷ text "up b";
  jc = 4;
  h1 = text "7";
  public_key_comment = text "p=";
  pair_name = text "wg1";
}

abbrev phone : PeerSection
phone = record blank_peer {
  public_key = text "x=";
  allowed_ips = text "10.0.0.2/32" ∷ [];
  name = text "phone";
  traffic_limit = 1000;
  persistent_keepalive = 25;
  notes = text "a note";
}

-- What the witnesses assume of the two.
abbrev paired-IsWritable : IsWritable paired
unfolding is_edge is_space has_byte split_at
paired-IsWritable = record {
  private_key = inr (refl, refl, refl);
  address = (((refl, refl, refl), refl), tt);
  listen_port = omega arith;
  dns = (((refl, refl, refl), refl), (((refl, refl, refl), refl), tt));
  mtu = omega arith;
  table = inl refl;
  fw_mark = omega arith;
  pre_up = inl refl;
  post_up = inr ((refl, refl, refl), ((refl, refl, refl), tt));
  pre_down = inl refl;
  post_down = inl refl;
  amnezia_ints = (
    omega arith,
    (omega arith, (omega arith, (omega arith, (omega arith, (omega arith, (omega arith, tt)))))),
  );
  amnezia_texts = (
    inr (refl, refl, refl),
    (
      inl refl,
      (inl refl, (inl refl, (inl refl, (inl refl, (inl refl, (inl refl, (inl refl, tt))))))),
    ),
  );
  public_key_comment = inr (refl, refl, refl);
  peer_dns = inl refl;
  peer_endpoint = inl refl;
  backend = inl refl;
  protocol = inl refl;
  pair_name = inr (refl, refl, refl);
}

abbrev phone-IsWritablePeer : IsWritablePeer phone
unfolding is_edge is_space has_byte
phone-IsWritablePeer = record {
  public_key = (refl, refl, refl);
  preshared_key = inl refl;
  allowed_ips = (((refl, refl, refl), refl), tt);
  endpoint = inl refl;
  persistent_keepalive = omega arith;
  name = inr (refl, refl, refl);
  address = inl refl;
  dns = inl refl;
  client_allowed_ips = inl refl;
  traffic_limit = omega arith;
  expires_at = inl refl;
  notes = inr (refl, refl, refl);
}

paired-Fits : Fits (render (record { interface = paired; peers = [] }))
unfolding render scan_lines
paired-Fits = (
  refl,
  (refl, (refl, (refl, (refl, (refl, (refl, (refl, (refl, (refl, (refl, (refl, tt))))))))))),
)

parse-render_interface_example :
    parse (render (record { interface = paired; peers = [] }))
    ≡ inr (record { interface = paired; peers = [] })
parse-render_interface_example = parse-render_interface paired paired-IsWritable paired-Fits

phone-Fits : Fits (render (record { interface = paired; peers = phone ∷ [] }))
unfolding render scan_lines
phone-Fits = (
  refl,
  (
    refl,
    (
      refl,
      (
        refl,
        (
          refl,
          (
            refl,
            (
              refl,
              (
                refl,
                (
                  refl,
                  (
                    refl,
                    (
                      refl,
                      (refl, (refl, (refl, (refl, (refl, (refl, (refl, (refl, (refl, tt))))))))),
                    ),
                  ),
                ),
              ),
            ),
          ),
        ),
      ),
    ),
  ),
)

parse-render_peers_example :
    parse (render (record { interface = paired; peers = phone ∷ [] }))
    ≡ inr (record { interface = without_comments paired; peers = phone ∷ [] })
parse-render_peers_example =
    parse-render_peers paired phone [] paired-IsWritable (omega arith) (phone-IsWritablePeer, tt)
      phone-Fits

abbrev no_section_text : Bytes
no_section_text = text "# none" ++ b'\n' ∷ text "ListenPort = 1"

parse-Reports_example : Reports 0 (scan_lines no_section_text) (ParseError.key_outside_section 2)
parse-Reports_example =
    parse-Reports no_section_text (ParseError.key_outside_section 2) (unfold parse in refl)

-- A no-break space at the end and an em space at the front are trimmed; an accented letter is kept.
wide_spaces :
    (trim_space (0xe2 ∷ 0x80 ∷ 0x83 ∷ text "phone" ++ 0xc2 ∷ 0xa0 ∷ []) ≡ text "phone")
    × (trim_space (0xc3 ∷ 0xa9 ∷ []) ≡ 0xc3 ∷ 0xa9 ∷ [])
unfolding trim_space
wide_spaces = (refl, refl)
