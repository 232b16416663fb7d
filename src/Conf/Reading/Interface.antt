-- ===== src/Conf/Reading/Interface.antt =====
-- The interface's part of the text, read back field by field.
use wireguardd.Base.{
  is_edge, if◌then◌else◌, length, All, text, is_space, has_byte, to_lower, IsCount, ℕ, ◌^◌, ◌≤◌,
  ◌<◌, ◌≡◌, refl, sym, ap, Bool, true, false, false≢true, Option, some, [], ◌∷◌,
}
use wireguardd.Conf.{line, render_fields, render_amnezia, render_interface, InterfaceSection}
use wireguardd.Conf.Parse.{apply_interface_key, set_parsed, peer_meta}
use wireguardd.Conf.Parse.Items.{IsItem, IsHook}
use wireguardd.Conf.Parse.Loop.{blank_interface, blank_peer}
use wireguardd.Conf.Clean.{IsText}
use wireguardd.Conf.Reading.{Stage, Reads, ◌then◌}
use wireguardd.Conf.Reading.Fields.{Reads-waiting, is_key, is_field_key, Reads-settled, set-Reads}
use wireguardd.Conf.Reading.Kinds.{
  stays, text-Reads, int-Reads, amnezia_int-Reads, addresses-Reads, dns-Reads, hook-Reads,
}
use wireguardd.Conf.Reading.Notes.{note-Reads, peer_note-Reads}

-- An interface whose fields each fit their lines.
pub record IsWritable (i : InterfaceSection) : Type 0 where
  pub private_key : IsText i.private_key
  pub address : All IsItem i.address
  pub listen_port : IsCount i.listen_port
  pub dns : All IsItem i.dns
  pub mtu : IsCount i.mtu
  pub table : IsText i.table
  pub fw_mark : IsCount i.fw_mark
  pub pre_up : IsHook i.pre_up
  pub post_up : IsHook i.post_up
  pub pre_down : IsHook i.pre_down
  pub post_down : IsHook i.post_down
  pub amnezia_ints : All (λ n. n < 2 ^ 64) (i.jc ∷ i.jmin ∷ i.jmax ∷ i.s1 ∷ i.s2 ∷ i.s3 ∷ i.s4 ∷ [])
  pub amnezia_texts : All IsText (i.h1 ∷ i.h2 ∷ i.h3 ∷ i.h4 ∷ i.i1 ∷ i.i2 ∷ i.i3 ∷ i.i4 ∷ i.i5 ∷ [])
  pub public_key_comment : IsText i.public_key_comment
  pub peer_dns : IsText i.peer_dns
  pub peer_endpoint : IsText i.peer_endpoint
  pub backend : IsText i.backend
  pub protocol : IsText i.protocol
  pub pair_name : IsText i.pair_name

-- The interface without the comments that follow its fields.
abbrev pub without_comments : InterfaceSection → InterfaceSection
without_comments i = record i {
  peer_dns = [];
  peer_endpoint = [];
  backend = [];
  protocol = [];
  pair_name = [];
}

-- Nor its AmneziaWG parameters.
abbrev without_amnezia : InterfaceSection → InterfaceSection
without_amnezia i = record (without_comments i) {
  jc = 0;
  jmin = 0;
  jmax = 0;
  s1 = 0;
  s2 = 0;
  s3 = 0;
  s4 = 0;
  h1 = [];
  h2 = [];
  h3 = [];
  h4 = [];
  i1 = [];
  i2 = [];
  i3 = [];
  i4 = [];
  i5 = [];
}

save_config-Reads :
    (v : Bool) {b : Bool} {i : InterfaceSection}
    → i.save_config ≡ false
    → Reads
        (if v then line (text "SaveConfig") (text "true") else [])
        (Stage.interface b i)
        (Stage.interface b (record i { save_config = v }))
save_config-Reads true {b} {i} z = Reads-settled (
    set-Reads (text "SaveConfig") (text "true") (record i { save_config = true })
      (unfold is_field_key in refl) (unfold is_edge is_space has_byte in (refl, refl, refl))
      (unfold apply_interface_key in refl))
save_config-Reads false {b} {i} z = stays (ap (λ v. record i { save_config = v }) (sym z))

parsed :
    {i : InterfaceSection} (set : ℕ → InterfaceSection → InterfaceSection) (o : Option ℕ) (m : ℕ)
    → o ≡ some m
    → set_parsed set o i ≡ some (set m i)
parsed set o m e = rw e refl

fields-Reads :
    (b : Bool) (i : InterfaceSection)
    → IsWritable i
    → (b ≡ true → 1 ≤ length i.address)
    → Reads
        (render_fields i)
        (Stage.interface false blank_interface)
        (Stage.interface b (without_amnezia i))
unfolding render_fields to_lower is_field_key is_key apply_interface_key
fields-Reads b i h a =
    text-Reads (λ v i. record i { private_key = v }) (text "PrivateKey") i.private_key refl refl
      (λ w. refl) h.private_key
    then note-Reads (λ v i. record i { public_key_comment = v }) (text "PublicKey")
        i.public_key_comment refl refl (λ w f j. refl) h.public_key_comment
    then addresses-Reads i.address refl a h.address
    then int-Reads (λ v i. record i { listen_port = v }) (text "ListenPort") i.listen_port refl refl
        (λ v m e. parsed _ _ m e) h.listen_port
    then dns-Reads i.dns refl h.dns
    then int-Reads (λ v i. record i { mtu = v }) (text "MTU") i.mtu refl refl
        (λ v m e. parsed _ _ m e) h.mtu
    then text-Reads (λ v i. record i { table = v }) (text "Table") i.table refl refl (λ w. refl)
        h.table
    then int-Reads (λ v i. record i { fw_mark = v }) (text "FwMark") i.fw_mark refl refl
        (λ v m e. parsed _ _ m e) h.fw_mark
    then hook-Reads (λ v i. record i { pre_up = v }) (text "PreUp") i.pre_up refl refl (λ u w. refl)
        h.pre_up
    then hook-Reads (λ v i. record i { post_up = v }) (text "PostUp") i.post_up refl refl
        (λ u w. refl) h.post_up
    then hook-Reads (λ v i. record i { pre_down = v }) (text "PreDown") i.pre_down refl refl
        (λ u w. refl) h.pre_down
    then hook-Reads (λ v i. record i { post_down = v }) (text "PostDown") i.post_down refl refl
        (λ u w. refl) h.post_down
    then save_config-Reads i.save_config refl

amnezia-Reads :
    {b : Bool} (i : InterfaceSection)
    → IsWritable i
    → Reads
        (render_amnezia i)
        (Stage.interface b (without_amnezia i))
        (Stage.interface b (without_comments i))
unfolding render_amnezia is_field_key is_key apply_interface_key
amnezia-Reads i h =
    let (n1, (n2, (n3, (n4, (n5, (n6, (n7, _))))))) = h.amnezia_ints in
    let (t1, (t2, (t3, (t4, (t5, (t6, (t7, (t8, (t9, _))))))))) = h.amnezia_texts in
    amnezia_int-Reads (λ v i. record i { jc = v }) (text "Jc") i.jc refl refl
      (λ v m e. parsed _ _ m e) n1
    then amnezia_int-Reads (λ v i. record i { jmin = v }) (text "Jmin") i.jmin refl refl
        (λ v m e. parsed _ _ m e) n2
    then amnezia_int-Reads (λ v i. record i { jmax = v }) (text "Jmax") i.jmax refl refl
        (λ v m e. parsed _ _ m e) n3
    then amnezia_int-Reads (λ v i. record i { s1 = v }) (text "S1") i.s1 refl refl
        (λ v m e. parsed _ _ m e) n4
    then amnezia_int-Reads (λ v i. record i { s2 = v }) (text "S2") i.s2 refl refl
        (λ v m e. parsed _ _ m e) n5
    then amnezia_int-Reads (λ v i. record i { s3 = v }) (text "S3") i.s3 refl refl
        (λ v m e. parsed _ _ m e) n6
    then amnezia_int-Reads (λ v i. record i { s4 = v }) (text "S4") i.s4 refl refl
        (λ v m e. parsed _ _ m e) n7
    then text-Reads (λ v i. record i { h1 = v }) (text "H1") i.h1 refl refl (λ w. refl) t1
    then text-Reads (λ v i. record i { h2 = v }) (text "H2") i.h2 refl refl (λ w. refl) t2
    then text-Reads (λ v i. record i { h3 = v }) (text "H3") i.h3 refl refl (λ w. refl) t3
    then text-Reads (λ v i. record i { h4 = v }) (text "H4") i.h4 refl refl (λ w. refl) t4
    then text-Reads (λ v i. record i { i1 = v }) (text "I1") i.i1 refl refl (λ w. refl) t5
    then text-Reads (λ v i. record i { i2 = v }) (text "I2") i.i2 refl refl (λ w. refl) t6
    then text-Reads (λ v i. record i { i3 = v }) (text "I3") i.i3 refl refl (λ w. refl) t7
    then text-Reads (λ v i. record i { i4 = v }) (text "I4") i.i4 refl refl (λ w. refl) t8
    then text-Reads (λ v i. record i { i5 = v }) (text "I5") i.i5 refl refl (λ w. refl) t9

-- With no peer to follow, the comments at the end are kept.
pub interface-Reads :
    (i : InterfaceSection)
    → IsWritable i
    → Reads (render_interface i) (Stage.interface false blank_interface) (Stage.interface false i)
unfolding render_interface is_key to_lower
interface-Reads i h =
    fields-Reads false i h (λ e. absurd (false≢true e))
    then amnezia-Reads i h
    then note-Reads (λ v i. record i { peer_dns = v }) (text "PeerDNS") i.peer_dns refl refl
        (λ w f j. refl) h.peer_dns
    then note-Reads (λ v i. record i { peer_endpoint = v }) (text "PeerEndpoint") i.peer_endpoint
        refl refl (λ w f j. refl) h.peer_endpoint
    then note-Reads (λ v i. record i { backend = v }) (text "Backend") i.backend refl refl
        (λ w f j. refl) h.backend
    then note-Reads (λ v i. record i { protocol = v }) (text "Protocol") i.protocol refl refl
        (λ w f j. refl) h.protocol
    then note-Reads (λ v i. record i { pair_name = v }) (text "PairName") i.pair_name refl refl
        (λ w f j. refl) h.pair_name

-- Before a peer they wait, and no peer takes them.
pub aside-Reads :
    (i : InterfaceSection)
    → IsWritable i
    → 1 ≤ length i.address
    → Reads
        (render_interface i)
        (Stage.interface false blank_interface)
        (Stage.waiting (without_comments i) [] blank_peer)
unfolding render_interface is_key to_lower peer_meta
aside-Reads i h a =
    Reads-waiting (fields-Reads true i h (λ e. a) then amnezia-Reads i h)
    then peer_note-Reads (λ v q. q) (text "PeerDNS") i.peer_dns refl refl (λ w f. refl) h.peer_dns
    then peer_note-Reads (λ v q. q) (text "PeerEndpoint") i.peer_endpoint refl refl (λ w f. refl)
        h.peer_endpoint
    then peer_note-Reads (λ v q. q) (text "Backend") i.backend refl refl (λ w f. refl) h.backend
    then peer_note-Reads (λ v q. q) (text "Protocol") i.protocol refl refl (λ w f. refl) h.protocol
    then peer_note-Reads (λ v q. q) (text "PairName") i.pair_name refl refl (λ w f. refl)
        h.pair_name
