-- ===== src/Host/Limits/Nft.antt =====
-- internal/wgbackend/nft_limits.go: the names, rates and rules of bandwidth limits in nftables.
use wireguardd.Base.{
  includes, if◌then◌else◌, ltb, leb, ◌==◌, text, format_int, less64, length, take, map, has_byte,
  Map, Bytes, ℕ, ◌/◌, ◌%◌, Bool, true, false, not, ◌&&◌, ◌||◌, List, [], ◌∷◌, ◌++◌,
}
use wireguardd.Host.Limits.{clamp_burst}

-- `peerNFTState`
pub record PeerNft : Type 0 where
  pub tx_bps : ℕ
  pub rx_bps : ℕ
  pub ips : List Bytes
  pub active : Bool

-- `ifaceNFTState`
pub record IfaceNft : Type 0 where
  pub ready : Bool
  pub peers : Map PeerNft

abbrev pub is_ascii_digit : ℕ → Bool
is_ascii_digit c = leb b'0' c && leb c b'9'

-- A letter or digit of ASCII, the underscore, or one of these.
abbrev pub is_word : Bytes → ℕ → Bool
is_word extra c =
    (leb b'a' c && leb c b'z')
    || ((leb b'A' c && leb c b'Z') || (is_ascii_digit c || ((c == b'_') || has_byte c extra)))

abbrev pub underscored : Bytes → ℕ → ℕ
underscored extra c = if is_word extra c then c else b'_'

-- An identifier does not start with a digit.
abbrev pub letter_first : Bytes → Bytes
letter_first [] = text "iface"
letter_first (c ∷ cs) = if is_ascii_digit c then b'n' ∷ c ∷ cs else c ∷ cs

-- `sanitizeNFTIdent`, of a name in ASCII
unfoldable pub sanitize_nft_ident : Bytes → Bytes
unfolding has_byte
sanitize_nft_ident s = letter_first (map (underscored []) s)

-- `nftTableName`
unfoldable pub nft_table_name : Bytes → Bytes
unfolding sanitize_nft_ident
nft_table_name iface = text "wireguardd_" ++ sanitize_nft_ident iface

-- `nftComment`, of a key in ASCII: the ellipsis of a shortened key is one character.
unfoldable pub nft_comment : Bytes → Bytes
unfolding has_byte
nft_comment key =
    let safe = map (underscored (text "-.")) in
    take 64 (if leb (length key) 12 then safe key else safe (take 8 key) ++ b'_' ∷ [])

abbrev pub rate_text : ℕ → Bytes
unfolding format_int
rate_text per_second =
    if (per_second % 1000000) == 0
    then format_int (per_second / 1000000) ++ text " mbytes/second"
    else if (per_second % 1000) == 0
    then format_int (per_second / 1000) ++ text " kbytes/second"
    else format_int per_second ++ text " bytes/second"

abbrev pub burst_text : ℕ → Bytes
unfolding format_int
burst_text b =
    if ((b % 1024) == 0) && leb 1024 b
    then format_int (b / 1024) ++ text " kbytes"
    else format_int b ++ text " bytes"

-- `formatNFTRate`: the rate and the burst.
unfoldable pub format_nft_rate : ℕ → Bytes × Bytes
unfolding rate_text burst_text
format_nft_rate bps =
    let whole = (if less64 bps 8 then 8 else bps) / 8 in
    let per_second = if ltb whole 1 then 1 else whole in
    (rate_text per_second, burst_text (clamp_burst (per_second / 20)))

-- `nftExistsErr`
unfoldable pub nft_exists_err : Bytes → Bool
unfolding includes
nft_exists_err s =
    includes s (text "File exists")
    || (includes s (text "already exists") || includes s (text "exists"))

-- `nftNotFoundErr`
unfoldable pub nft_not_found_err : Bytes → Bool
unfolding includes
nft_not_found_err s =
    includes s (text "No such file")
    || (includes s (text "does not exist")
        || (includes s (text "not found") || includes s (text "No such")))

-- What is made of the error of a command: none, none if it exists already, or any.
pub data Strictness : Type 0 where
  ignored : Strictness
  unless_exists : Strictness
  required : Strictness

-- A command, and what its error is prefixed with.
pub record Step : Type 0 where
  pub strictness : Strictness
  pub args : List Bytes
  pub what : Bytes

unfoldable pub fails : Strictness → Bytes → Bool
unfolding nft_exists_err
fails Strictness.ignored e = false
fails Strictness.unless_exists e = not (nft_exists_err e)
fails Strictness.required e = true

abbrev pub add_chain : Bytes → Bytes → Step
add_chain table chain = record {
  strictness = Strictness.unless_exists;
  args = text "add" ∷ text "chain" ∷ text "inet" ∷ table ∷ chain ∷ [];
  what = text "nft add chain " ++ chain ++ text ": ";
}

abbrev pub flush_chain : Strictness → Bytes → Bytes → Step
flush_chain strictness table chain = record {
  strictness = strictness;
  args = text "flush" ∷ text "chain" ∷ text "inet" ∷ table ∷ chain ∷ [];
  what = text "nft flush " ++ chain ++ text ": ";
}

abbrev pub hook_chain : Bytes → Bytes → Bytes → Step
hook_chain table name hook = record {
  strictness = Strictness.unless_exists;
  args =
      text "add"
      ∷ text "chain"
      ∷ text "inet"
      ∷ table
      ∷ name
      ∷ (text "{ type filter hook " ++ hook ++ text " priority filter; policy accept; }")
      ∷ [];
  what = text "nft add hook chain " ++ name ++ text ": ";
}

abbrev pub nft_rule : Bytes → Bytes → List Bytes → List Bytes
nft_rule table chain rule = text "add" ∷ text "rule" ∷ text "inet" ∷ table ∷ chain ∷ rule

-- The chain of a hook: what is on another interface returns, the rest jumps to the rules.
abbrev pub hook_steps : Bytes → Bytes → Bytes → Bytes → Bytes → Bytes → List Step
hook_steps iface table name hook side jump =
    hook_chain table name hook
    ∷ flush_chain Strictness.ignored table name
    ∷ record {
      strictness = Strictness.required;
      args = nft_rule table name (side ∷ text "!=" ∷ iface ∷ text "return" ∷ []);
      what = text "nft hook " ++ name ++ text " return: ";
    }
    ∷ record {
      strictness = Strictness.required;
      args = nft_rule table name (text "jump" ∷ jump ∷ []);
      what = text "nft hook " ++ name ++ text " jump: ";
    }
    ∷ []

-- The chains of a table, in the order in which they are made.
abbrev pub table_steps : Bytes → Bytes → List Step
table_steps iface table =
    add_chain table (text "rx")
      ∷ add_chain table (text "tx")
      ∷ hook_steps iface table (text "rx_input") (text "input") (text "iifname") (text "rx")
    ++ hook_steps iface table (text "rx_forward") (text "forward") (text "iifname") (text "rx")
    ++ hook_steps iface table (text "tx_output") (text "output") (text "oifname") (text "tx")
    ++ hook_steps iface table (text "tx_forward") (text "forward") (text "oifname") (text "tx")

-- IPv4 has dots and no colon.
abbrev pub address_family : Bytes → Bytes
unfolding has_byte
address_family ip = if has_byte b'.' ip && not (has_byte b':' ip) then text "ip" else text "ip6"

unfoldable pub limit_rule : Bytes → Bytes → Bytes → Bytes → Bytes → ℕ → List Bytes
unfolding format_nft_rate address_family
limit_rule table chain side ip comment bps =
    let (rate, burst) = format_nft_rate bps in
    nft_rule table chain (
      address_family ip
      ∷ side
      ∷ ip
      ∷ text "limit"
      ∷ text "rate"
      ∷ text "over"
      ∷ rate
      ∷ text "burst"
      ∷ burst
      ∷ text "drop"
      ∷ text "comment"
      ∷ comment
      ∷ [])
