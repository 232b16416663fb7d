-- ===== src/Snmp/Ber.antt =====
-- internal/snmp/ber.go: the tags, the typed value, and the errors of the readers. A byte slice is a
-- list of numbers below 256 and a Go string is its bytes. An int64 is kept as its two's complement
-- pattern below 2 ^ 64 (so `int64(u)` of a uint64 is `u`), and `int` and `uint` have 64 bits.
pub mod Encode
pub mod Decode
pub mod Length
pub mod Integers
pub mod Sizes
pub mod Arcs
pub mod Values
use wireguardd.Base.{Bytes, ℕ, Bool, true, false, []}

-- One constructor for each error that the SNMP readers return; the message texts are dropped.
-- `out_of_fuel` is no error of the program: a loop of the model had too little fuel.
pub data Error : Type 0 where
  eof invalid_length_form truncated_content empty_oid empty_integer integer_too_large : Error
  empty_unsigned not_sequence version_not_integer community_not_octets : Error
  request_id_not_integer bindings_not_sequence binding_not_sequence name_not_oid : Error
  out_of_fuel : Error

pub data Result {ℓ} (A : Type ℓ) : Type ℓ where
  ok : A → Result A
  err : Error → Result A

infixl 5 ◌>>=◌ ◌>>◌
abbrev pub ◌>>=◌ {ℓ κ} : {X : Type ℓ} {Y : Type κ} → Result X → (X → Result Y) → Result Y
err why >>= next = err why
ok x >>= next = next x

abbrev pub ◌>>◌ {ℓ} : {Y : Type ℓ} → Result (Unit {0}) → Result Y → Result Y
step >> after = step >>= λ _. after

-- `if !b { return e }`
abbrev pub check : Bool → Error → Result (Unit {0})
check true e = ok tt
check false e = err e

abbrev pub tag_integer : ℕ
tag_integer = 0x02

abbrev pub tag_octet_string : ℕ
tag_octet_string = 0x04

abbrev pub tag_null : ℕ
tag_null = 0x05

abbrev pub tag_oid : ℕ
tag_oid = 0x06

abbrev pub tag_sequence : ℕ
tag_sequence = 0x30

abbrev pub tag_ip_address : ℕ
tag_ip_address = 0x40

abbrev pub tag_counter32 : ℕ
tag_counter32 = 0x41

abbrev pub tag_gauge32 : ℕ
tag_gauge32 = 0x42

abbrev pub tag_time_ticks : ℕ
tag_time_ticks = 0x43

abbrev pub tag_counter64 : ℕ
tag_counter64 = 0x46

abbrev pub tag_no_such_object : ℕ
tag_no_such_object = 0x80

abbrev pub tag_no_such_instance : ℕ
tag_no_such_instance = 0x81

abbrev pub tag_end_of_mib_view : ℕ
tag_end_of_mib_view = 0x82

abbrev pub tag_get_request : ℕ
tag_get_request = 0xa0

abbrev pub tag_get_next_request : ℕ
tag_get_next_request = 0xa1

abbrev pub tag_get_response : ℕ
tag_get_response = 0xa2

abbrev pub tag_set_request : ℕ
tag_set_request = 0xa3

abbrev pub tag_get_bulk_request : ℕ
tag_get_bulk_request = 0xa5

pub record Value : Type 0 where
  pub type : ℕ
  pub int : ℕ
  pub u64 : ℕ
  pub str : Bytes
  pub raw : Bytes

-- `Value{Type: tag}`
abbrev pub typed : ℕ → Value
typed tag = record { type = tag; int = 0; u64 = 0; str = []; raw = [] }
