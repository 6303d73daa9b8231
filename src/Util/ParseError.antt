-- ===== src/Util/ParseError.antt =====
-- include/net/util/parse_error.h. A parser of the program returns an error code and writes its
-- results through references; here it returns the results or the code that is not `None`.
use pcap_analyzer.Prelude.{◌≡◌, refl, Bool, true, false}

pub data ParseError : Type 0 where
  filtered unexpected_eof_f unexpected_eof unsupported_version unsupported_linktype : ParseError
  unsupported_network_type unsupported_transport_type malformed_header : ParseError
  invalid_field_value checksum_mismatch : ParseError

pub data Result {ℓ} (A : Type ℓ) : Type ℓ where
  err : ParseError → Result A
  ok : A → Result A

-- `if (test) return code;`
abbrev pub fail_if : Bool → ParseError → Result (Unit {0})
fail_if false code = ok tt
fail_if true code = err code

infixl 5 ◌>>=◌ ◌>>◌
abbrev pub ◌>>=◌ {ℓ κ} : {A : Type ℓ} {B : Type κ} (m : Result A) (next : A → Result B) → Result B
err code >>= next = err code
ok value >>= next = next value

abbrev pub ◌>>◌ {κ} : {B : Type κ} (check : Result (Unit {0})) (next : Result B) → Result B
err code >> next = err code
ok value >> next = next

pub bind-eq-ok {ℓ κ} :
    {A : Type ℓ} {B : Type κ} (m : Result A) (next : A → Result B) {b : B}
    → (m >>= next) ≡ ok b
    → (a : A) × (m ≡ ok a) × (next a ≡ ok b)
bind-eq-ok (err code) next h = cc
bind-eq-ok (ok value) next h = (value, refl, h)
