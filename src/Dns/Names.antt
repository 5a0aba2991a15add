-- ===== src/Dns/Names.antt =====
-- internal/dns/dns.go: the names that are looked up and the questions asked for them. A text is its bytes.
use prober.Prelude.{
  ℕ, ◌+◌, ◌%◌, ◌/◌, Bool, true, false, ◌&&◌, ◌||◌, List, [], ◌∷◌, ◌++◌, Option, none, some, length,
  ltb, leb, ◌==◌, if◌then◌else◌,
}
use prober.Prelude.Maps.{Text, codes, text_eq}
use prober.Auth.Claims.{dot, split_dots}

abbrev pub is_between : ℕ → ℕ → ℕ → Bool
is_between a b c = leb a c && leb c b

abbrev pub lower_byte : ℕ → ℕ
lower_byte c = if is_between 65 90 c then c + 32 else c

-- What `strings.EqualFold` compares, of texts one of which is ASCII: it takes the two letters for ſ (U+017F) and
-- K (the Kelvin sign, U+212A) for an s and a k, as Unicode folds them.
abbrev pub fold_onto : ℕ → Text → Text
fold_onto c [] = lower_byte c ∷ []
fold_onto c (d ∷ []) = if c == 197 && d == 191 then b's' ∷ [] else lower_byte c ∷ d ∷ []
fold_onto c (d ∷ e ∷ rest) =
    if c == 197 && d == 191
    then b's' ∷ e ∷ rest
    else if c == 226 && d == 132 && e == 170
    then b'k' ∷ rest
    else lower_byte c ∷ d ∷ e ∷ rest

abbrev pub folded : Text → Text
folded [] = []
folded (c ∷ cs) = fold_onto c (folded cs)

abbrev pub hyphen : ℕ
hyphen = 45

abbrev pub is_name_byte : ℕ → Bool
is_name_byte c =
    is_between 97 122 c || is_between 65 90 c || is_between 48 57 c || c == hyphen || c == 95

abbrev pub all_name_bytes : Text → Bool
all_name_bytes [] = true
all_name_bytes (c ∷ cs) = if is_name_byte c then all_name_bytes cs else false

abbrev pub last_byte : Text → ℕ → ℕ
last_byte [] c = c
last_byte (d ∷ cs) c = last_byte cs d

abbrev pub is_label : Text → Bool
is_label [] = false
is_label (c ∷ cs) =
    if ltb 63 (length (c ∷ cs))
    then false
    else if c == hyphen || last_byte cs c == hyphen
    then false
    else all_name_bytes (c ∷ cs)

abbrev pub all_labels : List Text → Bool
all_labels [] = true
all_labels (l ∷ labels) = if is_label l then all_labels labels else false

unfoldable pub valid_name : Text → Bool
valid_name name = if ltb 253 (length name) then false else all_labels (split_dots name)

-- `strings.TrimSuffix(name, ".")`.
abbrev pub trim_suffix : Text → Text
trim_suffix [] = []
trim_suffix (c ∷ []) = if c == dot then [] else c ∷ []
trim_suffix (c ∷ d ∷ cs) = c ∷ trim_suffix (d ∷ cs)

-- A name without its last dot, the root excepted.
unfoldable pub trim_dot : Text → Text
trim_dot name = if ltb 1 (length name) then trim_suffix name else name

-- The record types that are asked for.
pub data QueryType : Type 0 where
  type_a type_aaaa type_srv type_ptr : QueryType

pub record Query : Type 0 where
  pub type : QueryType
  pub name : Text

abbrev pub srv_services : List (Text × Text)
srv_services =
    (codes "sip", codes "udp")
    ∷ (codes "sip", codes "tcp")
    ∷ (codes "sip", codes "tls")
    ∷ (codes "sips", codes "tcp")
    ∷ []

abbrev pub srv_queries : Text → List (Text × Text) → List Query
srv_queries name [] = []
srv_queries name ((service, proto) ∷ services) =
    (record {
      type = type_srv;
      name = codes "_" ++ service ++ codes "._" ++ proto ++ codes "." ++ name;
    })
    ∷ srv_queries name services

-- `address` is the reverse name if `netip.ParseAddr` reads the name as an address.
unfoldable pub queries : Text → Option Text → List Query
queries name (some reverse_name) = (record { type = type_ptr; name = reverse_name }) ∷ []
queries name none =
    (record { type = type_a; name = name })
    ∷ (record { type = type_aaaa; name = name })
    ∷ srv_queries name srv_services

abbrev pub digit : ℕ → ℕ
digit n = if ltb n 10 then 48 + n else 87 + n

-- A byte in decimal, `%d`.
abbrev pub decimal : ℕ → Text
decimal b =
    if ltb b 10
    then digit b ∷ []
    else if ltb b 100
    then digit (b / 10) ∷ digit (b % 10) ∷ []
    else digit (b / 100) ∷ digit (b / 10 % 10) ∷ digit (b % 10) ∷ []

-- The octets of an IPv4 address, the last first.
unfoldable pub reverse_name4 : ℕ → ℕ → ℕ → ℕ → Text
reverse_name4 b0 b1 b2 b3 =
    decimal b3
    ++ dot ∷ (decimal b2 ++ dot ∷ (decimal b1 ++ dot ∷ (decimal b0 ++ codes ".in-addr.arpa")))

-- The nibbles of the bytes of an IPv6 address, which come the last first.
unfoldable pub reverse_name6 : List ℕ → Text
reverse_name6 [] = codes "ip6.arpa"
reverse_name6 (b ∷ bytes) = digit (b % 16) ∷ dot ∷ digit (b / 16) ∷ dot ∷ reverse_name6 bytes
