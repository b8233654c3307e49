-- ===== src/Discovery/Dns.antt =====
-- The DNS responder of huddle_cluster_pkg/cluster_service_discovery.py, over bytes. Names are ASCII.
pub mod Names
pub mod Reader
pub mod Answers
pub mod Question
use huddle_cluster.Base.{
  ℕ, zero, suc, ◌+◌, ◌-◌, ◌*◌, ◌/◌, ◌%◌, String, Bool, true, false, ◌&&◌, Option, none, some, List,
  [], ◌∷◌, ◌++◌, if◌then◌else◌, ltb, leb, ◌==◌, length, take, drop, keep, map,
}

abbrev pub Bytes : Type 0
Bytes = List ℕ

-- `struct.pack("!H", n)`
abbrev pub pack16 : ℕ → Bytes
pack16 n = n / 256 % 256 ∷ n % 256 ∷ []

-- The four bytes of an IPv4 address.
pub record Address : Type 0 where
  pub byte0 : ℕ
  pub byte1 : ℕ
  pub byte2 : ℕ
  pub byte3 : ℕ

abbrev pub rdata : Address → Bytes
rdata a = a.byte0 ∷ a.byte1 ∷ a.byte2 ∷ a.byte3 ∷ []

-- `socket.inet_aton`, or nothing where it raises.
abbrev pub Aton : Type 0
Aton = String → Option Address

-- One answer: the pointer to the question's name, type A, class IN, ten seconds, and the address.
unfoldable pub answer : Address → Bytes
answer a = 192 ∷ 12 ∷ 0 ∷ 1 ∷ 0 ∷ 1 ∷ 0 ∷ 0 ∷ 0 ∷ 10 ∷ 0 ∷ 4 ∷ rdata a

abbrev pub then_answer : Option Address → Option Bytes → Option Bytes
then_answer none rest = none
then_answer (some a) none = none
then_answer (some a) (some rest) = some (answer a ++ rest)

unfoldable pub answers : Aton → List String → Option Bytes
unfolding answer
answers aton [] = some []
answers aton (ip ∷ ips) = then_answer (aton ip) (answers aton ips)

abbrev pub message : Bytes → ℕ → Option Bytes → Option Bytes
message query n none = none
message query n (some rest) =
    if ltb n 65536
    then some (
        take 2 query
        ++ (132 ∷ 0 ∷ pack16 1)
        ++ pack16 n
        ++ (0 ∷ 0 ∷ 0 ∷ 0 ∷ [])
        ++ drop 12 query
        ++ rest)
    else none

-- `_build_dns_response`; more addresses than two bytes can count raise.
unfoldable pub build_dns_response : Aton → Bytes → List String → Option Bytes
unfolding answers
build_dns_response aton query ips = message query (length ips) (answers aton ips)

unfoldable pub is_ascii : Bytes → Bool
is_ascii [] = true
is_ascii (b ∷ bs) = ltb b 128 && is_ascii bs

abbrev pub then_label : Bytes → Option (List Bytes) → Option (List Bytes)
then_label label none = none
then_label label (some labels) = if is_ascii label then some (label ∷ labels) else none

-- The labels of the name, read until a zero or the end; a label that is not ASCII raises. Each round
-- takes a byte at least, so the number of bytes is fuel enough.
unfoldable pub read_labels : ℕ → Bytes → Option (List Bytes)
unfolding is_ascii
read_labels zero packet = some []
read_labels (suc n) [] = some []
read_labels (suc n) (len ∷ packet) =
    let rest = read_labels n (drop len packet) in
    if len == 0 then some [] else then_label (take len packet) rest

-- `".".join(parts)`
unfoldable pub joined : List Bytes → Bytes
joined [] = []
joined (label ∷ []) = label
joined (label ∷ labels) = label ++ 46 ∷ joined labels

abbrev pub lower_byte : ℕ → ℕ
lower_byte b = if leb 65 b && leb b 90 then b + 32 else b

unfoldable pub lower : Bytes → Bytes
lower [] = []
lower (b ∷ bs) = lower_byte b ∷ lower bs

unfoldable pub bytes_eq : Bytes → Bytes → Bool
bytes_eq [] [] = true
bytes_eq (a ∷ xs) (b ∷ bs) = a == b && bytes_eq xs bs
bytes_eq _ _ = false

-- `name[:-len(suffix)]` where the name ends with the suffix.
unfoldable pub before_suffix : Bytes → Bytes → Option Bytes
unfolding bytes_eq
before_suffix suffix name =
    let at = length name - length suffix in
    if leb (length suffix) (length name) && bytes_eq (drop at name) suffix
    then some (take at name)
    else none

abbrev pub is_valid_ipv4 : Aton → String → Bool
is_valid_ipv4 aton address = elim (aton address) [ none ↦ false | some _ ↦ true ]

abbrev pub respond : Aton → Bytes → List String → Option Bytes
respond aton packet [] = none
respond aton packet (ip ∷ ips) = build_dns_response aton packet (ip ∷ ips)

abbrev pub serve : Aton → (Bytes → List String) → Bytes → Option Bytes → Option Bytes
serve aton addresses packet none = none
serve aton addresses packet (some service) =
    respond aton packet (keep (is_valid_ipv4 aton) (addresses service))

abbrev pub name_of : Option (List Bytes) → Option Bytes
name_of none = none
name_of (some labels) = some (lower (joined labels))

abbrev pub service_of : Bytes → Option Bytes → Option Bytes
service_of domain none = none
service_of domain (some name) = before_suffix (lower (46 ∷ domain)) name

-- `_handle_dns_query`: the response that is sent, if any; `addresses` gives the addresses of the alive
-- nodes of a service.
unfoldable pub handle_dns_query : Aton → Bytes → (Bytes → List String) → Bytes → Option Bytes
unfolding read_labels joined lower before_suffix build_dns_response
handle_dns_query aton domain addresses packet =
    let question = drop 12 packet in
    serve aton addresses packet
      (service_of domain (name_of (read_labels (length question) question)))
