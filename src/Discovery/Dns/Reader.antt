-- ===== src/Discovery/Dns/Reader.antt =====
-- A reader of the response, written from RFC 1035 and not from the code: records of another kind are
-- skipped by their RDLENGTH.
use huddle_cluster.Base.{
  ℕ, zero, suc, ◌+◌, ◌*◌, ◌&&◌, Option, none, some, List, [], ◌∷◌, if◌then◌else◌, leb, ◌==◌, length,
  take, drop,
}
use huddle_cluster.Discovery.Dns.{Bytes, bytes_eq}

abbrev pub read16 : Bytes → ℕ
read16 (a ∷ b ∷ rest) = a * 256 + b
read16 _ = 0

-- What follows a name.
abbrev pub skip_name : ℕ → Bytes → Option Bytes
skip_name zero bytes = none
skip_name (suc n) [] = none
skip_name (suc n) (len ∷ bytes) =
    let rest = skip_name n (drop len bytes) in if len == 0 then some bytes else rest

-- What follows the name of a record: labels up to the root or up to a pointer.
abbrev pub skip_owner : ℕ → Bytes → Option Bytes
skip_owner zero bytes = none
skip_owner (suc n) [] = none
skip_owner (suc n) (len ∷ bytes) =
    let rest = skip_owner n (drop len bytes) in
    if len == 0 then some bytes else if leb 192 len then some (drop 1 bytes) else rest

-- The address of a record, if it is named by a pointer to the question and is of type A and class IN.
abbrev pub address_of : Bytes → Bytes → Bytes → Option Bytes
address_of bytes fixed body =
    if bytes_eq (take 2 bytes) (192 ∷ 12 ∷ [])
      && bytes_eq (take 4 fixed) (0 ∷ 1 ∷ 0 ∷ 1 ∷ [])
      && (length body == 4)
    then some body
    else none

-- Type, class, time to live and RDLENGTH, the data of this length, and what follows.
abbrev pub read_record : Bytes → Option Bytes → Option (Option Bytes × Bytes)
read_record bytes none = none
read_record bytes (some fixed) =
    let size = read16 (drop 8 fixed) in
    let rest = drop 10 fixed in
    if leb 10 (length fixed) && leb size (length rest)
    then some (address_of bytes fixed (take size rest), drop size rest)
    else none

abbrev pub and_then : Option Bytes → Option (List Bytes) → Option (List Bytes)
and_then address none = none
and_then none (some rest) = some rest
and_then (some address) (some rest) = some (address ∷ rest)

abbrev pub then_records :
    Option (Option Bytes × Bytes) → (Bytes → Option (List Bytes)) → Option (List Bytes)
then_records none more = none
then_records (some (address, rest)) more = and_then address (more rest)

-- The addresses in a number of records; a record of another kind is skipped by its RDLENGTH.
unfoldable pub read_answers : ℕ → Bytes → Option (List Bytes)
unfolding bytes_eq
read_answers zero bytes = some []
read_answers (suc n) bytes =
    then_records (read_record bytes (skip_owner (length bytes) bytes)) (read_answers n)

abbrev pub after_question : ℕ → Option Bytes → Option (List Bytes)
after_question n none = none
after_question n (some bytes) = read_answers n (drop 4 bytes)

-- The addresses in a message with one question.
unfoldable pub read_response : Bytes → Option (List Bytes)
unfolding read_answers
read_response packet =
    let question = drop 12 packet in
    after_question (read16 (drop 6 packet)) (skip_name (length question) question)
